-- ===== src/Infrastructure/Messaging/Welcome.antt =====
-- The consumer of the worker, and its handler of registrations.
use ndma_edit.Prelude.{Text, some, codes, text_eq, ◌≡◌, refl}
use ndma_edit.Prelude.Dict.{put, dict_get}
use ndma_edit.Outcome.{Outcome}
use ndma_edit.Runtime.{Runtime}
use ndma_edit.Domain.Aggregate.{DomainEvent, user_registered, event_type, body_type}
use ndma_edit.Infrastructure.Persistence.Models.{OutboxModel}
use ndma_edit.Infrastructure.Persistence.OutboxRow.{payload_of}
use ndma_edit.Infrastructure.Persistence.Relay.{message_of}
use ndma_edit.Application.Users.Integration.{NotificationSender, welcome_handler}
use ndma_edit.Infrastructure.Messaging.{
  str, Received, Fields, JsonObject, Streams, stream_of, fields_of,
}
use ndma_edit.Infrastructure.Messaging.Delivery.{as_str}
use ndma_edit.Infrastructure.Messaging.Relayed.{announcement}
use ndma_edit.Infrastructure.Messaging.Consumer.{Consumer, Groups, new_consumer, register, running}

-- The consumer of the worker: one handler, for `UserRegistered`.
unfoldable pub worker_consumer : {S : Type 0} → NotificationSender S → Consumer S
unfolding new_consumer register
worker_consumer sender =
    register (codes "UserRegistered") (welcome_handler sender)
      (new_consumer (codes "users-worker") (codes "worker-1"))

module _ {S : Type 0} (sender : NotificationSender S) where
  knows_registrations :
      dict_get (codes "UserRegistered") (worker_consumer sender).handlers
      ≡ some (welcome_handler sender)
  unfolding worker_consumer register put dict_get text_eq codes
  knows_registrations = refl

  type_of_registration :
      (e : DomainEvent) (email name : Text)
      → e.body ≡ user_registered email name
      → event_type e ≡ codes "UserRegistered"
  unfolding event_type body_type
  type_of_registration e email name h = rw h refl

  -- The handler sends the mail to the address and the name of the registration.
  welcomes :
      (rt : Runtime) (e : DomainEvent) (email name : Text) (s : S)
      → e.body ≡ user_registered email name
      → welcome_handler sender (announcement rt e) s ≡ sender (some email) (some name) s
  unfolding welcome_handler payload_of text_eq codes
  welcomes rt e email name s h = rw h refl

  module _ (groups : Groups S) (streams : Streams S) (dumps : JsonObject → Text)
      (loads : Text → Outcome JsonObject) where
    -- The task of the worker, running.
    abbrev pub working : Consumer S
    working = record (worker_consumer sender) { task = running }

    -- The entry that the relay has published for an outbox row, as a client that decodes returns it.
    abbrev pub entry_of : Runtime → OutboxModel → Text → Received × Text × Fields
    entry_of rt row entry_id = (
      str (stream_of (message_of rt row).topic),
      entry_id,
      as_str (fields_of dumps (message_of rt row)),
    )
