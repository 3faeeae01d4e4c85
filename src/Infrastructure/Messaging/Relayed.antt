-- ===== src/Infrastructure/Messaging/Relayed.antt =====
-- The way of a domain event: from the outbox row that a commit writes for it, over the message that
-- the relay publishes for the row, to the handler that a consumer has for the event's class.
use ndma_edit.Prelude.{
  ℕ, Text, [], ◌∷◌, Option, some, codes, ◌≡◌, refl, sym, ◌∙◌, subst, text_eq, member,
}
use ndma_edit.Outcome.{Outcome, ok, ok_inj}
use ndma_edit.Runtime.{Runtime}
use ndma_edit.Domain.Aggregate.{Time, DomainEvent, event_type}
use ndma_edit.Infrastructure.Persistence.Models.{OutboxModel}
use ndma_edit.Infrastructure.Persistence.OutboxRow.{
  payload_of, outbox_row_for, outbox_row_for-eq-row_of,
}
use ndma_edit.Infrastructure.Persistence.Relay.{message_of}
use ndma_edit.Application.Ports.{OutboundMessage}
use ndma_edit.Infrastructure.Messaging.{
  str, JsonObject, Streams, MessageHandler, stream_of, fields_of, settle, handle_entry, reserved,
}
use ndma_edit.Infrastructure.Messaging.Delivery.{as_str, FreshIn, handle_entry-published}

-- What a handler is to learn of an event.
abbrev pub announcement : Runtime → DomainEvent → OutboundMessage
announcement rt e = record {
  topic = codes "users";
  key = rt.format_uuid e.aggregate_id;
  event_type = event_type e;
  payload = payload_of e.body;
  headers = (codes "outbox-id", rt.format_uuid e.event_id) ∷ [];
}

message_of-row :
    (rt : Runtime) (e : DomainEvent) (m : ℕ) (now : Time) (row : OutboxModel)
    → outbox_row_for e m now ≡ ok row
    → message_of rt row ≡ announcement rt e
unfolding message_of event_type
message_of-row rt e m now row h =
    subst (λ (r : OutboxModel). message_of rt r ≡ announcement rt e)
      (ok_inj (sym (outbox_row_for-eq-row_of e m now) ∙ h)) refl

announcement-FreshIn :
    (rt : Runtime) (e : DomainEvent) → FreshIn (announcement rt e).headers reserved
unfolding member text_eq codes
announcement-FreshIn rt e = (refl, tt)

module _ {S : Type 0} (streams : Streams S) (group consumer_name : Text) (dumps : JsonObject → Text)
    (loads : Text → Outcome JsonObject) where
  -- The message that the relay publishes for the outbox row of a domain event reaches the handler
  -- that is registered for the event's class, with the user's id as its key, the event's id in its
  -- header and the event's own fields as its payload, if the payload survives JSON.
  pub event_reaches_handler :
      (rt : Runtime) (e : DomainEvent) (m : ℕ) (now : Time) (row : OutboxModel)
      (handlers : Text → Option (MessageHandler S)) (handler : MessageHandler S) (entry_id : Text)
      (s : S)
      → outbox_row_for e m now ≡ ok row
      → handlers (event_type e) ≡ some handler
      → loads (dumps (payload_of e.body)) ≡ ok (payload_of e.body)
      → let stream = str (stream_of (message_of rt row).topic) in
        let fields = as_str (fields_of dumps (message_of rt row)) in
        handle_entry streams group consumer_name loads handlers stream entry_id fields s
        ≡ settle streams group consumer_name loads stream entry_id fields
            (handler (announcement rt e) s)
  event_reaches_handler rt e m now row handlers handler entry_id s written registered codec =
      rw (message_of-row rt e m now row written) (
        handle_entry-published dumps loads streams group consumer_name handlers (announcement rt e)
          handler entry_id s registered codec (announcement-FreshIn rt e))
