-- ===== src/Tests/Worker.antt =====
-- The theorems on the consumer and the worker at concrete inputs.
use ndma_edit.Prelude.{
  ◌++◌, Text, [], ◌∷◌, true, false, none, some, codes, ◌≡◌, refl, text_eq, Bool-cases, inl, inr,
}
use ndma_edit.Prelude.Dict.{put, dict_get}
use ndma_edit.Outcome.{value_error, Outcome, ok, err}
use ndma_edit.Application.Ports.{OutboundMessage}
use ndma_edit.Infrastructure.Persistence.Relay.{message_of}
use ndma_edit.Domain.Aggregate.{body_type, DomainEvent, user_registered}
use ndma_edit.Infrastructure.Persistence.OutboxRow.{payload_of, row_of}
use ndma_edit.Infrastructure.Messaging.{
  fields_of, handle_entries, handle_entry, Received, Fields, JsonObject, MessageHandler,
}
use ndma_edit.Infrastructure.Messaging.Consumer.{Consumer, Turn, running, turn, run, awaited}
use ndma_edit.Infrastructure.Messaging.Consumer.Task.{only_others, ended, stop_returns}
use ndma_edit.Infrastructure.Messaging.Consumer.Pending.{
  AllOnce, LeavesGroup, nothing_is_dead_lettered,
}
use ndma_edit.Infrastructure.Messaging.Welcome.{worker_consumer, working, entry_of}
use ndma_edit.Infrastructure.Worker.{Worker, Closings, on_shutdown}
use ndma_edit.Infrastructure.Worker.Shutdown.{its_end, has_raised, on_shutdown_releases}
use ndma_edit.Tests.Surroundings.{ascii}
use ndma_edit.Tests.Streams.{
  Server, empty_server, server_streams, server_groups, server_view, keeping_sender, failing,
}

abbrev newcomer : DomainEvent
newcomer = record {
  aggregate_id = 7;
  event_id = 900;
  occurred_at = 5000;
  event_version = 1;
  body = user_registered (codes "ada@example.com") (codes "Ada");
}

abbrev any_json : JsonObject → Text
any_json p = codes "{}"

abbrev its_payload : Text → Outcome JsonObject
its_payload t = ok (payload_of newcomer.body)

abbrev calm : Turn Server
calm = record { stop_called = false; meanwhile = λ s. s }

abbrev stopping : Turn Server
stopping = record { stop_called = true; meanwhile = λ s. s }

abbrev its_entry : Received × Text × Fields
its_entry =
    entry_of keeping_sender server_groups server_streams any_json its_payload ascii
      (row_of newcomer 5 6000) (codes "1-0")

abbrev waiting_server : Server
waiting_server = record empty_server { inbox = its_entry ∷ [] }

abbrev task : Consumer Server
task = working keeping_sender server_groups server_streams any_json its_payload

stop_returns_example :
    let turns = calm ∷ stopping ∷ [] in
    let (c1, s1) = run server_groups server_streams its_payload turns task waiting_server in
    let (c2, s2) =
      run server_groups server_streams its_payload (turns ++ calm ∷ []) task waiting_server in
    (awaited c2.task ≡ some (ended c1.task)) × (s2 ≡ only_others (calm ∷ []) s1)
stop_returns_example =
    stop_returns server_groups server_streams its_payload (calm ∷ []) stopping calm [] task
      waiting_server refl

-- A consumer whose one handler raises.
abbrev stubborn : Consumer Server
stubborn = record {
  group = codes "users-worker";
  consumer_name = codes "worker-1";
  handlers = (codes "UserRegistered", failing) ∷ [];
  task = running;
  stopping = false;
}

some_inj : {x y : MessageHandler Server} → some x ≡ some y → x ≡ y
some_inj h = cc

leaves :
    (t : Text) (h : MessageHandler Server)
    → dict_get t stubborn.handlers ≡ some h
    → (m : OutboundMessage)
    → LeavesGroup server_groups server_streams
        (codes "users-worker")
        (codes "worker-1")
        (server_view (codes "users-worker") (codes "worker-1"))
        (λ s. (h m s).1)
unfolding dict_get
leaves t h known m s = elim (Bool-cases (text_eq (codes "UserRegistered") t)) [
  | inl same ↦ let it : some failing ≡ some h = rw same at known in rw (← some_inj it) (refl, refl)
  | inr other ↦ let nothing : none ≡ some h = rw other at known in absurd (cc)
]

nothing_is_dead_lettered_example :
    let s' =
      (run server_groups server_streams its_payload (calm ∷ calm ∷ []) stubborn waiting_server).1 in
    AllOnce s'.pending × (s'.dead ≡ [])
nothing_is_dead_lettered_example =
    nothing_is_dead_lettered server_groups server_streams (codes "users-worker") (codes "worker-1")
      (server_view (codes "users-worker") (codes "worker-1")) its_payload (calm ∷ calm ∷ [])
      stubborn waiting_server refl refl leaves ((λ s. (refl, refl)), ((λ s. (refl, refl)), tt)) tt

-- A worker that is shut down while its task reads an entry that is no JSON.
abbrev no_json : Text → Outcome JsonObject
no_json t = err (value_error (codes "no JSON"))

abbrev busy_worker : Worker Server
busy_worker = record {
  outbox_relay = none;
  consumer = some task;
  engine_open = true;
  redis_open = true;
  streams = waiting_server;
}

abbrev closings : Closings
closings = record { engine_dispose = ok tt; redis_aclose = ok tt }

on_shutdown_releases_example :
    let (answer, p') =
      on_shutdown server_groups server_streams no_json closings (λ s. s) (λ s. s) busy_worker in
    let r = its_end server_groups server_streams no_json (λ s. s) task waiting_server in
    (answer ≡ some r) × (p'.engine_open ≡ has_raised r) × (p'.redis_open ≡ has_raised r)
on_shutdown_releases_example =
    on_shutdown_releases server_groups server_streams no_json closings refl refl (λ s. s) (λ s. s)
      busy_worker task refl refl refl

both_stay_open :
    its_end server_groups server_streams no_json (λ s. s) task waiting_server
    ≡ err (value_error (codes "no JSON"))
unfolding turn handle_entries handle_entry worker_consumer dict_get codes text_eq put fields_of
    message_of body_type
both_stay_open = refl
