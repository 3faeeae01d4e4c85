-- ===== src/Infrastructure/Worker.antt =====
-- backend/src/app/infrastructure/background_jobs: the worker process and the job queue. `ctx` is what
-- `on_startup` puts there; an engine or a client is open until it is disposed of.
pub mod Shutdown
pub mod Schedule
use ndma_edit.Prelude.{
  ℕ, zero, suc, ◌+◌, Text, List, [], ◌∷◌, Bool, true, false, Option, none, some, codes, ◌==◌,
  is_empty, if◌then◌else◌,
}
use ndma_edit.Outcome.{Outcome, Error, ok, err, key_error, ◌and_then◌}
use ndma_edit.Runtime.{Runtime}
use ndma_edit.Infrastructure.Settings.{Settings}
use ndma_edit.Infrastructure.Persistence.Models.{OutboxModel}
use ndma_edit.Infrastructure.Persistence.Relay.{Round, relay_once}
use ndma_edit.Application.Users.Integration.{NotificationSender}
use ndma_edit.Infrastructure.Messaging.{JsonObject, Streams}
use ndma_edit.Infrastructure.Messaging.Consumer.{
  Consumer, Groups, Turn, TaskState, awaited, start, turn, run,
}
use ndma_edit.Infrastructure.Messaging.Welcome.{worker_consumer}

-- `OutboxRelay(publisher=..., batch_size=..., max_attempts=...)`
pub record OutboxRelay : Type 0 where
  pub batch_size : ℕ
  pub max_attempts : ℕ

pub record Worker (S : Type 0) : Type 0 where
  -- `ctx["outbox_relay"]` and `ctx["consumer"]`
  pub outbox_relay : Option OutboxRelay
  pub consumer : Option (Consumer S)
  -- whether `ctx["engine"]` and `ctx["redis_client"]` are open
  pub engine_open : Bool
  pub redis_open : Bool
  -- what the Redis server holds
  pub streams : S

-- What `engine.dispose` and `redis_client.aclose` do: they return or raise.
pub record Closings : Type 0 where
  pub engine_dispose : Outcome (Unit {0})
  pub redis_aclose : Outcome (Unit {0})

-- The worker before `on_startup`.
abbrev pub new_worker : {S : Type 0} → S → Worker S
new_worker s = record {
  outbox_relay = none;
  consumer = none;
  engine_open = false;
  redis_open = false;
  streams = s;
}

-- `ctx["outbox_relay"]`
abbrev pub relay_of : Option OutboxRelay → Outcome OutboxRelay
relay_of none = err (key_error (codes "session_factory"))
relay_of (some relay) = ok relay

abbrev run_relay :
    Runtime → Outcome OutboxRelay → Round → List OutboxModel → Outcome ℕ × List OutboxModel
run_relay rt (ok relay) w outbox = relay_once rt relay.batch_size relay.max_attempts w outbox
run_relay rt (err e) w outbox = (err e, outbox)

-- `relay_outbox`
unfoldable pub relay_outbox :
    {S : Type 0} → Runtime → Worker S → Round → List OutboxModel → Outcome ℕ × List OutboxModel
relay_outbox rt p w outbox = run_relay rt (relay_of p.outbox_relay) w outbox

module _ {S : Type 0} (groups : Groups S) where
  abbrev with_consumer : Worker S → Outcome (Consumer S) × S → Outcome (Unit {0}) × Worker S
  with_consumer p (ok c, s) = (ok tt, record p { consumer = some c; streams = s })
  with_consumer p (err e, s) = (err e, record p { streams = s })

  -- `on_startup`; its Redis client is built without `decode_responses`, so what `groups` returns are
  -- bytes.
  unfoldable pub on_startup :
      NotificationSender S → Settings → Worker S → Outcome (Unit {0}) × Worker S
  on_startup sender settings p =
      with_consumer
        (record p {
          engine_open = true;
          redis_open = true;
          outbox_relay = some (record {
            batch_size = settings.outbox_relay_batch_size;
            max_attempts = settings.outbox_max_attempts;
          });
        })
        (start groups (worker_consumer sender) p.streams)

  module _ (streams : Streams S) (loads : Text → Outcome JsonObject) where
    abbrev keep_consumer : Worker S → Consumer S × S → Worker S
    keep_consumer p (c, s) = record p { consumer = some c; streams = s }

    abbrev run_consumer : Option (Consumer S) → List (Turn S) → Worker S → Worker S
    run_consumer none ws p = p
    run_consumer (some c) ws p = keep_consumer p (run groups streams loads ws c p.streams)

    -- The consumer's task goes on.
    unfoldable pub go_on : List (Turn S) → Worker S → Worker S
    go_on ws p = run_consumer p.consumer ws p

    abbrev closed_redis : Outcome (Unit {0}) → Worker S → Option (Outcome (Unit {0})) × Worker S
    closed_redis (ok _) p = (some (ok tt), record p { redis_open = false })
    closed_redis (err e) p = (some (err e), p)

    abbrev closed_engine :
        Closings → Outcome (Unit {0}) → Worker S → Option (Outcome (Unit {0})) × Worker S
    closed_engine closings (ok _) p =
        closed_redis closings.redis_aclose (record p { engine_open = false })
    closed_engine closings (err e) p = (some (err e), p)

    -- Behind `await ctx["consumer"].stop()`.
    abbrev pub dispose :
        Closings → Option (Outcome (Unit {0})) → Worker S → Option (Outcome (Unit {0})) × Worker S
    dispose closings none p = (none, p)
    dispose closings (some (ok _)) p = closed_engine closings closings.engine_dispose p
    dispose closings (some (err e)) p = (some (err e), p)

    -- The turn in which `stop` is called, and the next one.
    abbrev pub last_turns : (S → S) → (S → S) → List (Turn S)
    last_turns before behind =
        record { stop_called = true; meanwhile = before }
        ∷ record { stop_called = false; meanwhile = behind }
        ∷ []

    abbrev pub stop_and_dispose :
        Closings
        → (S → S)
        → (S → S)
        → Option (Consumer S)
        → Worker S
        → Option (Outcome (Unit {0})) × Worker S
    stop_and_dispose closings before behind none p = (some (err (key_error (codes "consumer"))), p)
    stop_and_dispose closings before behind (some c) p =
        let x = run groups streams loads (last_turns before behind) c p.streams in
        dispose closings (awaited x.0.task) (record p { consumer = some x.0; streams = x.1 })

    -- `on_shutdown`, called while a turn of the consumer's task is under way, with what other clients
    -- do before that turn and behind it. The result is `none` if `stop` does not return.
    unfoldable pub on_shutdown :
        Closings → (S → S) → (S → S) → Worker S → Option (Outcome (Unit {0})) × Worker S
    on_shutdown closings before behind p = stop_and_dispose closings before behind p.consumer p

-- `range(start, start + 2 * n, 2)`
unfoldable pub every_second : ℕ → ℕ → List ℕ
every_second zero start = []
every_second (suc n) start = start ∷ every_second n (start + 2)

-- `second=set(range(0, 60, 2))` of `WorkerSettings.cron_jobs`
abbrev pub cron_seconds : List ℕ
cron_seconds = every_second 30 0

-- `enqueue_job` of arq: the id of the new job, or `none` where a job of that id is there.
abbrev pub EnqueueJob : Type 0 → Type 0
EnqueueJob Q = Text → Option Text → Q → Option Text × Q

-- `job_id or job_name`
abbrev pub id_or : Text → Option Text → Text
id_or job_name none = job_name
id_or job_name (some job_id) = if is_empty job_id then job_name else job_id

abbrev pub job_or : Text → Option Text → Text
job_or asked none = asked
job_or asked (some job_id) = job_id

-- `ArqJobQueue.enqueue`
unfoldable pub enqueue : {Q : Type 0} → EnqueueJob Q → Text → Option Text → Q → Text × Q
enqueue enqueue_job job_name job_id q =
    let (job, q') = enqueue_job job_name job_id q in (job_or (id_or job_name job_id) job, q')
