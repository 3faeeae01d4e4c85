-- ===== src/Infrastructure/Worker/Shutdown.antt =====
-- What the worker leaves open.
use ndma_edit.Prelude.{Text, [], Bool, true, false, Option, some, ◌≡◌, refl, ap}
use ndma_edit.Outcome.{Outcome, ok, err}
use ndma_edit.Infrastructure.Messaging.{JsonObject, Streams}
use ndma_edit.Infrastructure.Messaging.Consumer.{Consumer, Groups, awaited, turn, run}
use ndma_edit.Infrastructure.Messaging.Consumer.Task.{ended, stop_returns}
use ndma_edit.Infrastructure.Worker.{
  Worker, Closings, on_shutdown, stop_and_dispose, dispose, last_turns,
}

abbrev pub has_raised : Outcome (Unit {0}) → Bool
has_raised (ok _) = false
has_raised (err e) = true

module _ {S : Type 0} (groups : Groups S) (streams : Streams S)
    (loads : Text → Outcome JsonObject) where
  -- How the consumer's task ends that is in a turn when the shutdown comes: as that turn leaves it.
  abbrev pub its_end : (S → S) → Consumer S → S → Outcome (Unit {0})
  its_end before c s =
      ended
        (turn groups streams loads (record { stop_called = true; meanwhile = before }) c s).0.task

  last_turns-ended :
      (before behind : S → S) (c : Consumer S) (s : S)
      → awaited
          (run groups streams loads (last_turns groups streams loads before behind) c s).0.task
        ≡ some (its_end before c s)
  unfolding run
  last_turns-ended before behind c s =
      (stop_returns groups streams loads [] (record { stop_called = true; meanwhile = before })
        (record { stop_called = false; meanwhile = behind }) [] c s refl).0

module _ {S : Type 0} (groups : Groups S) (streams : Streams S) (loads : Text → Outcome JsonObject)
    (closings : Closings) (engine_closes : closings.engine_dispose ≡ ok tt)
    (redis_closes : closings.redis_aclose ≡ ok tt) where
  dispose-ended :
      (o : Option (Outcome (Unit {0}))) (r : Outcome (Unit {0})) (p : Worker S)
      → o ≡ some r
      → p.engine_open ≡ true
      → p.redis_open ≡ true
      → let (answer, p') = dispose groups streams loads closings o p in
        (answer ≡ some r) × (p'.engine_open ≡ has_raised r) × (p'.redis_open ≡ has_raised r)
  dispose-ended o (ok _) p e engine redis = rw (e, engine_closes, redis_closes) (refl, refl, refl)
  dispose-ended o (err x) p e engine redis = rw e (refl, engine, redis)

  -- The shutdown of a worker that has a consumer always comes to an end, if the engine and the Redis
  -- client can be closed. The turn of the consumer's task that is under way goes on to its end. If the
  -- task is well behind it, then the shutdown disposes of the engine and closes the client; if an
  -- exception of that turn or an earlier one has ended the task, then the shutdown raises that
  -- exception and leaves both open.
  pub on_shutdown_releases :
      (before behind : S → S) (p : Worker S) (c : Consumer S)
      → p.consumer ≡ some c
      → p.engine_open ≡ true
      → p.redis_open ≡ true
      → let (answer, p') = on_shutdown groups streams loads closings before behind p in
        let r = its_end groups streams loads before c p.streams in
        (answer ≡ some r) × (p'.engine_open ≡ has_raised r) × (p'.redis_open ≡ has_raised r)
  unfolding on_shutdown
  on_shutdown_releases before behind p c has engine redis =
      rw (ap (λ o. stop_and_dispose groups streams loads closings before behind o p) has) (
        dispose-ended _ (its_end groups streams loads before c p.streams) _
          (last_turns-ended groups streams loads before behind c p.streams) engine redis)
