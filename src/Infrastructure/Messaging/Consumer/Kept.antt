-- ===== src/Infrastructure/Messaging/Consumer/Kept.antt =====
-- The invariant rule for the consumer's task: what its parts keep, any run of it keeps.
use ndma_edit.Prelude.{Text, List, [], ◌∷◌, Bool, true, false, All, ◌≡◌}
use ndma_edit.Prelude.Dict.{dict_get}
use ndma_edit.Outcome.{Outcome, ok, err}
use ndma_edit.Infrastructure.Messaging.{
  Received, Fields, JsonObject, Streams, MessageHandler, handle_entries,
}
use ndma_edit.Infrastructure.Messaging.Consumer.{
  Consumer, Groups, Turn, TaskState, running, over, no_task, turn, run, if_running, loop_body,
  after_read, handled, streams_to_read,
}

module _ {S : Type 0} (groups : Groups S) (streams : Streams S) (loads : Text → Outcome JsonObject)
    (group consumer_name : Text) (handlers : List (Text × MessageHandler S)) (P : S → Type 0) where
  -- A consumer of this group, with these handlers.
  abbrev pub IsOurs : Consumer S → Type 0
  IsOurs c = (c.group ≡ group) × (c.consumer_name ≡ consumer_name) × (c.handlers ≡ handlers)

  abbrev pub Keeps : (S → S) → Type 0
  Keeps f = (s : S) → P s → P (f s)

  abbrev pub Kept : Consumer S × S → Type 0
  Kept x = IsOurs x.0 × P x.1

  handled-Kept :
      (c : Consumer S) (r : Outcome (Unit {0}) × S)
      → IsOurs c
      → P r.1
      → Kept (handled groups streams loads c r)
  handled-Kept c (ok _, s) ours h = (ours, h)
  handled-Kept c (err e, s) ours h = (ours, h)

  module _ (reads : Keeps (λ s. (groups.xreadgroup group consumer_name streams_to_read s).1))
      (handles : (entries : List (Received × Text × Fields))
        → Keeps (λ s.
          (handle_entries streams group consumer_name loads
            (λ t. dict_get t handlers)
            entries
            s).1)) where
    after_read-Kept :
        (c : Consumer S) (r : Outcome (List (Received × Text × Fields)) × S)
        → IsOurs c
        → P r.1
        → Kept (after_read groups streams loads c r)
    after_read-Kept c (ok entries, s) (e1, e2, e3) h =
        handled-Kept c _ (e1, e2, e3) (rw (e1, e2, e3) (handles entries s h))
    after_read-Kept c (err e, s) ours h = (ours, h)

    loop-Kept :
        (b : Bool) (c : Consumer S) (s : S)
        → IsOurs c
        → P s
        → Kept (loop_body groups streams loads b c s)
    loop-Kept true c s ours h = (ours, h)
    loop-Kept false c s (e1, e2, e3) h = after_read-Kept c _ (e1, e2, e3) (rw (e1, e2) (reads s h))

    if_running-Kept :
        (t : TaskState) (c : Consumer S) (s : S)
        → IsOurs c
        → P s
        → Kept (if_running groups streams loads t c s)
    if_running-Kept no_task c s ours h = (ours, h)
    if_running-Kept running c s ours h = loop-Kept c.stopping c s ours h
    if_running-Kept (over r) c s ours h = (ours, h)

    -- What the reads, the handling of entries and the other clients keep, every run keeps.
    pub run-Kept :
        (ws : List (Turn S)) (c : Consumer S) (s : S)
        → All (λ w. Keeps w.meanwhile) ws
        → IsOurs c
        → P s
        → Kept (run groups streams loads ws c s)
    unfolding run turn
    run-Kept [] c s others ours h = (ours, h)
    run-Kept (w ∷ ws) c s others ours h =
        let (ours', h') = if_running-Kept c.task c (w.meanwhile s) ours (others.0 s h) in
        run-Kept ws _ _ others.1 ours' h'
