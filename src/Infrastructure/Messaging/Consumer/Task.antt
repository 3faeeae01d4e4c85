-- ===== src/Infrastructure/Messaging/Consumer/Task.antt =====
-- When the consumer's task ends.
use ndma_edit.Prelude.{Text, List, [], ◌∷◌, ◌++◌, Bool, true, ◌||◌, ◌≡◌, refl, arith, ap, some, ◌∙◌}
use ndma_edit.Outcome.{Outcome, ok}
use ndma_edit.Infrastructure.Messaging.{JsonObject, Streams}
use ndma_edit.Infrastructure.Messaging.Consumer.{
  Consumer, Groups, Turn, TaskState, running, over, no_task, awaited, turn, run, if_running,
  flagged, loop_body,
}

-- What the other clients do, and nothing else.
unfoldable pub only_others : {S : Type 0} → List (Turn S) → S → S
only_others [] s = s
only_others (w ∷ ws) s = only_others ws (w.meanwhile s)

-- How a task ends that is stopped.
abbrev pub ended : TaskState → Outcome (Unit {0})
ended no_task = ok tt
ended running = ok tt
ended (over r) = r

module _ {S : Type 0} (groups : Groups S) (streams : Streams S)
    (loads : Text → Outcome JsonObject) where
  run-append :
      (vs ws : List (Turn S)) (c : Consumer S) (s : S)
      → run groups streams loads (vs ++ ws) c s
        ≡ (let (c', s') = run groups streams loads vs c s in run groups streams loads ws c' s')
  unfolding run
  run-append [] ws c s = refl
  run-append (v ∷ vs) ws c s =
      run-append vs ws (turn groups streams loads v c s).0 (turn groups streams loads v c s).1

  -- The consumer behind a turn in which nothing ran.
  abbrev called : Turn S → Consumer S → Consumer S
  called w c = record c { stopping = c.stopping || w.stop_called }

  turn_as :
      (w : Turn S) (c : Consumer S) (s : S) (t : TaskState)
      → c.task ≡ t
      → turn groups streams loads w c s
        ≡ flagged groups streams loads w (if_running groups streams loads t c (w.meanwhile s))
  unfolding turn
  turn_as w c s t e =
      ap (λ u. flagged groups streams loads w (if_running groups streams loads u c (w.meanwhile s)))
        e

  run_as :
      (w : Turn S) (ws : List (Turn S)) (c : Consumer S) (s : S) (x : Consumer S × S)
      → turn groups streams loads w c s ≡ x
      → run groups streams loads (w ∷ ws) c s ≡ run groups streams loads ws x.0 x.1
  unfolding run
  run_as w ws c s x e = ap (λ (y : Consumer S × S). run groups streams loads ws y.0 y.1) e

  -- A task that is over stays so.
  run-over :
      (ws : List (Turn S)) (c : Consumer S) (r : Outcome (Unit {0})) (s : S)
      → c.task ≡ over r
      → ((run groups streams loads ws c s).0.task ≡ over r)
        × ((run groups streams loads ws c s).1 ≡ only_others ws s)
  unfolding only_others
  run-over [] c r s e = unfold run in (e, refl)
  run-over (w ∷ ws) c r s e =
      rw (run_as w ws c s _ (turn_as w c s (over r) e))
        (run-over ws (called w c) r (w.meanwhile s) e)

  run-no_task :
      (ws : List (Turn S)) (c : Consumer S) (s : S)
      → c.task ≡ no_task
      → ((run groups streams loads ws c s).0.task ≡ no_task)
        × ((run groups streams loads ws c s).1 ≡ only_others ws s)
  unfolding only_others
  run-no_task [] c s e = unfold run in (e, refl)
  run-no_task (w ∷ ws) c s e =
      rw (run_as w ws c s _ (turn_as w c s no_task e))
        (run-no_task ws (called w c) (w.meanwhile s) e)

  loop_stops :
      (b : Bool) (c : Consumer S) (s : S)
      → b ≡ true
      → loop_body groups streams loads b c s ≡ (record c { task = over (ok tt) }, s)
  loop_stops b c s e = ap (λ b'. loop_body groups streams loads b' c s) e

  -- With the flag set, the next test of it ends the task.
  stopped_from :
      (w : Turn S) (ws : List (Turn S)) (c : Consumer S) (s : S) (t : TaskState)
      → c.task ≡ t
      → c.stopping ≡ true
      → (awaited (run groups streams loads (w ∷ ws) c s).0.task ≡ some (ended t))
        × ((run groups streams loads (w ∷ ws) c s).1 ≡ only_others (w ∷ ws) s)
  unfolding only_others
  stopped_from w ws c s no_task e stop =
      rw (run_as w ws c s _ (turn_as w c s no_task e))
        (let (t, out) = run-no_task ws (called w c) (w.meanwhile s) e in (ap awaited t, out))
  stopped_from w ws c s running e stop =
      rw
        (run_as w ws c s _ (
          turn_as w c s running e
          ∙ ap (flagged groups streams loads w) (loop_stops c.stopping c (w.meanwhile s) stop)))
        (let (t, out) = run-over ws _ (ok tt) (w.meanwhile s) refl in (ap awaited t, out))
  stopped_from w ws c s (over r) e stop =
      rw (run_as w ws c s _ (turn_as w c s (over r) e))
        (let (t, out) = run-over ws (called w c) r (w.meanwhile s) e in (ap awaited t, out))

  -- A turn in which `stop` is called leaves the flag set.
  turn-stopping :
      (w : Turn S) (c : Consumer S) (s : S)
      → w.stop_called ≡ true
      → (turn groups streams loads w c s).0.stopping ≡ true
  unfolding turn
  turn-stopping w c s stop = flag _ stop
    where
      flag : (b : Bool) → w.stop_called ≡ true → (b || w.stop_called) ≡ true
      flag b h = ground arith

  run-stopping :
      (before : List (Turn S)) (w : Turn S) (c : Consumer S) (s : S)
      → w.stop_called ≡ true
      → (run groups streams loads (before ++ w ∷ []) c s).0.stopping ≡ true
  run-stopping before w c s stop = rw (run-append before (w ∷ []) c s) (
      let x = run groups streams loads before c s in
      rw (run_as w [] x.0 x.1 _ refl) (unfold run in turn-stopping w x.0 x.1 stop))

  -- `stop` returns. It is called while a turn of the task is under way; that turn goes on to its end,
  -- so the entries that it reads are handled. At the next test of the flag the task is over. It ends
  -- normally, unless an exception of that turn or an earlier one has ended it; and behind that turn no
  -- entry is read or handled: the streams change only by what other clients do.
  pub stop_returns :
      (before : List (Turn S)) (w next : Turn S) (after : List (Turn S)) (c : Consumer S) (s : S)
      → w.stop_called ≡ true
      → let turns = before ++ w ∷ [] in
        let (c1, s1) = run groups streams loads turns c s in
        let (c2, s2) = run groups streams loads (turns ++ next ∷ after) c s in
        (awaited c2.task ≡ some (ended c1.task)) × (s2 ≡ only_others (next ∷ after) s1)
  stop_returns before w next after c s stop =
      rw (run-append (before ++ w ∷ []) (next ∷ after) c s) (
        let x = run groups streams loads (before ++ w ∷ []) c s in
        stopped_from next after x.0 x.1 _ refl (run-stopping before w c s stop))
