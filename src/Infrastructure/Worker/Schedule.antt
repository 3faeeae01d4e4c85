-- ===== src/Infrastructure/Worker/Schedule.antt =====
-- When the cron job of the worker runs, and what an enqueuing returns.
use ndma_edit.Prelude.{
  ℕ, zero, suc, ◌<◌, Text, List, [], ◌∷◌, Bool, false, not, ◌||◌, none, some, ◌==◌, ◌≡◌, ◌⊎◌, inl,
  inr, refl, ap, ◌∙◌, arith, is_empty,
}
use Prim.Native.Nat.{◌%◌, ◌+◌, ◌*◌}
use ndma_edit.Infrastructure.Worker.{every_second, cron_seconds, EnqueueJob, enqueue}

unfoldable pub among : ℕ → List ℕ → Bool
among n [] = false
among n (m ∷ ms) = n == m || among n ms

-- Whether the relay runs in a second, counted from some full minute.
unfoldable pub is_tick : ℕ → Bool
unfolding among every_second
is_tick s = among (s % 60) cron_seconds

-- A number before the start is not among them.
early : (n start x : ℕ) → x < start → among x (every_second n start) ≡ false
unfolding among every_second
early zero start x h = refl
early (suc n) start x h = ground (arith, early n (start + 2) x (omega arith))

-- Among the numbers from `start` on, every second one is one of them.
alternate : (n start d : ℕ) → d < 2 * n → among (start + d) (every_second n start) ≡ (d % 2 == 0)
unfolding among every_second
alternate zero start d h = absurd (omega arith)
alternate (suc n) start zero h = ground arith
alternate (suc n) start (suc zero) h = ground (arith, early n (start + 2) (start + 1) (omega arith))
alternate (suc n) start (suc (suc d)) h =
    ground (arith, shifted, alternate n (start + 2) d (omega arith))
  where
    shifted : start + suc (suc d) ≡ start + 2 + d
    shifted = omega arith

-- The relay runs in the even seconds.
is_tick-even : (s : ℕ) → is_tick s ≡ (s % 2 == 0)
unfolding is_tick
is_tick-even s =
    ap (λ (n : ℕ). among n (every_second 30 0)) from_zero
    ∙ alternate 30 0 (s % 60) (omega arith)
    ∙ ap (λ (n : ℕ). n == 0) (omega arith)
  where
    from_zero : s % 60 ≡ 0 + s % 60
    from_zero = omega arith

-- Of any two seconds in a row the relay runs in exactly one.
pub is_tick-suc : (s : ℕ) → is_tick (suc s) ≡ not (is_tick s)
is_tick-suc s = rw (is_tick-even s, is_tick-even (suc s)) (ground arith)

-- An enqueuing under an id that is not empty returns that id, whether the job is new or one of that id
-- is still there, if the queue gives a new job the id that was asked for.
pub enqueue-id :
    {Q : Type 0} (enqueue_job : EnqueueJob Q) (job_name job_id : Text) (q : Q)
    → is_empty job_id ≡ false
    → ((enqueue_job job_name (some job_id) q).0 ≡ none)
      ⊎ ((enqueue_job job_name (some job_id) q).0 ≡ some job_id)
    → (enqueue enqueue_job job_name (some job_id) q).0 ≡ job_id
unfolding enqueue
enqueue-id enqueue_job job_name job_id q some_id (inl there) = rw (there, some_id) refl
enqueue-id enqueue_job job_name job_id q some_id (inr new) = rw new refl
