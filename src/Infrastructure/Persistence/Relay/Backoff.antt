-- ===== src/Infrastructure/Persistence/Relay/Backoff.antt =====
-- When a row is due again.
use ndma_edit.Prelude.{
  ℕ, suc, ◌+◌, ◌*◌, ◌^◌, ◌≤◌, min, Text, false, ◌&&◌, Option, none, some, leb, ltb, ◌≡◌, refl,
  arith, ◌⊎◌, inl, inr,
}
use native.Mathlib.Nat.{pow-suc, pow-le-pow_right}
use ndma_edit.Domain.Aggregate.{Time}
use ndma_edit.Infrastructure.Persistence.Models.{OutboxModel}
use ndma_edit.Infrastructure.Persistence.Relay.{is_due, backoff_seconds, seconds, process_row}

power-le : (n : ℕ) → n ≤ 7 → 2 ^ n ≤ 128
power-le n h = pow-le-pow_right (omega arith) h

le_or_above : (n : ℕ) → (n ≤ 7) ⊎ (8 ≤ n)
le_or_above n = omega arith

min_below : (n : ℕ) → n ≤ 8 → min n 8 ≡ n
min_below n h = omega arith

min_above : (n : ℕ) → 8 ≤ n → min n 8 ≡ 8
min_above n h = omega arith

-- The wait starts at 5 seconds and doubles with each attempt until it reaches 1280 seconds.
pub backoff_doubles :
    (backoff_seconds 0 ≡ 5) × ((n : ℕ) → backoff_seconds (suc n) ≡ min (2 * backoff_seconds n) 1280)
unfolding backoff_seconds
backoff_doubles = (
  refl,
  λ n. elim (le_or_above n) [
    | inl low ↦
        rw (min_below (suc n) (omega arith), min_below n (omega arith), pow-suc)
          (omega (arith, power-le n low))
    | inr high ↦ rw (min_above (suc n) (omega arith), min_above n high)
  ],
)

-- Once processed, a row whose message was accepted is never due again; one whose message was refused
-- is due again exactly from the end of its wait on, and only while attempts remain.
pub process_row-due :
    (max_attempts : ℕ) (answer : Option Text) (now later : Time) (r : OutboxModel)
    → is_due max_attempts later (process_row answer now r) ≡ elim answer [
      | none ↦ false
      | some _ ↦
          leb (now + seconds (backoff_seconds (r.attempt_count + 1))) later
          && ltb (r.attempt_count + 1) max_attempts
    ]
unfolding is_due process_row
process_row-due m none now later r = refl
process_row-due m (some e) now later r = refl
