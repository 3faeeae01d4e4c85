-- ===== src/Infrastructure/Persistence/Relay/Work.antt =====
-- How much work a round of the relay does: the attempts that the rows of the outbox may still get.
use ndma_edit.Prelude.{
  ℕ, suc, ◌+◌, ◌-◌, ◌≤◌, Text, List, [], ◌∷◌, true, false, Option, none, some, ◌==◌, ==_iff,
  ==_refl, change, length, All, ◌≡◌, refl, sym, ap, ◌∙◌, arith, Bool-cases, inl, inr, if◌then◌else◌,
}
use ndma_edit.Runtime.{Runtime}
use ndma_edit.Domain.Aggregate.{Time}
use ndma_edit.Infrastructure.Persistence.Models.{OutboxModel}
use ndma_edit.Infrastructure.Persistence.Relay.{
  is_due, is_waiting, process_row, message_of, Round, process_rows, store_rows,
}
use ndma_edit.Infrastructure.Persistence.Relay.Ids.{
  HasUniqueIds, Differs, IsIn, store_row, store_row-IsIn, store_row-HasUniqueIds,
}

module _ (max_attempts : ℕ) where
  -- The attempts that a row may still get.
  unfoldable pub attempts_left : OutboxModel → ℕ
  attempts_left r = if is_waiting r.status then max_attempts - r.attempt_count else 0

  abbrev pub work : List OutboxModel → ℕ
  work [] = 0
  work (r ∷ rs) = attempts_left r + work rs

  attempt_used :
      (answer : Option Text) (now later : Time) (r : OutboxModel)
      → is_due max_attempts now r ≡ true
      → suc (attempts_left (process_row answer later r)) ≤ attempts_left r
  unfolding attempts_left process_row is_due
  attempt_used none now later r due = ground arith
  attempt_used (some e) now later r due = ground arith

  work-store_absent :
      (r r' : OutboxModel) (rs : List OutboxModel)
      → r'.id ≡ r.id
      → All (Differs r) rs
      → store_row r' rs ≡ rs
  unfolding change
  work-store_absent r r' [] e h = refl
  work-store_absent r r' (q ∷ rs) e h = elim (Bool-cases (q.id == r'.id)) [
    | inl hit ↦ absurd (h.0 ((==_iff q.id r'.id).0 hit ∙ e))
    | inr miss ↦ rw (miss, work-store_absent r r' rs e h.1) refl
  ]

  work-head_hit :
      (r' q : OutboxModel) (rs : List OutboxModel)
      → (q.id == r'.id) ≡ true
      → work (store_row r' (q ∷ rs)) ≡ attempts_left r' + work (store_row r' rs)
  unfolding change
  work-head_hit r' q rs hit = rw hit refl

  work-head_miss :
      (r' q : OutboxModel) (rs : List OutboxModel)
      → (q.id == r'.id) ≡ false
      → work (store_row r' (q ∷ rs)) ≡ attempts_left q + work (store_row r' rs)
  unfolding change
  work-head_miss r' q rs miss = rw miss refl

  Differs-miss :
      (r r' q : OutboxModel) (rs : List OutboxModel)
      → r'.id ≡ r.id
      → All (Differs q) rs
      → IsIn r rs
      → (q.id == r'.id) ≡ false
  Differs-miss r r' q [] e u h = elim h [ ]
  Differs-miss r r' q (x ∷ rs) e u (inl here) = elim (Bool-cases (q.id == r'.id)) [
    | inl hit ↦
        absurd (u.0 (ap (λ (y : OutboxModel). y.id) here ∙ sym ((==_iff q.id r'.id).0 hit ∙ e)))
    | inr miss ↦ miss
  ]
  Differs-miss r r' q (x ∷ rs) e u (inr later) = Differs-miss r r' q rs e u.1 later

  -- Storing a row that was processed changes the work by that row's.
  work-store_row :
      (r r' : OutboxModel) (rs : List OutboxModel)
      → r'.id ≡ r.id
      → HasUniqueIds rs
      → IsIn r rs
      → work (store_row r' rs) + attempts_left r ≡ work rs + attempts_left r'
  work-store_row r r' [] e u h = elim h [ ]
  work-store_row r r' (q ∷ rs) e u (inl here) =
      let hit : (q.id == r'.id) ≡ true = rw (here, e) (==_refl r.id) in
      let same : All (Differs r) rs = rw here at u.0 in
      let rest = work-store_absent r r' rs e same in
      omega (arith, work-head_hit r' q rs hit, ap work rest, ap attempts_left here)
  work-store_row r r' (q ∷ rs) e u (inr later) =
      let rest = work-store_row r r' rs e u.1 later in
      let miss = Differs-miss r r' q rs e u.0 later in
      omega (arith, work-head_miss r' q rs miss, rest)

  process_row-id :
      (answer : Option Text) (later : Time) (r : OutboxModel)
      → (process_row answer later r).id ≡ r.id
  unfolding process_row
  process_row-id none later r = refl
  process_row-id (some e) later r = refl

  still-IsIn :
      (r r' : OutboxModel) (rs outbox : List OutboxModel)
      → r'.id ≡ r.id
      → All (Differs r) rs
      → All (λ k. IsIn k outbox) rs
      → All (λ k. IsIn k (store_row r' outbox)) rs
  still-IsIn r r' [] outbox e d h = tt
  still-IsIn r r' (k ∷ rs) outbox e d h =
      (store_row-IsIn k r' outbox (λ same. d.0 (same ∙ e)) h.0, still-IsIn r r' rs outbox e d.1 h.1)

  -- Each row that a round takes uses up an attempt.
  pub work-store_rows :
      (rt : Runtime) (w : Round) (i : ℕ) (rs outbox : List OutboxModel)
      → All (λ r. is_due max_attempts w.now r ≡ true) rs
      → HasUniqueIds rs
      → HasUniqueIds outbox
      → All (λ k. IsIn k outbox) rs
      → work (store_rows (process_rows rt w i rs) outbox) + length rs ≤ work outbox
  unfolding store_rows process_rows
  work-store_rows rt w i [] outbox due u v h = omega arith
  work-store_rows rt w i (r ∷ rs) outbox due u v h =
      let answer = w.answer i (message_of rt r) in
      let r' = process_row answer (w.now_at i) r in
      let e = process_row-id answer (w.now_at i) r in
      let used = attempt_used answer w.now (w.now_at i) r due.0 in
      let one = work-store_row r r' outbox e v h.0 in
      let rest =
        work-store_rows rt w (i + 1) rs (store_row r' outbox) due.1 u.1
          (store_row-HasUniqueIds r' outbox v) (still-IsIn r r' rs outbox e u.0 h.1) in
      omega (arith, used, one, rest)
