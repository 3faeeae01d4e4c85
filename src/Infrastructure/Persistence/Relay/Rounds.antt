-- ===== src/Infrastructure/Persistence/Relay/Rounds.antt =====
-- What holds of the outbox after any number of rounds of the relay, whatever the broker, the clock,
-- the other workers and the database do.
use ndma_edit.Prelude.{
  ℕ, ◌+◌, ◌≤◌, Text, List, [], ◌∷◌, Bool, true, false, not, Option, none, some, ◌==◌, keep, change,
  length, length-take, All, All-keep_of, All-take, ◌≡◌, arith, Bool-cases, inl, inr, ◌⊎◌,
}
use ndma_edit.Outcome.{ok}
use ndma_edit.Runtime.{Runtime}
use ndma_edit.Domain.Aggregate.{Time}
use ndma_edit.Application.Ports.{OutboundMessage}
use ndma_edit.Infrastructure.Persistence.Models.{OutboxModel}
use ndma_edit.Infrastructure.Persistence.Database.{insert_ordered, order_by}
use ndma_edit.Infrastructure.Persistence.Relay.{
  is_due, is_waiting, process_row, older, Round, batch, process_rows, store_rows, relay_once,
}

module _ {A : Type 0} (P : A → Type 0) where
  -- The members that pass a test have the property, if it follows from the test.
  All-keep_with :
      {Q : A → Type 0} (p : A → Bool) (xs : List A)
      → ((x : A) → Q x → p x ≡ true → P x)
      → All Q xs
      → All P (keep p xs)
  unfolding keep
  All-keep_with p [] f h = tt
  All-keep_with p (x ∷ xs) f h = elim (Bool-cases (p x)) [
    | inl kept ↦ rw kept (f x h.0 kept, All-keep_with p xs f h.1)
    | inr left ↦ rw left (All-keep_with p xs f h.1)
  ]

  pub All-change :
      (p : A → Bool) (x : A) (xs : List A) → P x → All P xs → All P (change p (λ _. x) xs)
  unfolding change
  All-change p y [] k h = tt
  All-change p y (x ∷ xs) k h = elim (Bool-cases (p x)) [
    | inl hit ↦ rw hit (k, All-change p y xs k h.1)
    | inr miss ↦ rw miss (h.0, All-change p y xs k h.1)
  ]

  pub All-insert :
      (le : A → A → Bool) (x : A) (xs : List A) → P x → All P xs → All P (insert_ordered le x xs)
  unfolding insert_ordered
  All-insert le x [] k h = (k, tt)
  All-insert le x (y ∷ ys) k h = elim (Bool-cases (le x y)) [
    | inl first ↦ rw first (k, h)
    | inr behind ↦ rw behind (h.0, All-insert le x ys k h.1)
  ]

  pub All-order : (le : A → A → Bool) (xs : List A) → All P xs → All P (order_by le xs)
  unfolding order_by
  All-order le [] h = tt
  All-order le (x ∷ xs) h = All-insert le x (order_by le xs) h.0 (All-order le xs h.1)

-- Every answer of the broker in a round is of a kind.
abbrev pub Answers : (Option Text → Type 0) → Round → Type 0
Answers Q w = (i : ℕ) (m : OutboundMessage) → Q (w.answer i m)

module _ (P : OutboxModel → Type 0) where
  All-store :
      (rs outbox : List OutboxModel) → All P rs → All P outbox → All P (store_rows rs outbox)
  unfolding store_rows
  All-store [] outbox k h = h
  All-store (r ∷ rs) outbox k h =
      All-store rs (change (λ q. q.id == r.id) (λ _. r) outbox) k.1 (All-change P _ r outbox k.0 h)

  module _ (batch_size max_attempts : ℕ) where
    -- A row that was due, with the property.
    abbrev pub IsDueRow : Time → OutboxModel → Type 0
    IsDueRow now r = P r × (is_due max_attempts now r ≡ true)

    pub All-batch :
        (w : Round) (outbox : List OutboxModel)
        → All P outbox
        → All (IsDueRow w.now) (batch batch_size max_attempts w outbox)
    unfolding batch
    All-batch w outbox h = All-take (IsDueRow w.now) batch_size _ (
        All-keep_of (IsDueRow w.now) (λ r. not (w.is_locked r)) _
          (All-order (IsDueRow w.now) older _ (
            All-keep_with (IsDueRow w.now) {Q = P} (is_due max_attempts w.now) outbox
              (λ r p due. (p, due)) h)))

  -- Processing a due row keeps the property, if the broker gives such an answer.
  abbrev pub Keeps : ℕ → (Option Text → Type 0) → Type 0
  Keeps max_attempts Q =
      (r : OutboxModel) (now later : Time) (answer : Option Text)
      → Q answer
      → P r
      → is_due max_attempts now r ≡ true
      → P (process_row answer later r)

  module _ (rt : Runtime) (batch_size max_attempts : ℕ) (Q : Option Text → Type 0)
      (kept : Keeps max_attempts Q) where
    All-process :
        (w : Round) (i : ℕ) (rs : List OutboxModel)
        → Answers Q w
        → All (IsDueRow batch_size max_attempts w.now) rs
        → All P (process_rows rt w i rs)
    unfolding process_rows
    All-process w i [] answers h = tt
    All-process w i (r ∷ rs) answers h =
        (kept r _ _ _ (answers i _) h.0.0 h.0.1, All-process w (i + 1) rs answers h.1)

    -- What every row has, and processing a due row keeps, every row has after a round.
    relay_once-All :
        (w : Round) (outbox : List OutboxModel)
        → Answers Q w
        → All P outbox
        → All P (relay_once rt batch_size max_attempts w outbox).1
    unfolding relay_once
    relay_once-All w outbox answers h = elim (Bool-cases w.commits) [
      | inl through ↦ rw through (
          All-store (process_rows rt w 0 (batch batch_size max_attempts w outbox)) outbox
            (All-process w 0 _ answers (All-batch batch_size max_attempts w outbox h)) h)
      | inr lost ↦ rw lost h
    ]

module _ (rt : Runtime) (batch_size max_attempts : ℕ) where
  -- Rounds in order, each on the table that the one before left.
  unfoldable pub rounds : List Round → List OutboxModel → List OutboxModel
  rounds [] outbox = outbox
  rounds (w ∷ ws) outbox = rounds ws (relay_once rt batch_size max_attempts w outbox).1

  module _ (P : OutboxModel → Type 0) where
    pub rounds-All_with :
        (Q : Option Text → Type 0)
        → Keeps P max_attempts Q
        → (ws : List Round) (outbox : List OutboxModel) → All (Answers Q) ws
        → All P outbox
        → All P (rounds ws outbox)
    unfolding rounds
    rounds-All_with Q kept [] outbox answers h = h
    rounds-All_with Q kept (w ∷ ws) outbox answers h =
        rounds-All_with Q kept ws (relay_once rt batch_size max_attempts w outbox).1 answers.1
          (relay_once-All P rt batch_size max_attempts Q kept w outbox answers.0 h)

    any_answers : (ws : List Round) → All (Answers (λ _. Unit)) ws
    any_answers [] = tt
    any_answers (w ∷ ws) = ((λ i m. tt), any_answers ws)

    pub rounds-All :
        ((r : OutboxModel) (now later : Time) (answer : Option Text)
          → P r
          → is_due max_attempts now r ≡ true
          → P (process_row answer later r))
        → (ws : List Round) (outbox : List OutboxModel) → All P outbox
        → All P (rounds ws outbox)
    rounds-All kept ws outbox h =
        rounds-All_with (λ _. Unit) (λ r now later answer _. kept r now later answer) ws outbox
          (any_answers ws) h

  -- The stored counter of attempts never gets past `max_attempts`: if no row's count is above it at
  -- first, then none is after any rounds, whatever the broker, the clock, the other workers and the
  -- database do. A round whose commit fails counts nothing, though the broker was called.
  pub rounds-attempts-le :
      (ws : List Round) (outbox : List OutboxModel)
      → All (λ r. r.attempt_count ≤ max_attempts) outbox
      → All (λ r. r.attempt_count ≤ max_attempts) (rounds ws outbox)
  rounds-attempts-le ws outbox h =
      rounds-All (λ r. r.attempt_count ≤ max_attempts)
        (λ r now later answer p due. one_more r now later answer due) ws outbox h
    where
      one_more :
          (r : OutboxModel) (now later : Time) (answer : Option Text)
          → is_due max_attempts now r ≡ true
          → (process_row answer later r).attempt_count ≤ max_attempts
      one_more r now later none due = unfold is_due process_row in ground arith
      one_more r now later (some e) due = unfold is_due process_row in ground arith

  -- A row that is published, in processing, or out of attempts.
  abbrev pub IsSettled : OutboxModel → Type 0
  IsSettled r = (is_waiting r.status ≡ false) ⊎ (max_attempts ≤ r.attempt_count)

  pub settled-not-due :
      (row : OutboxModel) (now : Time) → IsSettled row → is_due max_attempts now row ≡ false
  unfolding is_due
  settled-not-due row now (inl h) = rw h
  settled-not-due row now (inr h) = ground arith

length-batch-le :
    (batch_size max_attempts : ℕ) (w : Round) (outbox : List OutboxModel)
    → length (batch batch_size max_attempts w outbox) ≤ batch_size
unfolding batch
length-batch-le batch_size max_attempts w outbox = omega (arith, length-take {0} batch_size _)

-- A round that returns reports how many rows it took, never more than `batch_size`.
pub relay_once-le :
    (rt : Runtime) (batch_size max_attempts : ℕ) (w : Round) (outbox : List OutboxModel) (n : ℕ)
    → (relay_once rt batch_size max_attempts w outbox).0 ≡ ok n
    → (n ≡ length (batch batch_size max_attempts w outbox)) × (n ≤ batch_size)
unfolding relay_once
relay_once-le rt batch_size max_attempts w outbox n h =
    let small = length-batch-le batch_size max_attempts w outbox in ground arith
