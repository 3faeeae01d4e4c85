-- ===== src/Infrastructure/Persistence/Relay/Drain.antt =====
-- That the relay gets through the outbox, and how many rounds are enough.
use ndma_edit.Prelude.{
  ℕ, zero, suc, ◌+◌, ◌≤◌, ◌<◌, min, List, [], ◌∷◌, Bool, true, false, not, keep, take, length,
  length-take, keep-All, keep_nothing, All, All-map, All-keep_of, le→leb, ◌≡◌, refl, ap, ◌∙◌, arith,
}
use ndma_edit.Runtime.{Runtime}
use ndma_edit.Infrastructure.Persistence.Models.{OutboxModel}
use ndma_edit.Infrastructure.Persistence.Database.{insert_ordered, order_by}
use ndma_edit.Infrastructure.Persistence.Relay.{
  is_due, older, Round, batch, process_rows, store_rows, relay_once,
}
use ndma_edit.Infrastructure.Persistence.Relay.Rounds.{
  All-batch, All-order, rounds, rounds-All, IsSettled, settled-not-due,
}
use ndma_edit.Infrastructure.Persistence.Relay.Ids.{
  HasUniqueIds, IsIn, All-IsIn, store_rows-HasUniqueIds, keep-HasUniqueIds, order-HasUniqueIds,
  take-HasUniqueIds,
}
use ndma_edit.Infrastructure.Persistence.Relay.Work.{attempts_left, work, work-store_rows}

length-insert {ℓ} :
    {A : Type ℓ} (le : A → A → Bool) (x : A) (xs : List A)
    → length (insert_ordered le x xs) ≡ suc (length xs)
unfolding insert_ordered
length-insert le x [] = refl
length-insert le x (y ∷ ys) = ground (arith, length-insert le x ys)

length-order {ℓ} :
    {A : Type ℓ} (le : A → A → Bool) (xs : List A) → length (order_by le xs) ≡ length xs
unfolding order_by
length-order le [] = refl
length-order le (x ∷ xs) = length-insert le x (order_by le xs) ∙ ap suc (length-order le xs)

module _ (rt : Runtime) (batch_size max_attempts : ℕ) where
  -- The round reaches the outbox: it commits, no other worker holds a row, and the clock has come to
  -- the time of every row.
  pub record Reaches (w : Round) (outbox : List OutboxModel) : Type 0 where
    pub through : w.commits ≡ true
    pub unlocked : All (λ r. w.is_locked r ≡ false) outbox
    pub in_time : All (λ r. r.available_at ≤ w.now) outbox

  -- Each round reaches the outbox that the rounds before have left.
  abbrev pub AllReach : List Round → List OutboxModel → Type 0
  AllReach [] outbox = Unit
  AllReach (w ∷ ws) outbox =
      Reaches w outbox × AllReach ws (relay_once rt batch_size max_attempts w outbox).1

  length-batch :
      (w : Round) (outbox : List OutboxModel)
      → Reaches w outbox
      → length (batch batch_size max_attempts w outbox)
        ≡ min batch_size (length (keep (is_due max_attempts w.now) outbox))
  unfolding batch
  length-batch w outbox reach =
      let due = keep (is_due max_attempts w.now) outbox in
      let free =
        All-map (λ (r : OutboxModel) (h : w.is_locked r ≡ false). ap not h) (order_by older due)
          (All-order (λ r. w.is_locked r ≡ false) older due
            (All-keep_of (λ r. w.is_locked r ≡ false) (is_due max_attempts w.now) outbox
              reach.unlocked)) in
      ap (λ rs. length (take batch_size rs))
        (keep-All (λ r. not (w.is_locked r)) (order_by older due) free)
      ∙ length-take {0} batch_size (order_by older due)
      ∙ ap (min batch_size) (length-order older due)

  batch-HasUniqueIds :
      (w : Round) (outbox : List OutboxModel)
      → HasUniqueIds outbox
      → HasUniqueIds (batch batch_size max_attempts w outbox)
  unfolding batch
  batch-HasUniqueIds w outbox u =
      take-HasUniqueIds batch_size _
        (keep-HasUniqueIds _ _ (order-HasUniqueIds older _ (keep-HasUniqueIds _ outbox u)))

  -- What a round that commits does.
  relay_once-eq :
      (w : Round) (outbox : List OutboxModel)
      → w.commits ≡ true
      → (relay_once rt batch_size max_attempts w outbox).1
        ≡ store_rows (process_rows rt w 0 (batch batch_size max_attempts w outbox)) outbox
  unfolding relay_once
  relay_once-eq w outbox through = rw through refl

  relay_once-HasUniqueIds :
      (w : Round) (outbox : List OutboxModel)
      → w.commits ≡ true
      → HasUniqueIds outbox
      → HasUniqueIds (relay_once rt batch_size max_attempts w outbox).1
  relay_once-HasUniqueIds w outbox through u =
      rw (relay_once-eq w outbox through) (store_rows-HasUniqueIds _ outbox u)

  work-relay_once :
      (w : Round) (outbox : List OutboxModel)
      → w.commits ≡ true
      → HasUniqueIds outbox
      → work max_attempts (relay_once rt batch_size max_attempts w outbox).1
          + length (batch batch_size max_attempts w outbox)
        ≤ work max_attempts outbox
  work-relay_once w outbox through u =
      let taken =
        All-batch (λ r. IsIn r outbox) batch_size max_attempts w outbox (All-IsIn outbox) in
      let rows = batch batch_size max_attempts w outbox in
      rw (relay_once-eq w outbox through) (
        work-store_rows max_attempts rt w 0 rows outbox (All-map (λ r h. h.1) rows taken)
          (batch-HasUniqueIds w outbox u) u (All-map (λ r h. h.0) rows taken))

  IsSettled-of_not_due :
      (r : OutboxModel) (now : ℕ)
      → r.available_at ≤ now
      → is_due max_attempts now r ≡ false
      → IsSettled rt batch_size max_attempts r
  unfolding is_due
  IsSettled-of_not_due r now came not_due = ground (arith, le→leb r.available_at now)

  IsSettled-of_no_work :
      (outbox : List OutboxModel)
      → work max_attempts outbox ≤ 0
      → All (IsSettled rt batch_size max_attempts) outbox
  unfolding attempts_left
  IsSettled-of_no_work [] h = tt
  IsSettled-of_no_work (r ∷ rs) h =
      (no_attempt r (omega arith), IsSettled-of_no_work rs (omega arith))
    where
      no_attempt :
          (r : OutboxModel)
          → attempts_left max_attempts r ≤ 0
          → IsSettled rt batch_size max_attempts r
      no_attempt r h = ground arith

  not_due-IsSettled :
      (now : ℕ) (outbox : List OutboxModel)
      → All (λ r. r.available_at ≤ now) outbox
      → All (λ r. is_due max_attempts now r ≡ false) outbox
      → All (IsSettled rt batch_size max_attempts) outbox
  not_due-IsSettled now [] came idle = tt
  not_due-IsSettled now (r ∷ rs) came idle =
      (IsSettled-of_not_due r now came.0 idle.0, not_due-IsSettled now rs came.1 idle.1)

  -- Settled rows stay settled.
  rounds-IsSettled :
      (ws : List Round) (outbox : List OutboxModel)
      → All (IsSettled rt batch_size max_attempts) outbox
      → All (IsSettled rt batch_size max_attempts) (rounds rt batch_size max_attempts ws outbox)
  rounds-IsSettled =
      rounds-All rt batch_size max_attempts (IsSettled rt batch_size max_attempts)
        (λ r now later answer settled due. absurd (clash r now settled due))
    where
      clash :
          (r : OutboxModel) (now : ℕ)
          → IsSettled rt batch_size max_attempts r
          → is_due max_attempts now r ≡ true
          → ⊥
      clash r now settled due =
          let idle = settled-not-due rt batch_size max_attempts r now settled in cc

  -- A round that finds a due row does work.
  work_shrinks :
      (w : Round) (outbox : List OutboxModel) (n k : ℕ)
      → 0 < batch_size
      → Reaches w outbox
      → HasUniqueIds outbox
      → length (keep (is_due max_attempts w.now) outbox) ≡ suc n
      → work max_attempts outbox ≤ suc k
      → work max_attempts (relay_once rt batch_size max_attempts w outbox).1 ≤ k
  work_shrinks w outbox n k some_room reach u some_due h =
      let taken = length-batch w outbox reach ∙ ap (min batch_size) some_due in
      let less = work-relay_once w outbox reach.through u in
      let some_taken : 0 < min batch_size (suc n) = omega arith in
      omega (arith, taken, less, some_taken)

  one_more_round :
      (w : Round) (ws : List Round) (outbox : List OutboxModel) (n : ℕ)
      → 0 < batch_size
      → HasUniqueIds outbox
      → Reaches w outbox
      → work max_attempts outbox ≤ suc (length ws)
      → (work max_attempts (relay_once rt batch_size max_attempts w outbox).1 ≤ length ws
          → All
              (IsSettled rt batch_size max_attempts)
              (rounds rt batch_size max_attempts (w ∷ ws) outbox))
      → length (keep (is_due max_attempts w.now) outbox) ≡ n
      → All
          (IsSettled rt batch_size max_attempts)
          (rounds rt batch_size max_attempts (w ∷ ws) outbox)
  one_more_round w ws outbox zero some_room u reach h rest none_due =
      rounds-IsSettled (w ∷ ws) outbox (
        not_due-IsSettled w.now outbox reach.in_time
          (keep_nothing (is_due max_attempts w.now) outbox none_due))
  one_more_round w ws outbox (suc n) some_room u reach h rest some_due =
      rest (work_shrinks w outbox n (length ws) some_room reach u some_due h)

  -- The relay gets through: after as many rounds as the rows of the outbox have attempts left, if each
  -- of them commits, finds no row locked and comes when every row may be tried, every row is settled,
  -- whatever the broker answers. The rows have different ids, and a batch has room for one row.
  pub enough_rounds_settle :
      (ws : List Round) (outbox : List OutboxModel)
      → 0 < batch_size
      → HasUniqueIds outbox
      → AllReach ws outbox
      → work max_attempts outbox ≤ length ws
      → All (IsSettled rt batch_size max_attempts) (rounds rt batch_size max_attempts ws outbox)
  unfolding rounds
  enough_rounds_settle [] outbox some_room u reach h = IsSettled-of_no_work outbox h
  enough_rounds_settle (w ∷ ws) outbox some_room u (reach, later) h =
      one_more_round w ws outbox _ some_room u reach h
        (enough_rounds_settle ws (relay_once rt batch_size max_attempts w outbox).1 some_room
          (relay_once-HasUniqueIds w outbox reach.through u) later)
        refl
