-- ===== src/Infrastructure/Persistence/Relay/Published.antt =====
-- That every message of the outbox is published, when the broker takes what it is given.
use ndma_edit.Prelude.{
  ℕ, ◌≤◌, ◌<◌, Text, List, [], ◌∷◌, true, Option, none, some, All, length, ◌≡◌, refl, ◌⊎◌, inl, inr,
  arith,
}
use ndma_edit.Runtime.{Runtime}
use ndma_edit.Infrastructure.Persistence.Models.{OutboxModel, published}
use ndma_edit.Infrastructure.Persistence.Relay.{is_waiting, process_row, Round}
use ndma_edit.Infrastructure.Persistence.Relay.Ids.{HasUniqueIds}
use ndma_edit.Infrastructure.Persistence.Relay.Work.{work}
use ndma_edit.Infrastructure.Persistence.Relay.Rounds.{
  Answers, Keeps, rounds, rounds-All_with, IsSettled,
}
use ndma_edit.Infrastructure.Persistence.Relay.Final.{ids, ids-rounds}
use ndma_edit.Infrastructure.Persistence.Relay.Drain.{AllReach, enough_rounds_settle}

-- A row that is published, or that still has an attempt.
abbrev pub IsOnItsWay : ℕ → OutboxModel → Type 0
IsOnItsWay max_attempts r =
    (r.status ≡ published) ⊎ ((is_waiting r.status ≡ true) × (r.attempt_count < max_attempts))

-- The broker takes the message.
abbrev pub IsTaken : Option Text → Type 0
IsTaken answer = answer ≡ none

module _ (rt : Runtime) (batch_size max_attempts k : ℕ) where
  -- The row of id `k` is on its way.
  abbrev IsThisOnItsWay : OutboxModel → Type 0
  IsThisOnItsWay r = r.id ≡ k → IsOnItsWay max_attempts r

  process_row-IsThisOnItsWay : Keeps IsThisOnItsWay max_attempts IsTaken
  process_row-IsThisOnItsWay r now later none taken p due e = inl (unfold process_row in refl)
  process_row-IsThisOnItsWay r now later (some x) taken p due e = absurd (cc taken)

  none_left_over :
      (rs : List OutboxModel)
      → All IsThisOnItsWay rs
      → All (IsSettled rt batch_size max_attempts) rs
      → All (λ r. r.id ≡ k → r.status ≡ published) rs
  none_left_over [] way settled = tt
  none_left_over (r ∷ rs) way settled =
      ((λ e. arrived r (way.0 e) settled.0), none_left_over rs way.1 settled.1)
    where
      arrived :
          (q : OutboxModel)
          → IsOnItsWay max_attempts q
          → IsSettled rt batch_size max_attempts q
          → q.status ≡ published
      arrived q (inl done) settled = done
      arrived q (inr (waiting, few)) (inl not_waiting) = absurd (cc)
      arrived q (inr (_, few)) (inr many) = absurd (omega arith)

  -- With a broker that takes every message, a row that is published or has an attempt left ends up
  -- published, whatever the other rows are: after as many rounds as the rows of the outbox have
  -- attempts left, if each of them commits, finds no row locked and comes when every row may be tried,
  -- the table has rows of the same ids, and the row of that id is published. The rows have different
  -- ids, and a batch has room for one row.
  pub every_row_is_published :
      (ws : List Round) (outbox : List OutboxModel)
      → 0 < batch_size
      → HasUniqueIds outbox
      → AllReach rt batch_size max_attempts ws outbox
      → All (Answers IsTaken) ws
      → All (λ r. r.id ≡ k → IsOnItsWay max_attempts r) outbox
      → work max_attempts outbox ≤ length ws
      → (ids (rounds rt batch_size max_attempts ws outbox) ≡ ids outbox)
        × All (λ r. r.id ≡ k → r.status ≡ published) (rounds rt batch_size max_attempts ws outbox)
  every_row_is_published ws outbox some_room u reach taken way enough = (
    ids-rounds rt batch_size max_attempts ws outbox,
    none_left_over (rounds rt batch_size max_attempts ws outbox)
        (rounds-All_with rt batch_size max_attempts IsThisOnItsWay IsTaken
          process_row-IsThisOnItsWay ws outbox taken way)
        (enough_rounds_settle rt batch_size max_attempts ws outbox some_room u reach enough),
  )
