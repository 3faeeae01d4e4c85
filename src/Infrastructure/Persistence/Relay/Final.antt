-- ===== src/Infrastructure/Persistence/Relay/Final.antt =====
-- That the relay never touches a settled row again, and loses no row.
use ndma_edit.Prelude.{
  ℕ, Text, List, [], ◌∷◌, true, Option, none, some, ◌==◌, ==_iff, All, map, change, ◌≡◌, refl, ◌∙◌,
  Bool-cases, inl, inr,
}
use ndma_edit.Runtime.{Runtime}
use ndma_edit.Domain.Aggregate.{Time}
use ndma_edit.Infrastructure.Persistence.Models.{OutboxModel}
use ndma_edit.Infrastructure.Persistence.Relay.{
  is_due, process_row, Round, batch, process_rows, store_rows, relay_once,
}
use ndma_edit.Infrastructure.Persistence.Relay.Ids.{store_row}
use ndma_edit.Infrastructure.Persistence.Relay.Rounds.{
  rounds, rounds-All, IsSettled, settled-not-due,
}

-- The ids of the table, in its order.
abbrev pub ids : List OutboxModel → List ℕ
ids = map (λ r. r.id)

ids-store_row : (r : OutboxModel) (rs : List OutboxModel) → ids (store_row r rs) ≡ ids rs
unfolding change
ids-store_row r [] = refl
ids-store_row r (q ∷ rs) = elim (Bool-cases (q.id == r.id)) [
  | inl hit ↦ rw (hit, ids-store_row r rs, (==_iff q.id r.id).0 hit) refl
  | inr miss ↦ rw (miss, ids-store_row r rs) refl
]

ids-store_rows : (rs outbox : List OutboxModel) → ids (store_rows rs outbox) ≡ ids outbox
unfolding store_rows
ids-store_rows [] outbox = refl
ids-store_rows (r ∷ rs) outbox = ids-store_rows rs (store_row r outbox) ∙ ids-store_row r outbox

process_row-id :
    (answer : Option Text) (later : Time) (r : OutboxModel) → (process_row answer later r).id ≡ r.id
unfolding process_row
process_row-id none later r = refl
process_row-id (some e) later r = refl

module _ (rt : Runtime) (batch_size max_attempts : ℕ) where
  ids-relay_once :
      (w : Round) (outbox : List OutboxModel)
      → ids (relay_once rt batch_size max_attempts w outbox).1 ≡ ids outbox
  unfolding relay_once
  ids-relay_once w outbox = elim (Bool-cases w.commits) [
    | inl through ↦
        rw through
          (ids-store_rows (process_rows rt w 0 (batch batch_size max_attempts w outbox)) outbox)
    | inr lost ↦ rw lost refl
  ]

  -- No row appears or goes.
  pub ids-rounds :
      (ws : List Round) (outbox : List OutboxModel)
      → ids (rounds rt batch_size max_attempts ws outbox) ≡ ids outbox
  unfolding rounds
  ids-rounds [] outbox = refl
  ids-rounds (w ∷ ws) outbox =
      ids-rounds ws (relay_once rt batch_size max_attempts w outbox).1 ∙ ids-relay_once w outbox

  -- A settled row is final: if it is the only row of its id, then after any rounds the table has rows
  -- of the same ids in the same order, and the row of that id is exactly as it was. In particular no
  -- message is published again once its row says that it was.
  pub settled_is_final :
      (row : OutboxModel) (ws : List Round) (outbox : List OutboxModel)
      → IsSettled rt batch_size max_attempts row
      → All (λ r. r.id ≡ row.id → r ≡ row) outbox
      → (ids (rounds rt batch_size max_attempts ws outbox) ≡ ids outbox)
        × All (λ r. r.id ≡ row.id → r ≡ row) (rounds rt batch_size max_attempts ws outbox)
  settled_is_final row ws outbox settled h = (
    ids-rounds ws outbox,
    rounds-All rt batch_size max_attempts (λ r. r.id ≡ row.id → r ≡ row) stays ws outbox h,
  )
    where
      stays :
          (r : OutboxModel) (now later : Time) (answer : Option Text)
          → (r.id ≡ row.id → r ≡ row)
          → is_due max_attempts now r ≡ true
          → (process_row answer later r).id ≡ row.id
          → process_row answer later r ≡ row
      stays r now later answer p due e =
          let it = p (rw process_row-id at e) in
          let not_due = settled-not-due rt batch_size max_attempts row now settled in
          let due_row : is_due max_attempts now row ≡ true = rw it at due in cc
