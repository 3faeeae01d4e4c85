-- ===== src/Infrastructure/Persistence/Relay/Ids.antt =====
-- The ids of outbox rows: one row for each id, kept by all that a round does.
use ndma_edit.Prelude.{
  All-map, ℕ, zero, suc, List, [], ◌∷◌, Bool, ◌==◌, ==_iff, keep, change, take, All, All-keep_of,
  All-take, ◌≡◌, ◌≢◌, refl, sym, ◌∙◌, Bool-cases, ◌⊎◌, inl, inr,
}
use ndma_edit.Infrastructure.Persistence.Models.{OutboxModel}
use ndma_edit.Infrastructure.Persistence.Database.{insert_ordered, order_by}
use ndma_edit.Infrastructure.Persistence.Relay.{store_rows}
use ndma_edit.Infrastructure.Persistence.Relay.Rounds.{All-insert, All-order}

abbrev pub Differs : OutboxModel → OutboxModel → Type 0
Differs r q = q.id ≢ r.id

abbrev pub HasUniqueIds : List OutboxModel → Type 0
HasUniqueIds [] = Unit
HasUniqueIds (r ∷ rs) = All (Differs r) rs × HasUniqueIds rs

pub keep-HasUniqueIds :
    (p : OutboxModel → Bool) (rs : List OutboxModel) → HasUniqueIds rs → HasUniqueIds (keep p rs)
unfolding keep
keep-HasUniqueIds p [] h = tt
keep-HasUniqueIds p (r ∷ rs) h = elim (Bool-cases (p r)) [
  | inl kept ↦ rw kept (All-keep_of (Differs r) p rs h.0, keep-HasUniqueIds p rs h.1)
  | inr left ↦ rw left (keep-HasUniqueIds p rs h.1)
]

pub take-HasUniqueIds : (n : ℕ) (rs : List OutboxModel) → HasUniqueIds rs → HasUniqueIds (take n rs)
take-HasUniqueIds zero rs h = tt
take-HasUniqueIds (suc n) [] h = tt
take-HasUniqueIds (suc n) (r ∷ rs) h = (All-take (Differs r) n rs h.0, take-HasUniqueIds n rs h.1)

module _ (le : OutboxModel → OutboxModel → Bool) where
  insert-HasUniqueIds :
      (r : OutboxModel) (rs : List OutboxModel)
      → All (Differs r) rs
      → HasUniqueIds rs
      → HasUniqueIds (insert_ordered le r rs)
  unfolding insert_ordered
  insert-HasUniqueIds r [] new h = (tt, tt)
  insert-HasUniqueIds r (q ∷ rs) new h = elim (Bool-cases (le r q)) [
    | inl first ↦ rw first (new, h)
    | inr behind ↦ rw behind (
      All-insert (Differs q) le r rs (λ e. new.0 (sym e)) h.0,
      insert-HasUniqueIds r rs new.1 h.1,
    )
  ]

  pub order-HasUniqueIds : (rs : List OutboxModel) → HasUniqueIds rs → HasUniqueIds (order_by le rs)
  unfolding order_by
  order-HasUniqueIds [] h = tt
  order-HasUniqueIds (r ∷ rs) h =
      insert-HasUniqueIds r (order_by le rs) (All-order (Differs r) le rs h.0)
        (order-HasUniqueIds rs h.1)

-- The UPDATE of one row.
abbrev pub store_row : OutboxModel → List OutboxModel → List OutboxModel
store_row r = change (λ q. q.id == r.id) (λ _. r)

pub store_row-Differs :
    (k r : OutboxModel) (rs : List OutboxModel)
    → All (Differs k) rs
    → All (Differs k) (store_row r rs)
unfolding change
store_row-Differs k r [] h = tt
store_row-Differs k r (q ∷ rs) h = elim (Bool-cases (q.id == r.id)) [
  | inl hit ↦ rw hit ((λ e. h.0 ((==_iff q.id r.id).0 hit ∙ e)), store_row-Differs k r rs h.1)
  | inr miss ↦ rw miss (h.0, store_row-Differs k r rs h.1)
]

pub store_row-HasUniqueIds :
    (r : OutboxModel) (rs : List OutboxModel) → HasUniqueIds rs → HasUniqueIds (store_row r rs)
unfolding change
store_row-HasUniqueIds r [] h = tt
store_row-HasUniqueIds r (q ∷ rs) h = elim (Bool-cases (q.id == r.id)) [
  | inl hit ↦ rw hit (
    differs_same q r (store_row r rs) ((==_iff q.id r.id).0 hit) (store_row-Differs q r rs h.0),
    store_row-HasUniqueIds r rs h.1,
  )
  | inr miss ↦ rw miss (store_row-Differs q r rs h.0, store_row-HasUniqueIds r rs h.1)
]
  where
    differs_same :
        (q r : OutboxModel) (rs : List OutboxModel)
        → q.id ≡ r.id
        → All (Differs q) rs
        → All (Differs r) rs
    differs_same q r [] e h = tt
    differs_same q r (x ∷ rs) e h = ((λ d. h.0 (d ∙ sym e)), differs_same q r rs e h.1)

pub store_rows-HasUniqueIds :
    (rs outbox : List OutboxModel) → HasUniqueIds outbox → HasUniqueIds (store_rows rs outbox)
unfolding store_rows
store_rows-HasUniqueIds [] outbox h = h
store_rows-HasUniqueIds (r ∷ rs) outbox h =
    store_rows-HasUniqueIds rs (store_row r outbox) (store_row-HasUniqueIds r outbox h)

-- A row is one of the table's.
abbrev pub IsIn : OutboxModel → List OutboxModel → Type 0
IsIn r [] = ⊥
IsIn r (q ∷ rs) = (q ≡ r) ⊎ IsIn r rs

pub store_row-IsIn :
    (k r : OutboxModel) (rs : List OutboxModel) → k.id ≢ r.id → IsIn k rs → IsIn k (store_row r rs)
unfolding change
store_row-IsIn k r [] other h = elim h [ ]
store_row-IsIn k r (q ∷ rs) other (inl e) = elim (Bool-cases (q.id == r.id)) [
  | inl hit ↦ absurd (other (rw e at ((==_iff q.id r.id).0 hit)))
  | inr miss ↦ rw miss (inl e)
]
store_row-IsIn k r (q ∷ rs) other (inr later) = elim (Bool-cases (q.id == r.id)) [
  | inl hit ↦ rw hit (inr (store_row-IsIn k r rs other later))
  | inr miss ↦ rw miss (inr (store_row-IsIn k r rs other later))
]

pub All-IsIn : (rs : List OutboxModel) → All (λ r. IsIn r rs) rs
All-IsIn [] = tt
All-IsIn (r ∷ rs) = (inl refl, All-map (λ q h. inr h) rs (All-IsIn rs))
