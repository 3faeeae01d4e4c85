-- ===== src/Infrastructure/Persistence/Relay/Order.antt =====
-- Which rows a round takes: the oldest of those that are due and not locked.
use mathlib.Core.List.{Perm}
use mathlib.Core.List.Perm
use ndma_edit.Prelude.{
  All-keep_of, ℕ, zero, suc, ◌≤◌, min, List, [], ◌∷◌, ◌++◌, Bool, not, leb→le, keep, take, drop,
  length, length-take, All, ◌≡◌, refl, arith, Bool-cases, inl, inr,
}
use ndma_edit.Infrastructure.Persistence.Models.{OutboxModel}
use ndma_edit.Infrastructure.Persistence.Database.{insert_ordered, order_by}
use ndma_edit.Infrastructure.Persistence.Relay.Rounds.{All-insert}
use ndma_edit.Infrastructure.Persistence.Relay.{is_due, older, Round, batch}

module _ {A : Type 0} (p : A → Bool) where
  keep-cons-perm :
      (x : A) (xs ys : List A)
      → Perm (keep p xs) (keep p ys)
      → Perm (keep p (x ∷ xs)) (keep p (x ∷ ys))
  unfolding keep
  keep-cons-perm x xs ys h = elim (Bool-cases (p x)) [
    | inl kept ↦ rw kept (Perm.cons x h)
    | inr left ↦ rw left h
  ]

  keep-swap-perm : (x y : A) (l : List A) → Perm (keep p (y ∷ x ∷ l)) (keep p (x ∷ y ∷ l))
  unfolding keep
  keep-swap-perm x y l = elim (Bool-cases (p x)) [
    | inl both ↦ elim (Bool-cases (p y)) [
      | inl kept ↦ rw (both, kept) (Perm.swap x y (keep p l))
      | inr left ↦ rw (both, left) (Perm.refl _)
    ]
    | inr out ↦ elim (Bool-cases (p y)) [
      | inl kept ↦ rw (out, kept) (Perm.refl _)
      | inr left ↦ rw (out, left) (Perm.refl _)
    ]
  ]

  module _ (le : A → A → Bool) where
    keep-insert-perm :
        (x : A) (ys : List A) → Perm (keep p (insert_ordered le x ys)) (keep p (x ∷ ys))
    unfolding insert_ordered
    keep-insert-perm x [] = Perm.refl _
    keep-insert-perm x (y ∷ ys) = elim (Bool-cases (le x y)) [
      | inl first ↦ rw first (Perm.refl _)
      | inr behind ↦
          rw behind
            (Perm.trans (keep-cons-perm y _ _ (keep-insert-perm x ys)) (keep-swap-perm x y ys))
    ]

    -- Ordering rearranges what is kept.
    pub keep-order-perm : (xs : List A) → Perm (keep p (order_by le xs)) (keep p xs)
    unfolding order_by
    keep-order-perm [] = Perm.refl _
    keep-order-perm (x ∷ xs) =
        Perm.trans (keep-insert-perm x (order_by le xs)) (keep-cons-perm x _ _ (keep-order-perm xs))

take-append-drop {ℓ} : {A : Type ℓ} (n : ℕ) (xs : List A) → take n xs ++ drop n xs ≡ xs
take-append-drop zero xs = refl
take-append-drop (suc n) [] = refl
take-append-drop (suc n) (x ∷ xs) = rw (take-append-drop n xs)

-- No row is older than one before it.
abbrev pub IsOldestFirst : List OutboxModel → Type 0
IsOldestFirst [] = Unit
IsOldestFirst (r ∷ rs) =
    All (λ (q : OutboxModel). r.created_at ≤ q.created_at) rs × IsOldestFirst rs

All-later :
    (r s : OutboxModel) (rs : List OutboxModel)
    → r.created_at ≤ s.created_at
    → All (λ (q : OutboxModel). s.created_at ≤ q.created_at) rs
    → All (λ (q : OutboxModel). r.created_at ≤ q.created_at) rs
All-later r s [] h k = tt
All-later r s (q ∷ rs) h k = (omega (arith, k.0), All-later r s rs h k.1)

insert-IsOldestFirst :
    (r : OutboxModel) (rs : List OutboxModel)
    → IsOldestFirst rs
    → IsOldestFirst (insert_ordered older r rs)
unfolding insert_ordered
insert-IsOldestFirst r [] h = (tt, tt)
insert-IsOldestFirst r (s ∷ rs) h = elim (Bool-cases (older r s)) [
  | inl first ↦
      let le = leb→le r.created_at s.created_at first in rw first ((le, All-later r s rs le h.0), h)
  | inr behind ↦
      let ge : s.created_at ≤ r.created_at = ground arith in
      rw behind (
        All-insert (λ q. s.created_at ≤ q.created_at) older r rs ge h.0,
        insert-IsOldestFirst r rs h.1,
      )
]

order-IsOldestFirst : (rs : List OutboxModel) → IsOldestFirst (order_by older rs)
unfolding order_by
order-IsOldestFirst [] = tt
order-IsOldestFirst (r ∷ rs) = insert-IsOldestFirst r (order_by older rs) (order-IsOldestFirst rs)

keep-IsOldestFirst :
    (p : OutboxModel → Bool) (rs : List OutboxModel) → IsOldestFirst rs → IsOldestFirst (keep p rs)
unfolding keep
keep-IsOldestFirst p [] h = tt
keep-IsOldestFirst p (r ∷ rs) h = elim (Bool-cases (p r)) [
  | inl kept ↦
      rw kept (All-keep_of (λ q. r.created_at ≤ q.created_at) p rs h.0, keep-IsOldestFirst p rs h.1)
  | inr left ↦ rw left (keep-IsOldestFirst p rs h.1)
]

-- A round takes the oldest of the due rows that are not locked, `batch_size` of them or all: with the
-- rows that it leaves behind it, the batch holds exactly those rows, and no row of that list is older
-- than one before it.
pub batch_is_oldest :
    (batch_size max_attempts : ℕ) (w : Round) (outbox : List OutboxModel)
    → let ready = keep (λ r. not (w.is_locked r)) (keep (is_due max_attempts w.now) outbox) in
      let rows = batch batch_size max_attempts w outbox in
      (rest : List OutboxModel) × Perm (rows ++ rest) ready
      × IsOldestFirst (rows ++ rest)
      × (length rows ≡ min batch_size (length (rows ++ rest)))
unfolding batch
batch_is_oldest batch_size max_attempts w outbox =
    let due = keep (is_due max_attempts w.now) outbox in
    let unlocked = λ (r : OutboxModel). not (w.is_locked r) in
    let sorted = keep unlocked (order_by older due) in
    (
      drop batch_size sorted,
      rw (take-append-drop batch_size sorted) (keep-order-perm unlocked older due),
      rw (take-append-drop batch_size sorted)
          (keep-IsOldestFirst unlocked (order_by older due) (order-IsOldestFirst due)),
      rw (take-append-drop batch_size sorted) (length-take batch_size sorted),
    )
