-- ===== src/Application/Users/Newest.antt =====
-- The order of the listing, told without the comparison that the repository sorts by.
use mathlib.Core.List.{Perm}
use mathlib.Core.List.Perm
use ndma_edit.Prelude.{
  ◌≤◌, ◌<◌, List, [], ◌∷◌, Bool, true, false, All, ◌≡◌, refl, ◌⊎◌, inl, inr, arith, Bool-cases, suc,
  length, ap, ◌∙◌,
}
use ndma_edit.Infrastructure.Persistence.Models.{UserModel}
use ndma_edit.Infrastructure.Persistence.Database.{insert_ordered, order_by}
use ndma_edit.Infrastructure.Persistence.Repository.{newest_first}
use ndma_edit.Infrastructure.Persistence.Relay.Rounds.{All-insert}

-- `a` was registered later than `b`, or at the same time and with an id that is not greater.
abbrev pub IsBefore : UserModel → UserModel → Type 0
IsBefore a b =
    (b.registered_at < a.registered_at) ⊎ ((b.registered_at ≡ a.registered_at) × (a.id ≤ b.id))

abbrev pub IsNewestFirst : List UserModel → Type 0
IsNewestFirst [] = Unit
IsNewestFirst (m ∷ ms) = All (IsBefore m) ms × IsNewestFirst ms

IsBefore-of_true : (a b : UserModel) → newest_first a b ≡ true → IsBefore a b
unfolding newest_first
IsBefore-of_true a b h = ground arith

IsBefore-of_false : (a b : UserModel) → newest_first a b ≡ false → IsBefore b a
unfolding newest_first
IsBefore-of_false a b h = ground arith

IsBefore-trans : (a b c : UserModel) → IsBefore a b → IsBefore b c → IsBefore a c
IsBefore-trans a b c h k = ground arith

All-IsBefore :
    (a b : UserModel) (ms : List UserModel)
    → IsBefore a b
    → All (IsBefore b) ms
    → All (IsBefore a) ms
All-IsBefore a b [] h k = tt
All-IsBefore a b (m ∷ ms) h k = (IsBefore-trans a b m h k.0, All-IsBefore a b ms h k.1)

insert-IsNewestFirst :
    (m : UserModel) (ms : List UserModel)
    → IsNewestFirst ms
    → IsNewestFirst (insert_ordered newest_first m ms)
unfolding insert_ordered
insert-IsNewestFirst m [] h = (tt, tt)
insert-IsNewestFirst m (n ∷ ms) h = elim (Bool-cases (newest_first m n)) [
  | inl first ↦ let b = IsBefore-of_true m n first in rw first ((b, All-IsBefore m n ms b h.0), h)
  | inr behind ↦ rw behind (
    All-insert (IsBefore n) newest_first m ms (IsBefore-of_false m n behind) h.0,
    insert-IsNewestFirst m ms h.1,
  )
]

pub order-IsNewestFirst : (ms : List UserModel) → IsNewestFirst (order_by newest_first ms)
unfolding order_by
order-IsNewestFirst [] = tt
order-IsNewestFirst (m ∷ ms) =
    insert-IsNewestFirst m (order_by newest_first ms) (order-IsNewestFirst ms)

module _ {A : Type 0} (le : A → A → Bool) where
  insert-perm : (x : A) (ys : List A) → Perm (insert_ordered le x ys) (x ∷ ys)
  unfolding insert_ordered
  insert-perm x [] = Perm.refl _
  insert-perm x (y ∷ ys) = elim (Bool-cases (le x y)) [
    | inl first ↦ rw first (Perm.refl _)
    | inr behind ↦ rw behind (Perm.trans (Perm.cons y (insert-perm x ys)) (Perm.swap x y ys))
  ]

  pub order-perm : (xs : List A) → Perm (order_by le xs) xs
  unfolding order_by
  order-perm [] = Perm.refl _
  order-perm (x ∷ xs) = Perm.trans (insert-perm x (order_by le xs)) (Perm.cons x (order-perm xs))

  length-insert : (x : A) (xs : List A) → length (insert_ordered le x xs) ≡ suc (length xs)
  unfolding insert_ordered
  length-insert x [] = refl
  length-insert x (y ∷ ys) = elim (Bool-cases (le x y)) [
    | inl first ↦ rw first refl
    | inr behind ↦ rw behind (ap suc (length-insert x ys))
  ]

  pub length-order_by : (xs : List A) → length (order_by le xs) ≡ length xs
  unfolding order_by
  length-order_by [] = refl
  length-order_by (x ∷ xs) = length-insert x (order_by le xs) ∙ ap suc (length-order_by xs)
