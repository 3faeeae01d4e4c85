-- ===== src/Prelude/Strip.antt =====
-- Laws of `strip`: it takes nothing from a text that has been stripped, and it commutes with a
-- rewriting of single characters that leaves whitespace alone.
use mathlib.Core.Path.{◌≡◌, refl}
use mathlib.Core.Logic.{inl, inr}
use mathlib.Core.Bool.{false}
use mathlib.Core.List.{[], ◌∷◌, map}
use Prim.Native.Nat.{ℕ}
use native.Mathlib.Omega.{arith}
use ndma_edit.Prelude.Tests.{Bool-cases}
use ndma_edit.Prelude.Strings.{Text, is_space, lstrip, rstrip, strip, before}

pub rstrip_idem : (s : Text) → rstrip (rstrip s) ≡ rstrip s
unfolding rstrip
rstrip_idem [] = refl
rstrip_idem (c ∷ s) = after-before c (rstrip s) (rstrip_idem s)
  where
    after-before : (d : ℕ) (t : Text) → rstrip t ≡ t → rstrip (before d t) ≡ before d t
    after-before d [] h = ground arith
    after-before d (e ∷ t) h = rw (h, before)

-- What starts with a character that is no space still does, after `rstrip`.
lstrip-before : (c : ℕ) (s : Text) → is_space c ≡ false → lstrip (before c s) ≡ before c s
unfolding lstrip
lstrip-before c [] h = ground arith
lstrip-before c (d ∷ s) h = ground arith

lstrip-rstrip-lstrip : (s : Text) → lstrip (rstrip (lstrip s)) ≡ rstrip (lstrip s)
unfolding lstrip rstrip
lstrip-rstrip-lstrip [] = refl
lstrip-rstrip-lstrip (c ∷ s) = elim (Bool-cases (is_space c)) [
  | inl space ↦ rw space (lstrip-rstrip-lstrip s)
  | inr solid ↦ rw solid (lstrip-before c (rstrip s) solid)
]

-- A stripped text has nothing to strip.
pub strip_idem : (s : Text) → strip (strip s) ≡ strip s
unfolding strip
strip_idem s = rw lstrip-rstrip-lstrip (rstrip_idem (lstrip s))

module _ (f : ℕ → ℕ) (same : (c : ℕ) → is_space (f c) ≡ is_space c) where
  lstrip-map : (s : Text) → lstrip (map f s) ≡ map f (lstrip s)
  unfolding lstrip
  lstrip-map [] = refl
  lstrip-map (c ∷ s) = elim (Bool-cases (is_space c)) [
    | inl space ↦ rw (same c, space) (lstrip-map s)
    | inr solid ↦ rw (same c, solid)
  ]

  before-map : (c : ℕ) (s : Text) → before (f c) (map f s) ≡ map f (before c s)
  before-map c [] = elim (Bool-cases (is_space c)) [
    | inl space ↦ rw (same c, space)
    | inr solid ↦ rw (same c, solid)
  ]
  before-map c (d ∷ s) = refl

  rstrip-map : (s : Text) → rstrip (map f s) ≡ map f (rstrip s)
  unfolding rstrip
  rstrip-map [] = refl
  rstrip-map (c ∷ s) = rw (rstrip-map s) (before-map c (rstrip s))

  pub strip-map : (s : Text) → strip (map f s) ≡ map f (strip s)
  unfolding strip
  strip-map s = rw lstrip-map (rstrip-map (lstrip s))
