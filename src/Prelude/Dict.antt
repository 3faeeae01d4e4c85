-- ===== src/Prelude/Dict.antt =====
-- A Python dict with texts as keys, in its order.
use ndma_edit.Prelude.Tests.{if◌then◌else◌, Bool-cases, is_some}
use ndma_edit.Prelude.Strings.{Text, text_eq, text_eq_iff, member}
use mathlib.Core.Path.{◌≡◌, refl}
use mathlib.Core.Logic.{inl, inr}
use mathlib.Core.Option.{Option, none, some}
use mathlib.Core.List.{List, [], ◌∷◌}
use native.Mathlib.Omega.{arith}

module _ {V : Type 0} where
  -- `d[key] = value`: the old place is kept, a new key goes to the end.
  unfoldable pub put : Text → V → List (Text × V) → List (Text × V)
  put key v [] = (key, v) ∷ []
  put key v ((k, w) ∷ d) =
      let rest = put key v d in if text_eq key k then (k, v) ∷ d else (k, w) ∷ rest

  -- `d.get(key)`
  unfoldable pub dict_get : Text → List (Text × V) → Option V
  dict_get key [] = none
  dict_get key ((k, v) ∷ d) = let rest = dict_get key d in if text_eq k key then some v else rest

  -- `list(d)`
  unfoldable pub keys : List (Text × V) → List Text
  keys [] = []
  keys ((k, v) ∷ d) = k ∷ keys d

  -- `del d[key]`, or nothing
  unfoldable pub without : Text → List (Text × V) → List (Text × V)
  without key [] = []
  without key ((k, v) ∷ d) =
      let rest = without key d in if text_eq k key then rest else (k, v) ∷ rest

  pub dict_get-put :
      (key k : Text) (v : V) (d : List (Text × V))
      → dict_get k (put key v d) ≡ (if text_eq key k then some v else dict_get k d)
  unfolding put dict_get
  dict_get-put key k v [] = refl
  dict_get-put key k v ((j, w) ∷ d) =
      ground (arith, text_eq_iff key j, text_eq_iff key k, text_eq_iff j k, dict_get-put key k v d)

  pub dict_get-without : (key : Text) (d : List (Text × V)) → dict_get key (without key d) ≡ none
  unfolding without dict_get
  dict_get-without key [] = refl
  dict_get-without key ((k, v) ∷ d) = elim (Bool-cases (text_eq k key)) [
    | inl same ↦ rw same (dict_get-without key d)
    | inr other ↦ rw (other, other) (dict_get-without key d)
  ]

  -- A key is one of the dict's if it has a value.
  pub member-keys :
      (key : Text) (d : List (Text × V)) → member key (keys d) ≡ is_some (dict_get key d)
  unfolding keys dict_get member
  member-keys key [] = refl
  member-keys key ((k, v) ∷ d) =
      ground (arith, text_eq_iff k key, text_eq_iff key k, member-keys key d)
