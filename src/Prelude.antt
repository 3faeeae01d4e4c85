-- ===== src/Prelude.antt =====
-- The names that the other modules share: the libraries', passed on, and those of the children.
mod Tests
mod Lists
mod Strings
pub mod Strip
pub mod Dict
pub use Tests.*
pub use Lists.{
  length, take, drop, head?, All, length-append, length-take, length-drop, length-change,
  change_none, length-keep-le, All-keep, All-map, All-keep_of, keep-All, keep_nothing, All-take,
  All-append, length-map,
}
unfoldable pub use Lists.{keep, change}
pub use Strings.{Text, text_eq→eq, text_eq_refl, text_eq_iff, is_empty, member-append}
unfoldable pub use Strings.{codes, text_eq, has_char, member, is_space, lstrip, rstrip, strip}
pub use Prim.Native.Nat.{ℕ, zero, suc, ◌+◌, ◌-◌, ◌*◌, ◌^◌, ◌≤◌, ◌<◌, min}
pub use mathlib.Core.Path.{◌≡◌, refl, sym, ap, ◌∙◌, subst, fun_ext}
pub use mathlib.Core.Logic.{◌≢◌, ◌↔◌, ◌⊎◌, inl, inr}
pub use mathlib.Core.Bool.{Bool, true, false, not, ◌&&◌, ◌||◌}
pub use mathlib.Core.Option.{Option, none, some}
pub use mathlib.Core.List.{List, [], ◌∷◌, ◌++◌, map}
pub use mathlib.Core.List.{append-nil, append_assoc}
pub use native.Mathlib.Omega.{arith}
