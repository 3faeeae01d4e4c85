-- ===== src/Domain/DisplayName.antt =====
-- backend/src/app/domain/users/value_objects/display_name.py and
-- backend/src/app/domain/users/services/reserved_name_policy.py.
pub mod Normal
use ndma_edit.Prelude.{
  ℕ, Text, List, [], ◌∷◌, ◌++◌, is_empty, length, ltb, strip, codes, member, Bool,
}
use ndma_edit.Outcome.{
  Outcome, ok, invalid_value_object, business_rule_violation, ◌>>=◌, ◌>>◌, raise_if,
}
use ndma_edit.Runtime.{Runtime}

pub record DisplayName : Type 0 where
  pub value : Text

-- `_MAX_LENGTH`
abbrev pub max_length : ℕ
max_length = 120

-- `DisplayName._validate`
unfoldable pub validate : Text → Outcome (Unit {0})
validate value = do
  raise_if (is_empty value) (invalid_value_object (codes "Display name must not be empty"))
  raise_if (ltb max_length (length value))
      (invalid_value_object (codes "Display name must not exceed 120 characters"))

-- `DisplayName(raw)`: `__post_init__` strips, then validates.
unfoldable pub new_display_name : Text → Outcome DisplayName
unfolding validate
new_display_name raw = do let value = strip raw; validate value; ok (record { value = value })

-- `_RESERVED_NAMES`
unfoldable pub reserved_names : List Text
reserved_names =
    codes "admin" ∷ codes "root" ∷ codes "system" ∷ codes "support" ∷ codes "moderator" ∷ []

-- `display_name.value.strip().lower() in _RESERVED_NAMES`
unfoldable pub is_reserved : Runtime → Text → Bool
is_reserved rt value = member (rt.lower (strip value)) reserved_names

-- `ReservedDisplayNamePolicy.ensure_allowed`
unfoldable pub ensure_allowed : Runtime → DisplayName → Outcome (Unit {0})
unfolding is_reserved
ensure_allowed rt name = raise_if (is_reserved rt name.value) (
    business_rule_violation (
      codes "'" ++ name.value ++ codes "' is a reserved name and cannot be used as a display name"))
