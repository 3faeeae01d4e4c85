-- ===== src/Domain/Email.antt =====
-- backend/src/app/domain/users/value_objects/email.py: the value object `Email`.
pub mod Pattern
pub mod Normal
pub mod Parts
use Pattern.{email_pattern}
use ndma_edit.Prelude.{
  ℕ, Text, Bool, true, false, not, [], ◌∷◌, ◌++◌, ◌==◌, is_empty, length, ltb, strip, codes,
  has_char, if◌then◌else◌,
}
use ndma_edit.Outcome.{Outcome, ok, invalid_value_object, ◌>>=◌, ◌>>◌, raise_if}
use ndma_edit.Runtime.{Runtime}

pub record Email : Type 0 where
  pub value : Text

-- `_MAX_LENGTH`
abbrev pub max_length : ℕ
max_length = 254

-- `Email._validate`
unfoldable pub validate : Text → Outcome (Unit {0})
validate value = do
  raise_if (is_empty value) (invalid_value_object (codes "Email must not be empty"))
  raise_if (ltb max_length (length value))
      (invalid_value_object (codes "Email must not exceed 254 characters"))
  raise_if (not (email_pattern value))
      (invalid_value_object (codes "'" ++ value ++ codes "' is not a valid email address"))

-- `Email(raw)`: `__post_init__` normalizes, then validates.
unfoldable pub new_email : Runtime → Text → Outcome Email
unfolding validate
new_email rt raw = do
  let value = rt.lower (strip raw)
  validate value
  ok (record { value = value })

-- The text behind the last `c`, or all of it: `rsplit(c, 1)[-1]`.
unfoldable pub after_last : ℕ → Text → Text
after_last c [] = []
after_last c (d ∷ s) =
    let later = after_last c s in if has_char c s then later else if d == c then s else d ∷ s

-- `Email.domain`
unfoldable pub domain : Email → Text
unfolding after_last
domain e = after_last b'@' e.value
