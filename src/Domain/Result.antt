-- ===== src/Domain/Result.antt =====
-- backend/src/app/domain/shared/result.py. A value or an error that is `None` is `none`.
use ndma_edit.Prelude.{Bool, true, false, not, Option, none, some, codes, ◌≡◌, refl, if◌then◌else◌}
use ndma_edit.Outcome.{Outcome, ok, err, value_error}

-- `Result`
pub record Result (T E : Type 0) : Type 0 where
  pub value_or_none : Option T
  pub error_or_none : Option E
  pub is_success : Bool

abbrev pub is_ok : {A : Type 0} → Outcome A → Bool
is_ok (ok x) = true
is_ok (err e) = false

module _ {T E : Type 0} where
  -- `Result.ok` and `Result.fail`
  unfoldable pub success : T → Result T E
  success value = record { value_or_none = some value; error_or_none = none; is_success = true }

  unfoldable pub fail : E → Result T E
  fail error = record { value_or_none = none; error_or_none = some error; is_success = false }

  unfoldable pub is_failure : Result T E → Bool
  is_failure r = not r.is_success

  unfoldable pub value : Result T E → Outcome (Option T)
  value r =
      if not r.is_success
      then err (value_error (codes "Cannot access .value on a failed Result"))
      else ok r.value_or_none

  unfoldable pub error : Result T E → Outcome (Option E)
  error r =
      if r.is_success
      then err (value_error (codes "Cannot access .error on a successful Result"))
      else ok r.error_or_none

  -- Of a result exactly one of the two accessors returns, and it is the one that `is_failure` tells.
  pub accessors_exclusive :
      (r : Result T E) → (is_ok (value r) ≡ r.is_success) × (is_ok (error r) ≡ is_failure r)
  unfolding value error is_failure
  accessors_exclusive r = by_flag r.is_success
    where
      by_flag :
          (b : Bool)
          → let r' = record r { is_success = b } in
            (is_ok (value r') ≡ b) × (is_ok (error r') ≡ not b)
      by_flag true = (refl, refl)
      by_flag false = (refl, refl)
