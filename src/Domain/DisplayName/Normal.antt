-- ===== src/Domain/DisplayName/Normal.antt =====
-- What `DisplayName(raw)` accepts, and which names the reserved-name policy rejects.
use ndma_edit.Prelude.{Text, false, is_empty, length, strip, ◌≤◌, ◌≡◌, sym, ◌↔◌, arith}
use ndma_edit.Prelude.Strip.{strip_idem}
use ndma_edit.Outcome.{ok, >>=-eq-ok}
use ndma_edit.Runtime.{Runtime}
use ndma_edit.Domain.DisplayName.{DisplayName, max_length, validate, new_display_name, is_reserved}

-- A text that passes the checks of `DisplayName._validate`.
pub record IsValidName (value : Text) : Type 0 where
  pub nonempty : is_empty value ≡ false
  pub short : length value ≤ max_length

validate→valid : (t : Text) → validate t ≡ ok tt → IsValidName t
unfolding validate
validate→valid t h = record { nonempty = ground arith; short = ground arith }

valid→validate : (t : Text) → IsValidName t → validate t ≡ ok tt
unfolding validate
valid→validate t v = let nonempty = v.nonempty in let short = v.short in ground arith

-- `DisplayName(raw)` returns `n` exactly when `n` holds the stripped text and that text has between
-- 1 and 120 characters.
pub new_display_name_iff :
    (raw : Text) (n : DisplayName)
    → (new_display_name raw ≡ ok n) ↔ ((n.value ≡ strip raw) × IsValidName n.value)
unfolding new_display_name
new_display_name_iff raw n = (
  λ h.
      let (u, passed, made) = >>=-eq-ok (validate (strip raw)) _ h in
      let same : n.value ≡ strip raw = cc in (same, rw same (validate→valid _ passed)),
  λ v. let passed = valid→validate n.value v.1 in rw (← v.0, passed),
)

-- A name that was accepted once is accepted again, and is its own normal form.
pub new_display_name_stable :
    (raw : Text) (n : DisplayName) → new_display_name raw ≡ ok n → new_display_name n.value ≡ ok n
new_display_name_stable raw n h =
    let (same, valid) = (new_display_name_iff raw n).0 h in
    (new_display_name_iff n.value n).1 (rw same (sym (strip_idem raw)), valid)

-- Whether a name is reserved does not depend on its case or on the whitespace round it.
pub is_reserved_normal :
    (rt : Runtime) (value : Text) → is_reserved rt (rt.lower (strip value)) ≡ is_reserved rt value
unfolding is_reserved
is_reserved_normal rt value = rw (rt.strip-lower (strip value), strip_idem, rt.lower_idem)
