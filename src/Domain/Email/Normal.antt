-- ===== src/Domain/Email/Normal.antt =====
-- What `Email(raw)` accepts, and that normalizing twice is normalizing once.
use ndma_edit.Prelude.{
  Text, false, [], ◌∷◌, ◌++◌, is_empty, length, strip, ◌≤◌, ◌≡◌, refl, sym, ◌↔◌, arith,
}
use ndma_edit.Prelude.Strip.{strip_idem}
use ndma_edit.Outcome.{>>=-eq-ok, ok}
use ndma_edit.Runtime.{Runtime}
use ndma_edit.Domain.Email.{Email, max_length, validate, new_email}
use ndma_edit.Domain.Email.Pattern.{email_pattern_iff, IsAddress}

-- A text that passes the checks of `Email._validate`.
pub record IsValidEmail (value : Text) : Type 0 where
  pub short : length value ≤ max_length
  pub address : IsAddress value

start : (m r : Text) → is_empty (m ++ b'@' ∷ r) ≡ false
start [] r = refl
start (c ∷ m) r = refl

nonempty_of_address : (t : Text) → IsAddress t → is_empty t ≡ false
nonempty_of_address t a = rw a.split (start a.mailbox _)

validate→valid : (t : Text) → validate t ≡ ok tt → IsValidEmail t
unfolding validate
validate→valid t h = record {
  short = ground arith;
  address = (email_pattern_iff t).0 (ground arith);
}

valid→validate : (t : Text) → IsValidEmail t → validate t ≡ ok tt
unfolding validate
valid→validate t v =
    let matched = (email_pattern_iff t).1 v.address in
    let nonempty = nonempty_of_address t v.address in let short = v.short in ground arith

-- `Email(raw)` returns `e` exactly when `e` holds the stripped, lower-case text and that text has at
-- most 254 characters and the form of an address.
pub new_email_iff :
    (rt : Runtime) (raw : Text) (e : Email)
    → (new_email rt raw ≡ ok e) ↔ ((e.value ≡ rt.lower (strip raw)) × IsValidEmail e.value)
unfolding new_email
new_email_iff rt raw e = (
  λ h.
      let (u, passed, made) = >>=-eq-ok (validate (rt.lower (strip raw))) _ h in
      let same : e.value ≡ rt.lower (strip raw) = cc in (same, rw same (validate→valid _ passed)),
  λ v. let passed = valid→validate e.value v.1 in rw (← v.0, passed),
)

lower-strip_stable :
    (rt : Runtime) (raw : Text) → rt.lower (strip (rt.lower (strip raw))) ≡ rt.lower (strip raw)
lower-strip_stable rt raw = rw (rt.strip-lower (strip raw), strip_idem, rt.lower_idem)

-- An address that was accepted once is accepted again, and is its own normal form.
pub new_email_stable :
    (rt : Runtime) (raw : Text) (e : Email) → new_email rt raw ≡ ok e → new_email rt e.value ≡ ok e
new_email_stable rt raw e h =
    let (same, valid) = (new_email_iff rt raw e).0 h in
    (new_email_iff rt e.value e).1 (rw same (sym (lower-strip_stable rt raw)), valid)
