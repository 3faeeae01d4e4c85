-- ===== src/Domain/Email/Parts.antt =====
-- The two sides of an accepted address, and `Email.domain`.
use ndma_edit.Prelude.{ℕ, Text, true, false, [], ◌∷◌, ◌++◌, has_char, ◌≡◌, refl, All, arith}
use ndma_edit.Outcome.{ok}
use ndma_edit.Runtime.{Runtime}
use ndma_edit.Domain.Email.{Email, new_email, domain, after_last}
use ndma_edit.Domain.Email.Pattern.{is_atom, end_of_text, IsAddress}
use ndma_edit.Domain.Email.Normal.{new_email_iff}

has_char-append_none :
    (c : ℕ) (s t : Text) → has_char c s ≡ false → has_char c t ≡ false → has_char c (s ++ t) ≡ false
unfolding has_char
has_char-append_none c [] t h k = k
has_char-append_none c (d ∷ s) t h k = ground (arith, has_char-append_none c s t)

has_char-append_mid : (c : ℕ) (s t : Text) → has_char c (s ++ c ∷ t) ≡ true
unfolding has_char
has_char-append_mid c [] t = ground arith
has_char-append_mid c (d ∷ s) t = ground (arith, has_char-append_mid c s t)

after_last_absent : (c : ℕ) (s : Text) → has_char c s ≡ false → after_last c s ≡ s
unfolding after_last has_char
after_last_absent c [] h = refl
after_last_absent c (d ∷ s) h = ground arith

-- The text behind the last of several marks is what follows a mark with none behind it.
after_last-append : (c : ℕ) (s t : Text) → has_char c t ≡ false → after_last c (s ++ c ∷ t) ≡ t
unfolding after_last
after_last-append c [] t h = rw h (ground arith)
after_last-append c (d ∷ s) t h = rw (has_char-append_mid c s t) (after_last-append c s t h)

has_char-atoms : (s : Text) → All (λ c. is_atom c ≡ true) s → has_char b'@' s ≡ false
unfolding has_char is_atom
has_char-atoms [] h = refl
has_char-atoms (c ∷ s) h = ground (arith, has_char-atoms s h.1)

has_char-end : (s : Text) → end_of_text s ≡ true → has_char b'@' s ≡ false
unfolding has_char end_of_text
has_char-end [] h = refl
has_char-end (c ∷ []) h = ground arith
has_char-end (c ∷ d ∷ s) h = ground arith

has_char_after_dot : (s : Text) → has_char b'@' s ≡ false → has_char b'@' (b'.' ∷ s) ≡ false
unfolding has_char
has_char_after_dot s h = ground arith

has_char-host :
    {t : Text} (a : IsAddress t) → has_char b'@' (a.host ++ b'.' ∷ (a.tld ++ a.rest)) ≡ false
has_char-host a =
    let behind =
      has_char-append_none b'@' a.tld a.rest (has_char-atoms a.tld a.tld-IsRun.inside)
        (has_char-end a.rest a.ended) in
    has_char-append_none b'@' a.host (b'.' ∷ (a.tld ++ a.rest))
      (has_char-atoms a.host a.host-IsRun.inside) (has_char_after_dot (a.tld ++ a.rest) behind)

-- An accepted address is one mailbox, one at sign and `domain`: neither side holds an at sign.
pub domain_split :
    (rt : Runtime) (raw : Text) (e : Email)
    → new_email rt raw ≡ ok e
    → (mailbox : Text) × (e.value ≡ mailbox ++ b'@' ∷ domain e)
      × (has_char b'@' mailbox ≡ false)
      × (has_char b'@' (domain e) ≡ false)
unfolding domain
domain_split rt raw e h =
    let a = ((new_email_iff rt raw e).0 h).1.address in
    let behind =
      after_last-append b'@' a.mailbox (a.host ++ b'.' ∷ (a.tld ++ a.rest)) (has_char-host a) in
    let same : after_last b'@' e.value ≡ a.host ++ b'.' ∷ (a.tld ++ a.rest) = rw a.split behind in
    (
      a.mailbox,
      rw same a.split,
      has_char-atoms a.mailbox a.mailbox-IsRun.inside,
      rw same (has_char-host a),
    )
