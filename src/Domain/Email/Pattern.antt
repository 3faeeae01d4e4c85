-- ===== src/Domain/Email/Pattern.antt =====
-- The pattern `^[^@\s]+@[^@\s]+\.[^@\s]+$` of backend/src/app/domain/users/value_objects/email.py, as
-- a backtracking matcher: each piece is given the match of what follows it.
use ndma_edit.Prelude.{
  ℕ, Text, Bool, true, false, not, ◌&&◌, ◌||◌, [], ◌∷◌, ◌++◌, ◌==◌, is_space, is_empty, All, ◌≡◌,
  refl, ◌↔◌, inl, inr, arith, Bool-cases,
}

-- `[^@\s]`
unfoldable pub is_atom : ℕ → Bool
is_atom c = not (c == b'@') && not (is_space c)

-- One or more characters of a class, then `k`.
unfoldable pub plus : (ℕ → Bool) → (Text → Bool) → Text → Bool
plus p k [] = false
plus p k (c ∷ s) = p c && (k s || plus p k s)

-- One given character, then `k`.
unfoldable pub literal : ℕ → (Text → Bool) → Text → Bool
literal c k [] = false
literal c k (d ∷ s) = d == c && k s

-- `$`: the end, or a line feed at the end.
unfoldable pub end_of_text : Text → Bool
end_of_text [] = true
end_of_text (c ∷ s) = c == 10 && is_empty s

unfoldable pub email_pattern : Text → Bool
unfolding is_atom plus literal end_of_text
email_pattern = plus is_atom (literal b'@' (plus is_atom (literal b'.' (plus is_atom end_of_text))))

-- One or more characters of a class.
pub record IsRun (p : ℕ → Bool) (s : Text) : Type 0 where
  pub nonempty : is_empty s ≡ false
  pub inside : All (λ c. p c ≡ true) s

-- The texts that the pattern describes.
pub record IsAddress (t : Text) : Type 0 where
  pub mailbox : Text
  pub host : Text
  pub tld : Text
  pub rest : Text
  pub mailbox-IsRun : IsRun is_atom mailbox
  pub host-IsRun : IsRun is_atom host
  pub tld-IsRun : IsRun is_atom tld
  pub ended : end_of_text rest ≡ true
  pub split : t ≡ mailbox ++ b'@' ∷ (host ++ b'.' ∷ (tld ++ rest))

module _ (p : ℕ → Bool) (k : Text → Bool) where
  plus→run : (t : Text) → plus p k t ≡ true → (s r : Text) × IsRun p s × (k r ≡ true) × (t ≡ s ++ r)
  unfolding plus
  plus→run [] h = cc
  plus→run (c ∷ t) h = elim (Bool-cases (k t)) [
    | inl here ↦ (c ∷ [], t, record { nonempty = refl; inside = ground arith }, here, refl)
    | inr later ↦
        (let (s, r, run, after, e) = plus→run t (ground arith) in
          (c ∷ s, r, record { nonempty = refl; inside = (ground arith, run.inside) }, after, rw e))
  ]

  run→plus : (s r : Text) → IsRun p s → k r ≡ true → plus p k (s ++ r) ≡ true
  unfolding plus
  run→plus [] r h e = absurd (cc h.nonempty)
  run→plus (c ∷ []) r h e = ground (arith, h.inside.0)
  run→plus (c ∷ d ∷ s) r h e =
      ground
        (arith, h.inside.0, run→plus (d ∷ s) r (record { nonempty = refl; inside = h.inside.1 }) e)

literal→cons :
    (c : ℕ) (k : Text → Bool) (t : Text)
    → literal c k t ≡ true
    → (s : Text) × (t ≡ c ∷ s) × (k s ≡ true)
unfolding literal
literal→cons c k [] h = cc
literal→cons c k (d ∷ s) h = (s, ground arith, ground arith)

cons→literal : (c : ℕ) (k : Text → Bool) (s : Text) → k s ≡ true → literal c k (c ∷ s) ≡ true
unfolding literal
cons→literal c k s h = ground arith

pattern→address : (t : Text) → email_pattern t ≡ true → IsAddress t
unfolding email_pattern
pattern→address t h =
    let (m, r₁, run₁, h₁, e₁) = plus→run is_atom _ t h in
    let (s₁, f₁, g₁) = literal→cons b'@' _ r₁ h₁ in
    let (d, r₂, run₂, h₂, e₂) = plus→run is_atom _ s₁ g₁ in
    let (s₂, f₂, g₂) = literal→cons b'.' _ r₂ h₂ in
    let (l, r₃, run₃, h₃, e₃) = plus→run is_atom _ s₂ g₂ in
    record {
      mailbox = m;
      host = d;
      tld = l;
      rest = r₃;
      mailbox-IsRun = run₁;
      host-IsRun = run₂;
      tld-IsRun = run₃;
      ended = h₃;
      split = rw (e₁, f₁, e₂, f₂, e₃);
    }

address→pattern : (t : Text) → IsAddress t → email_pattern t ≡ true
unfolding email_pattern
address→pattern t a = rw a.split (
    run→plus is_atom after_mailbox a.mailbox (b'@' ∷ after_at) a.mailbox-IsRun (
      cons→literal b'@' host_pattern after_at (
        run→plus is_atom after_host a.host (b'.' ∷ (a.tld ++ a.rest)) a.host-IsRun (
          cons→literal b'.' tld_pattern (a.tld ++ a.rest)
            (run→plus is_atom end_of_text a.tld a.rest a.tld-IsRun a.ended)))))
  where
    tld_pattern : Text → Bool
    tld_pattern = plus is_atom end_of_text

    after_host : Text → Bool
    after_host = literal b'.' tld_pattern

    host_pattern : Text → Bool
    host_pattern = plus is_atom after_host

    after_mailbox : Text → Bool
    after_mailbox = literal b'@' host_pattern

    after_at : Text
    after_at = a.host ++ b'.' ∷ (a.tld ++ a.rest)

-- The matcher accepts a text exactly when it is one or more plain characters, an at sign, one or
-- more plain characters, a full stop, one or more plain characters, and the end of the text or a
-- last line feed; a plain character is no at sign and no whitespace.
pub email_pattern_iff : (t : Text) → (email_pattern t ≡ true) ↔ IsAddress t
email_pattern_iff t = (pattern→address t, address→pattern t)
