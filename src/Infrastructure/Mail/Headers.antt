-- ===== src/Infrastructure/Mail/Headers.antt =====
-- The headers of the welcome mail that
-- backend/src/app/infrastructure/external/email/smtp_email_sender.py makes for an accepted address.
use ndma_edit.Prelude.{
  ℕ, Text, true, false, [], ◌∷◌, ◌++◌, codes, All, ◌≡◌, refl, ◌∙◌, ap, arith, is_space,
}
use ndma_edit.Outcome.{ok}
use ndma_edit.Runtime.{Runtime}
use ndma_edit.Domain.Email.{Email}
use ndma_edit.Domain.Email.Pattern.{is_atom, end_of_text, IsAddress}
use ndma_edit.Infrastructure.Mail.{
  is_line_break, has_many_lines, header, SmtpSettings, EmailMessage, welcome_message,
}

-- A character that ends no line adds no line in front of a text.
one_before :
    (c : ℕ) (s : Text) → is_line_break c ≡ false → has_many_lines (c ∷ s) ≡ has_many_lines s
unfolding has_many_lines
one_before c [] h = refl
one_before c (d ∷ s) h = rw h refl

-- Every line break is whitespace.
atom-is_line_break : (c : ℕ) → is_atom c ≡ true → is_line_break c ≡ false
unfolding is_atom is_space is_line_break
atom-is_line_break c h = ground arith

many_before :
    (front back : Text)
    → All (λ c. is_atom c ≡ true) front
    → has_many_lines (front ++ back) ≡ has_many_lines back
many_before [] back h = refl
many_before (c ∷ front) back h =
    one_before c (front ++ back) (atom-is_line_break c h.0) ∙ many_before front back h.1

end-has_many_lines : (rest : Text) → end_of_text rest ≡ true → has_many_lines rest ≡ false
unfolding end_of_text has_many_lines
end-has_many_lines [] h = refl
end-has_many_lines (c ∷ []) h = refl
end-has_many_lines (c ∷ d ∷ s) h = absurd (ground arith)

-- An address is one line.
address-has_many_lines : (t : Text) → IsAddress t → has_many_lines t ≡ false
unfolding is_line_break
address-has_many_lines t a =
    ap has_many_lines a.split
    ∙ many_before a.mailbox (b'@' ∷ (a.host ++ b'.' ∷ (a.tld ++ a.rest))) a.mailbox-IsRun.inside
    ∙ one_before b'@' (a.host ++ b'.' ∷ (a.tld ++ a.rest)) refl
    ∙ many_before a.host (b'.' ∷ (a.tld ++ a.rest)) a.host-IsRun.inside
    ∙ one_before b'.' (a.tld ++ a.rest) refl
    ∙ many_before a.tld a.rest a.tld-IsRun.inside
    ∙ end-has_many_lines a.rest a.ended

header-one_line : (value : Text) → has_many_lines value ≡ false → header value ≡ ok value
unfolding header
header-one_line value h = rw h refl

subject-has_many_lines : has_many_lines (codes "Welcome!") ≡ false
unfolding has_many_lines is_line_break codes
subject-has_many_lines = refl

-- The welcome mail of a user.
abbrev pub mail_to : SmtpSettings → Text → Text → EmailMessage
mail_to settings to_email display_name = record {
  from_header = settings.from_address;
  to_header = to_email;
  subject = codes "Welcome!";
  content = codes "Hi " ++ display_name ++ codes ", welcome aboard.";
}

pub welcome_message-of_address :
    (settings : SmtpSettings) (to_email display_name : Text)
    → has_many_lines settings.from_address ≡ false
    → IsAddress to_email
    → welcome_message settings to_email display_name ≡ ok (mail_to settings to_email display_name)
unfolding welcome_message
welcome_message-of_address settings to_email display_name from_ok a =
    rw
      (
        header-one_line settings.from_address from_ok,
        header-one_line to_email (address-has_many_lines to_email a),
        header-one_line (codes "Welcome!") subject-has_many_lines,
      )
      refl
