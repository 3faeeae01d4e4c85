-- ===== src/Infrastructure/Mail.antt =====
-- backend/src/app/infrastructure/external/email: the two senders. What an SMTP server answers is an
-- argument.
pub mod Headers
use ndma_edit.Prelude.{
  ℕ, Text, [], ◌∷◌, ◌++◌, Bool, true, false, Option, codes, leb, ◌==◌, ◌||◌, ◌&&◌, not, is_empty,
  if◌then◌else◌,
}
use ndma_edit.Outcome.{Outcome, ok, err, value_error, ◌>>=◌, ◌and_then◌}
use ndma_edit.Application.Users.Integration.{NotificationSender}

-- The line that `ConsoleEmailSender` logs.
pub record WelcomeSent : Type 0 where
  pub to_email : Option Text
  pub display_name : Option Text

-- `ConsoleEmailSender.send_welcome_email`, with the logger
unfoldable pub console_sender : {S : Type 0} → (WelcomeSent → S → S) → NotificationSender S
console_sender log to_email display_name s =
    (ok tt, log (record { to_email = to_email; display_name = display_name }) s)

pub record SmtpSettings : Type 0 where
  pub host : Text
  pub port : ℕ
  pub from_address : Text
  pub use_tls : Bool

-- An `EmailMessage` as the sender fills it: the texts of its headers. That `send_message` reads the
-- text behind "To" as a list of addresses is a matter of `Smtp`.
pub record EmailMessage : Type 0 where
  pub from_header : Text
  pub to_header : Text
  pub subject : Text
  pub content : Text

-- The characters at which `str.splitlines` ends a line.
unfoldable pub is_line_break : ℕ → Bool
is_line_break c =
    (leb 10 c && leb c 13) || (leb 28 c && leb c 30) || c == 0x85 || c == 0x2028 || c == 0x2029

-- `len(value.splitlines()) > 1`; a carriage return and a line feed are one break.
unfoldable pub has_many_lines : Text → Bool
unfolding is_line_break
has_many_lines [] = false
has_many_lines (c ∷ []) = false
has_many_lines (c ∷ d ∷ s) =
    let later = has_many_lines (d ∷ s) in
    if is_line_break c then not (c == 13 && d == 10 && is_empty s) else later

-- The text of a header; one of several lines raises.
unfoldable pub header : Text → Outcome Text
unfolding has_many_lines
header value =
    if has_many_lines value
    then err
        (value_error (codes "Header values may not contain linefeed or carriage return characters"))
    else ok value

-- What `smtplib` does: `SMTP(host, port)`, `starttls`, `send_message`, and `quit` at the end of the
-- `with` block.
pub record Smtp (S : Type 0) : Type 0 where
  pub connect : Text → ℕ → S → Outcome (Unit {0}) × S
  pub starttls : S → Outcome (Unit {0}) × S
  pub send_message : EmailMessage → S → Outcome (Unit {0}) × S
  pub quit : S → S

-- The message of `send_welcome_email`.
unfoldable pub welcome_message : SmtpSettings → Text → Text → Outcome EmailMessage
unfolding header
welcome_message settings to_email display_name = do
  from_header ← header settings.from_address
  to_header ← header to_email
  subject ← header (codes "Welcome!")
  ok (record {
    from_header = from_header;
    to_header = to_header;
    subject = subject;
    content = codes "Hi " ++ display_name ++ codes ", welcome aboard.";
  })

module _ {S : Type 0} (smtp : Smtp S) (settings : SmtpSettings) where
  unfoldable pub secured : Bool → S → Outcome (Unit {0}) × S
  secured true s = smtp.starttls s
  secured false s = (ok tt, s)

  -- The end of the `with` block.
  abbrev pub closed : Outcome (Unit {0}) × S → Outcome (Unit {0}) × S
  closed (r, s) = (r, smtp.quit s)

  -- `_send_sync`
  unfoldable pub send_sync : EmailMessage → S → Outcome (Unit {0}) × S
  unfolding secured
  send_sync message s = smtp.connect settings.host settings.port s and_then λ _ s1.
      closed (secured settings.use_tls s1 and_then λ _. smtp.send_message message)

  abbrev sent : Outcome EmailMessage → S → Outcome (Unit {0}) × S
  sent (ok message) s = send_sync message s
  sent (err e) s = (err e, s)

  -- `SmtpEmailSender.send_welcome_email`, of the texts that its port promises
  unfoldable pub smtp_welcome : Text → Text → S → Outcome (Unit {0}) × S
  unfolding welcome_message send_sync
  smtp_welcome to_email display_name = sent (welcome_message settings to_email display_name)
