-- ===== src/Application/Users/Integration.antt =====
-- backend/src/app/application/users/handlers/user_registered_integration_handler.py, the port of
-- backend/src/app/application/common/interfaces/notification_sender.py.
use ndma_edit.Prelude.{Text, List, [], ◌∷◌, Option, codes, text_eq, if◌then◌else◌}
use ndma_edit.Outcome.{Outcome, ok, err, key_error, ◌>>=◌}
use ndma_edit.Application.Ports.{OutboundMessage}

-- `NotificationSender.send_welcome_email`, of an address and a name; `none` is a null.
abbrev pub NotificationSender : Type 0 → Type 0
NotificationSender S = Option Text → Option Text → S → Outcome (Unit {0}) × S

-- `payload[name]`
unfoldable pub item : Text → List (Text × Option Text) → Outcome (Option Text)
item name [] = err (key_error name)
item name ((n, v) ∷ payload) = let rest = item name payload in if text_eq name n then ok v else rest

abbrev send_to :
    {S : Type 0}
    → NotificationSender S
    → Outcome (Option Text × Option Text)
    → S
    → Outcome (Unit {0}) × S
send_to sender (ok (to_email, display_name)) s = sender to_email display_name s
send_to sender (err e) s = (err e, s)

-- `UserRegisteredIntegrationHandler.handle`
unfoldable pub welcome_handler :
    {S : Type 0} → NotificationSender S → OutboundMessage → S → Outcome (Unit {0}) × S
unfolding item
welcome_handler sender message = send_to sender (do
  to_email ← item (codes "email") message.payload
  display_name ← item (codes "display_name") message.payload
  ok (to_email, display_name))
