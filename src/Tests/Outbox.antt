-- ===== src/Tests/Outbox.antt =====
-- The theorems on the relay's progress and on the welcome mail at concrete inputs.
use ndma_edit.Prelude.{
  ◌+◌, ◌≤◌, List, [], ◌∷◌, true, false, none, some, codes, ◌≡◌, refl, arith, All, inr, keep, change,
}
use ndma_edit.Outcome.{ok}
use ndma_edit.Infrastructure.Persistence.Models.{OutboxModel, published}
use ndma_edit.Infrastructure.Persistence.Database.{order_by}
use ndma_edit.Infrastructure.Persistence.Relay.{Round, relay_once, backoff_seconds}
use ndma_edit.Infrastructure.Persistence.Relay.Rounds.{rounds, IsSettled}
use ndma_edit.Infrastructure.Persistence.Relay.Work.{work, attempts_left}
use ndma_edit.Infrastructure.Persistence.Relay.Drain.{AllReach, enough_rounds_settle}
use ndma_edit.Infrastructure.Persistence.Relay.Final.{ids}
use ndma_edit.Infrastructure.Persistence.Relay.Published.{every_row_is_published}
use ndma_edit.Infrastructure.Mail.{Smtp, SmtpSettings, EmailMessage, send_sync}
use ndma_edit.Infrastructure.Mail.Headers.{mail_to}
use ndma_edit.Tests.Surroundings.{ascii}
use ndma_edit.Tests.Samples.{row}

-- Rounds of a broker that accepts nothing.
abbrev refusing : Round
refusing = record {
  now = 100_000_000_000;
  now_at = λ i. 7001 + i;
  answer = λ i m. some (codes "refused");
  is_locked = λ r. false;
  commits = true;
}

abbrev two_rows : List OutboxModel
two_rows = row 1 ∷ row 2 ∷ []

abbrev four_rounds : List Round
four_rounds = refusing ∷ refusing ∷ refusing ∷ refusing ∷ []

reaches : AllReach ascii 10 2 four_rounds two_rows
unfolding relay_once keep change order_by backoff_seconds
reaches = (
  record {
    through = refl;
    unlocked = (refl, (refl, tt));
    in_time = (omega arith, (omega arith, tt));
  },
  (
    record {
      through = refl;
      unlocked = (refl, (refl, tt));
      in_time = (omega arith, (omega arith, tt));
    },
    (
      record {
        through = refl;
        unlocked = (refl, (refl, tt));
        in_time = (omega arith, (omega arith, tt));
      },
      (
        record {
          through = refl;
          unlocked = (refl, (refl, tt));
          in_time = (omega arith, (omega arith, tt));
        },
        tt,
      ),
    ),
  ),
)

small : work 2 two_rows ≤ 4
unfolding attempts_left
small = omega arith

enough_rounds_settle_example : All (IsSettled ascii 10 2) (rounds ascii 10 2 four_rounds two_rows)
enough_rounds_settle_example =
    enough_rounds_settle ascii 10 2 four_rounds two_rows (omega arith)
      (((λ h. absurd (omega arith)), tt), (tt, tt)) reaches small

abbrev accepting : Round
accepting = record refusing { answer = λ i m. none }

both_reach : AllReach ascii 10 1 (accepting ∷ accepting ∷ []) two_rows
unfolding relay_once keep change order_by
both_reach = (
  record {
    through = refl;
    unlocked = (refl, (refl, tt));
    in_time = (omega arith, (omega arith, tt));
  },
  (
    record {
      through = refl;
      unlocked = (refl, (refl, tt));
      in_time = (omega arith, (omega arith, tt));
    },
    tt,
  ),
)

every_row_is_published_example :
    (ids (rounds ascii 10 1 (accepting ∷ accepting ∷ []) two_rows) ≡ ids two_rows)
    × All
        (λ (r : OutboxModel). r.id ≡ 2 → r.status ≡ published)
        (rounds ascii 10 1 (accepting ∷ accepting ∷ []) two_rows)
unfolding attempts_left
every_row_is_published_example =
    every_row_is_published ascii 10 1 2 (accepting ∷ accepting ∷ []) two_rows (omega arith)
      (((λ h. absurd (omega arith)), tt), (tt, tt)) both_reach ((λ i m. refl), ((λ i m. refl), tt))
      ((λ h. inr (refl, omega arith)), ((λ h. inr (refl, omega arith)), tt)) (omega arith)

-- An SMTP server that takes every mail, and those that it has taken.
abbrev taking : Smtp (List EmailMessage)
taking = record {
  connect = λ host port taken. (ok tt, taken);
  starttls = λ taken. (ok tt, taken);
  send_message = λ message taken. (ok tt, message ∷ taken);
  quit = λ taken. taken;
}

abbrev smtp_settings : SmtpSettings
smtp_settings = record {
  host = codes "mail";
  port = 25;
  from_address = codes "no-reply@example.com";
  use_tls = true;
}

one_mail_is_taken :
    send_sync taking smtp_settings
      (mail_to smtp_settings (codes "ada@example.com") (codes "Ada"))
      []
    ≡ (ok tt, mail_to smtp_settings (codes "ada@example.com") (codes "Ada") ∷ [])
unfolding send_sync
one_mail_is_taken = refl
