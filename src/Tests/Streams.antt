-- ===== src/Tests/Streams.antt =====
-- A stream server with one consumer group, by lists, and a sender that keeps what it sent.
use ndma_edit.Prelude.{
  sym, Text, List, [], ◌∷◌, ◌++◌, map, not, keep, head?, Option, none, codes, ◌≡◌, refl,
}
use ndma_edit.Outcome.{ok_inj, Outcome, Error, ok, err, type_error}
use ndma_edit.Application.Users.Integration.{NotificationSender}
use ndma_edit.Infrastructure.Messaging.{Received, Fields, Streams, MessageHandler}
use ndma_edit.Infrastructure.Messaging.Consumer.{Groups}
use ndma_edit.Infrastructure.Messaging.Consumer.Pending.{
  Delivery, GroupView, first_delivery, is_for, same_received, times_of,
}

pub record Server : Type 0 where
  pub inbox : List (Received × Text × Fields)
  pub pending : List Delivery
  pub dead : List (Received × Fields)
  pub mails : List (Option Text × Option Text)

abbrev pub empty_server : Server
empty_server = record { inbox = []; pending = []; dead = []; mails = [] }

abbrev pub server_streams : Streams Server
server_streams = record {
  xadd = λ stream fields s. (ok tt, s);
  dead_letter = λ stream fields s. (ok tt, record s { dead = s.dead ++ (stream, fields) ∷ [] });
  xack = λ stream group entry_id s.
      (ok tt, record s { pending = keep (λ d. not (is_for stream entry_id d)) s.pending });
  xpending_first = λ stream group name s.
      ok (times_of (head? (keep (λ d. same_received stream d.stream) s.pending)));
}

abbrev pub server_groups : Groups Server
server_groups = record {
  xgroup_create = λ stream group s. (none, s);
  xreadgroup = λ group name streams s.
      (ok s.inbox, record s { inbox = []; pending = s.pending ++ map first_delivery s.inbox });
}

pub no_failure : {A : Type 0} (s : Server) (e : Error) → Outcome.ok s.inbox ≡ err e → A
no_failure s e h = absurd (cc)

pub read_same :
    (s : Server) (entries : List (Received × Text × Fields))
    → Outcome.ok s.inbox ≡ ok entries
    → s.pending ++ map first_delivery s.inbox ≡ s.pending ++ map first_delivery entries
read_same s entries h = cc

abbrev pub server_view : (group name : Text) → GroupView server_groups server_streams group name
server_view group name = record {
  pending = λ s. s.pending;
  dead_letters = λ s. s.dead;
  pending-read = λ names s entries h. read_same s entries h;
  pending-read_failed = λ names s e h. no_failure s e h;
  dead_letters-read = λ names s. refl;
  pending-ack = λ stream entry_id s. refl;
  dead_letters-ack = λ stream entry_id s. refl;
  dead_letters-add = λ stream fields s. refl;
  xpending_lem = λ stream s first h. sym (ok_inj h);
}

-- A sender that keeps what it sent, and a handler that always raises.
abbrev pub keeping_sender : NotificationSender Server
keeping_sender to_email display_name s =
    (ok tt, record s { mails = (to_email, display_name) ∷ s.mails })

abbrev pub failing : MessageHandler Server
failing m s = (err (type_error (codes "no")), s)
