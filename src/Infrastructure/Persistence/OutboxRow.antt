-- ===== src/Infrastructure/Persistence/OutboxRow.antt =====
-- `_outbox_row_for` of backend/src/app/infrastructure/persistence/unit_of_work.py: the outbox row of
-- one event.
use ndma_edit.Prelude.{
  ℕ, Text, List, [], ◌∷◌, none, some, codes, text_eq, ◌≡◌, refl, if◌then◌else◌, ◌+◌,
}
use ndma_edit.Outcome.{Outcome, ok, err, value_error, ◌>>=◌}
use ndma_edit.Domain.Aggregate.{
  Time, DomainEvent, EventBody, user_registered, user_renamed, user_deactivated, event_type,
  body_type,
}
use ndma_edit.Infrastructure.Persistence.Models.{OutboxModel, Payload, pending}

-- `vars(event)` without the fields of `DomainEvent`.
unfoldable pub payload_of : EventBody → Payload
payload_of (user_registered email name) =
    (codes "email", some email) ∷ (codes "display_name", some name) ∷ []
payload_of (user_renamed old new) =
    (codes "old_display_name", some old) ∷ (codes "new_display_name", some new) ∷ []
payload_of (user_deactivated reason) = (codes "reason", reason) ∷ []

-- `type(event).__module__.split(".")`, of every event of the code.
unfoldable pub module_parts : DomainEvent → List Text
module_parts e =
    codes "app" ∷ codes "domain" ∷ codes "users" ∷ codes "events" ∷ codes "user_events" ∷ []

abbrev first_or_raise : List Text → Outcome Text
first_or_raise [] = err (value_error (codes "list index out of range"))
first_or_raise (t ∷ ts) = ok t

-- The part behind the first "domain", or "unknown".
unfoldable pub aggregate_type_of : List Text → Outcome Text
aggregate_type_of [] = ok (codes "unknown")
aggregate_type_of (t ∷ ts) =
    let later = aggregate_type_of ts in
    if text_eq t (codes "domain") then first_or_raise ts else later

unfoldable pub outbox_row_for : DomainEvent → ℕ → Time → Outcome OutboxModel
unfolding payload_of module_parts aggregate_type_of event_type
outbox_row_for e max_attempts now = do
  aggregate_type ← aggregate_type_of (module_parts e)
  ok (record {
    id = e.event_id;
    aggregate_type = aggregate_type;
    aggregate_id = e.aggregate_id;
    event_type = event_type e;
    payload = payload_of e.body;
    status = pending;
    attempt_count = 0;
    max_attempts = max_attempts;
    last_error = none;
    created_at = now;
    processed_at = none;
    available_at = now;
  })

-- The row that `outbox_row_for` makes, written out.
abbrev pub row_of : DomainEvent → ℕ → Time → OutboxModel
row_of e max_attempts now = record {
  id = e.event_id;
  aggregate_type = codes "users";
  aggregate_id = e.aggregate_id;
  event_type = body_type e.body;
  payload = payload_of e.body;
  status = pending;
  attempt_count = 0;
  max_attempts = max_attempts;
  last_error = none;
  created_at = now;
  processed_at = none;
  available_at = now;
}

pub outbox_row_for-eq-row_of :
    (e : DomainEvent) (max_attempts : ℕ) (now : Time)
    → outbox_row_for e max_attempts now ≡ ok (row_of e max_attempts now)
unfolding outbox_row_for text_eq codes
outbox_row_for-eq-row_of e max_attempts now = refl

-- The rows of several events. `now_at i` is the reading of the clock for the i-th row.
unfoldable pub outbox_rows : ℕ → (ℕ → Time) → ℕ → List DomainEvent → Outcome (List OutboxModel)
unfolding outbox_row_for
outbox_rows max_attempts now_at i [] = ok []
outbox_rows max_attempts now_at i (e ∷ es) = do
  row ← outbox_row_for e max_attempts (now_at i)
  rows ← outbox_rows max_attempts now_at (i + 1) es
  ok (row ∷ rows)

abbrev pub rows_of : ℕ → (ℕ → Time) → ℕ → List DomainEvent → List OutboxModel
rows_of max_attempts now_at i [] = []
rows_of max_attempts now_at i (e ∷ es) =
    row_of e max_attempts (now_at i) ∷ rows_of max_attempts now_at (i + 1) es

pub outbox_rows-eq-rows_of :
    (m : ℕ) (now_at : ℕ → Time) (i : ℕ) (es : List DomainEvent)
    → outbox_rows m now_at i es ≡ ok (rows_of m now_at i es)
unfolding outbox_rows
outbox_rows-eq-rows_of m now_at i [] = refl
outbox_rows-eq-rows_of m now_at i (e ∷ es) =
    rw (outbox_row_for-eq-row_of, outbox_rows-eq-rows_of m now_at (i + 1) es)
