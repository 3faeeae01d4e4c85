-- ===== src/Infrastructure/Persistence/Relay.antt =====
-- backend/src/app/infrastructure/persistence/outbox/relay.py: one round of the outbox relay. What the
-- broker answers, the clock, the rows that other workers hold locked and whether the database accepts
-- the commit are arguments. Times are in microseconds.
pub mod Rounds
pub mod Backoff
pub mod Order
pub mod Ids
pub mod Work
pub mod Drain
pub mod Final
pub mod Published
use ndma_edit.Prelude.{
  ℕ, ◌+◌, ◌*◌, ◌^◌, min, Text, List, [], ◌∷◌, Bool, true, false, not, ◌&&◌, Option, none, some,
  ◌==◌, leb, ltb, keep, change, take, length, codes, if◌then◌else◌, is_some,
}
use ndma_edit.Outcome.{Outcome, ok, err, database_error}
use ndma_edit.Runtime.{Runtime}
use ndma_edit.Domain.Aggregate.{Time}
use ndma_edit.Infrastructure.Persistence.Models.{
  OutboxModel, OutboxStatus, pending, processing, published, failed,
}
use ndma_edit.Infrastructure.Persistence.Database.{order_by}
use ndma_edit.Application.Ports.{OutboundMessage}

-- `OutboxModel.status.in_([PENDING, FAILED])`
abbrev pub is_waiting : OutboxStatus → Bool
is_waiting pending = true
is_waiting processing = false
is_waiting published = false
is_waiting failed = true

-- The WHERE of `relay_once`.
unfoldable pub is_due : ℕ → Time → OutboxModel → Bool
is_due max_attempts now r =
    is_waiting r.status && leb r.available_at now && ltb r.attempt_count max_attempts

-- `_BACKOFF_BASE_SECONDS * (2 ** min(attempt_count, 8))`
unfoldable pub backoff_seconds : ℕ → ℕ
backoff_seconds attempts = 5 * 2 ^ min attempts 8

-- `timedelta(seconds=n)`
abbrev pub seconds : ℕ → Time
seconds n = n * 1_000_000

unfoldable pub message_of : Runtime → OutboxModel → OutboundMessage
message_of rt r = record {
  topic = r.aggregate_type;
  key = rt.format_uuid r.aggregate_id;
  event_type = r.event_type;
  payload = r.payload;
  headers = (codes "outbox-id", rt.format_uuid r.id) ∷ [];
}

-- `_process_row`: the row when the broker answers `none`, and when it raises with a text. `now` is the
-- clock behind the call.
unfoldable pub process_row : Option Text → Time → OutboxModel → OutboxModel
process_row none now r = record r {
  status = published;
  attempt_count = r.attempt_count + 1;
  processed_at = some now;
}
process_row (some error) now r = record r {
  status = failed;
  attempt_count = r.attempt_count + 1;
  last_error = some (take 2000 error);
  available_at = now + seconds (backoff_seconds (r.attempt_count + 1));
}

-- `ORDER BY created_at`
abbrev pub older : OutboxModel → OutboxModel → Bool
older a b = leb a.created_at b.created_at

-- What the world does during one round.
pub record Round : Type 0 where
  -- the clock at the start, and behind the i-th call of the broker
  pub now : Time
  pub now_at : ℕ → Time
  -- the answer of the broker to the i-th call: nothing, or the text of an exception
  pub answer : ℕ → OutboundMessage → Option Text
  -- the rows that `SKIP LOCKED` passes over
  pub is_locked : OutboxModel → Bool
  pub commits : Bool

module _ (batch_size max_attempts : ℕ) where
  -- The rows that the statement of `relay_once` returns.
  unfoldable pub batch : Round → List OutboxModel → List OutboxModel
  unfolding is_due
  batch w outbox =
      take batch_size
        (keep (λ r. not (w.is_locked r)) (order_by older (keep (is_due max_attempts w.now) outbox)))

-- The loop over the rows, from the i-th.
unfoldable pub process_rows : Runtime → Round → ℕ → List OutboxModel → List OutboxModel
unfolding process_row message_of
process_rows rt w i [] = []
process_rows rt w i (r ∷ rs) =
    process_row (w.answer i (message_of rt r)) (w.now_at i) r ∷ process_rows rt w (i + 1) rs

-- The UPDATE statements of a flush, by primary key.
unfoldable pub store_rows : List OutboxModel → List OutboxModel → List OutboxModel
store_rows [] outbox = outbox
store_rows (r ∷ rs) outbox = store_rows rs (change (λ q. q.id == r.id) (λ _. r) outbox)

-- `relay_once`: the number of rows processed, and the table after.
unfoldable pub relay_once :
    Runtime → ℕ → ℕ → Round → List OutboxModel → Outcome ℕ × List OutboxModel
unfolding batch process_rows store_rows
relay_once rt batch_size max_attempts w outbox =
    let rows = batch batch_size max_attempts w outbox in
    let stored = store_rows (process_rows rt w 0 rows) outbox in
    if w.commits then (ok (length rows), stored) else (err database_error, outbox)
