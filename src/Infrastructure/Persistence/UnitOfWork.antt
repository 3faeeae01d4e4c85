-- ===== src/Infrastructure/Persistence/UnitOfWork.antt =====
-- backend/src/app/infrastructure/persistence/unit_of_work.py: `SqlAlchemyUnitOfWork`, and the
-- `async with` block round the work of a handler.
pub mod Atomic
pub mod Rebinding
pub mod Commit
pub mod Unique
use ndma_edit.Prelude.{
  ℕ, List, [], ◌∷◌, Bool, true, false, not, Option, none, some, codes, if◌then◌else◌,
}
use ndma_edit.Outcome.{Outcome, ok, err, assertion_error, database_error}
use ndma_edit.Domain.Aggregate.{Time}
use ndma_edit.Infrastructure.Persistence.Models.{Tables, OutboxModel}
use ndma_edit.Infrastructure.Persistence.Database.{Database, outbox_row}
use ndma_edit.Infrastructure.Persistence.OutboxRow.{outbox_rows}
use ndma_edit.Infrastructure.Persistence.Exec.{
  UnitOfWork, Exec, ◌>>=◌, ◌>>◌, pure, raise, lift, raise_if, fresh_pending,
}

module _ (db : Database) where
  open db use {Session, connect, add, commit as commit_session}

  -- `__init__` and `__aenter__`: the repository's sink is the list of pending events.
  unfoldable pub enter : Tables → UnitOfWork Session
  enter t = record {
    durable = t;
    session = connect t;
    is_open = true;
    lists = λ r. [];
    next_ref = 1;
    pending_events = 0;
    event_sink = 0;
  }

  unfoldable pub add_rows : List OutboxModel → Session → Session
  add_rows [] s = s
  add_rows (r ∷ rs) s = add_rows rs (add (outbox_row r) s)

  -- A commit that raises has rolled the transaction back.
  abbrev committed : Option Tables → Exec Session (Unit {0})
  committed none u = (err database_error, record u { session = connect u.durable })
  committed (some t) u = (ok tt, record u { durable = t; session = connect t })

  -- The end of `commit`, with the rows that it made.
  unfoldable pub commit_rows : List OutboxModel → Exec Session (Unit {0})
  unfolding add_rows
  commit_rows rows u =
      let session = add_rows rows u.session in
      committed (commit_session session) (record (fresh_pending u) { session = session })

  -- `commit`; `now_at i` is the clock for the i-th row.
  unfoldable pub commit : ℕ → (ℕ → Time) → Exec Session (Unit {0})
  unfolding commit_rows outbox_rows
  commit max_attempts now_at u =
      (do
        raise_if (not u.is_open)
            (assertion_error (codes "commit() called outside an 'async with' block"))
        rows ← lift (outbox_rows max_attempts now_at 0 (u.lists u.pending_events))
        commit_rows rows)
        u

  unfoldable pub rollback : Exec Session (Unit {0})
  rollback u =
      if u.is_open
      then (ok tt, record (fresh_pending u) { session = connect u.durable })
      else (err (assertion_error (codes "rollback() called outside an 'async with' block")), u)

  -- `__aexit__`: what was not committed is dropped, and the session is closed.
  unfoldable pub exit : {A : Type 0} → Outcome A → UnitOfWork Session → UnitOfWork Session
  unfolding rollback
  exit (ok a) u = record u { session = connect u.durable; is_open = false }
  exit (err e) u =
      let v = (rollback u).1 in record v { session = connect v.durable; is_open = false }

  -- `async with self._uow_factory() as uow: ...`, from the tables before to the tables after.
  unfoldable pub transaction : {A : Type 0} → Exec Session A → Tables → Outcome A × Tables
  transaction body t = let (r, u) = body (enter t) in (r, (exit r u).durable)
