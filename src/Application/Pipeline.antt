-- ===== src/Application/Pipeline.antt =====
-- The pipeline of backend/src/app/application/common: what a step is, the state that steps share, and
-- the port of backend/src/app/application/common/interfaces/idempotency.py.
pub mod Behaviors
pub mod Mediator
pub mod Gate
pub mod Atomic
pub mod Reachable
use ndma_edit.Prelude.{ℕ, Text, List, Bool, Option}
use ndma_edit.Outcome.{Outcome}
use ndma_edit.Runtime.{Uuid}
use ndma_edit.Infrastructure.Persistence.Models.{Tables}
use ndma_edit.Application.Messages.{Request}
use ndma_edit.Application.Context.{RequestContext}
use ndma_edit.Application.Dto.{UserDto, Page}

-- A JSON value, as far as stored results have any.
pub data Json : Type 0 where
  null : Json
  text : Text → Json

-- What `send` may return.
pub data Value : Type 0 where
  user : UserDto → Value
  page : Page UserDto → Value
  json : Json → Value

-- A line of the log: the event, the request's class, and the caller if one is known.
pub data LogEntry : Type 0 where
  started completed failed : Text → Uuid → Option Uuid → LogEntry
  slow : Text → Uuid → LogEntry
  replay : Text → LogEntry

-- What the steps of a request read and write: the committed tables, the Redis database, the log.
pub record App (R : Type 0) : Type 0 where
  pub tables : Tables
  pub redis : R
  pub log : List LogEntry

-- `NextStep`
abbrev pub Step : Type 0 → Type 0
Step R = Request → RequestContext → App R → Outcome Value × App R

-- `PipelineBehavior.handle`, with `call_next` first.
abbrev pub Behavior : Type 0 → Type 0
Behavior R = Step R → Step R

-- `IdempotencyStore`; a lifetime is in seconds.
pub record IdempotencyStore (R : Type 0) : Type 0 where
  pub get_cached_result : Text → Text → R → Outcome (Option Json)
  pub store_result : Text → Text → Value → ℕ → R → Outcome (Unit {0}) × R
  pub try_acquire_lock : Text → ℕ → R → Outcome Bool × R
  pub release_lock : Text → R → Outcome (Unit {0}) × R
