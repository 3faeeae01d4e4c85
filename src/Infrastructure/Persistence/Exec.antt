-- ===== src/Infrastructure/Persistence/Exec.antt =====
-- The state of one `SqlAlchemyUnitOfWork` and its repository
-- (backend/src/app/infrastructure/persistence/unit_of_work.py), and calls that read it, write it and
-- may raise. The two objects share the session and, at first, one Python list of events: lists are
-- kept by reference, so a name that is bound to a new list leaves the old one alone.
use ndma_edit.Prelude.{ℕ, List, [], ◌++◌, Bool, ◌==◌, if◌then◌else◌, ◌+◌}
use ndma_edit.Outcome.{Outcome, ok, err, Error}
use ndma_edit.Domain.Aggregate.{DomainEvent}
use ndma_edit.Infrastructure.Persistence.Models.{Tables}

-- A reference to a list of events.
abbrev pub Ref : Type 0
Ref = ℕ

pub record UnitOfWork (S : Type 0) : Type 0 where
  -- what the database has committed
  pub durable : Tables
  pub session : S
  -- whether `_session` is not `None`
  pub is_open : Bool
  pub lists : Ref → List DomainEvent
  pub next_ref : Ref
  -- `SqlAlchemyUnitOfWork._pending_events`
  pub pending_events : Ref
  -- `SqlAlchemyUserRepository._event_sink`
  pub event_sink : Ref

abbrev pub Exec : Type 0 → Type 0 → Type 0
Exec S A = UnitOfWork S → Outcome A × UnitOfWork S

module _ {S A B : Type 0} where
  abbrev pub continue : (A → Exec S B) → Outcome A × UnitOfWork S → Outcome B × UnitOfWork S
  continue f (ok a, u) = f a u
  continue f (err e, u) = (err e, u)

  infixl 5 ◌>>=◌ ◌>>◌
  abbrev pub ◌>>=◌ : Exec S A → (A → Exec S B) → Exec S B
  ◌>>=◌ m f u = continue f (m u)

  abbrev pub ◌>>◌ : Exec S A → Exec S B → Exec S B
  m >> k = m >>= λ _. k

module _ {S A : Type 0} where
  abbrev pub pure : A → Exec S A
  pure a u = (ok a, u)

  abbrev pub raise : Error → Exec S A
  raise e u = (err e, u)

  abbrev pub lift : Outcome A → Exec S A
  lift r u = (r, u)

-- `if b: raise e`
abbrev pub raise_if : {S : Type 0} → Bool → Error → Exec S (Unit {0})
raise_if b e u = (if b then err e else ok tt, u)

module _ {S : Type 0} where
  -- `list.extend` through a reference.
  abbrev pub extend : Ref → List DomainEvent → UnitOfWork S → UnitOfWork S
  extend r es u = record u { lists = λ q. if q == r then u.lists q ++ es else u.lists q }

  -- `self._pending_events = []`
  abbrev pub fresh_pending : UnitOfWork S → UnitOfWork S
  fresh_pending u = record u {
    lists = λ q. if q == u.next_ref then [] else u.lists q;
    next_ref = u.next_ref + 1;
    pending_events = u.next_ref;
  }
