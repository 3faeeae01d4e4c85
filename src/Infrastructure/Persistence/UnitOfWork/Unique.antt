-- ===== src/Infrastructure/Persistence/UnitOfWork/Unique.antt =====
-- The schema's unique keys, through a unit of work.
use ndma_edit.Prelude.{ℕ, Option, none, some, ◌≡◌, refl, sym, subst, Bool-cases, inl, inr}
use ndma_edit.Outcome.{Outcome, ok, err}
use ndma_edit.Domain.Aggregate.{Time}
use ndma_edit.Infrastructure.Persistence.Models.{Tables}
use ndma_edit.Infrastructure.Persistence.Database.{Database, HasUniqueKeys}
use ndma_edit.Infrastructure.Persistence.Exec.{UnitOfWork, Exec, continue, ◌>>=◌, ◌>>◌, pure}
use ndma_edit.Infrastructure.Persistence.UnitOfWork.{
  enter, committed, commit_rows, commit, transaction,
}
use ndma_edit.Infrastructure.Persistence.UnitOfWork.Atomic.{
  IsQuiet, commit-open, commit-closed, durable-exit,
}

abbrev pub IsUnique : Tables → Type 0
IsUnique t = HasUniqueKeys t.users

pub record KeepsUnique {S A : Type 0} (m : Exec S A) : Type 0 where
  pub kept : (u : UnitOfWork S) → IsUnique u.durable → IsUnique (m u).1.durable

module _ {S A B : Type 0} (m : Exec S A) (f : A → Exec S B) (quiet : IsQuiet m) where
  continue-IsUnique :
      ((a : A) → KeepsUnique (f a))
      → (r : Outcome A) (v : UnitOfWork S) → IsUnique v.durable
      → IsUnique (continue f (r, v)).1.durable
  continue-IsUnique rest (ok a) v h = (rest a).kept v h
  continue-IsUnique rest (err e) v h = h

  pub KeepsUnique-bind : ((a : A) → KeepsUnique (f a)) → KeepsUnique (m >>= f)
  KeepsUnique-bind rest = record {
    kept = λ u h. continue-IsUnique rest (m u).0 (m u).1 (subst IsUnique (sym (quiet.keeps u)) h);
  }

module _ (db : Database) where
  open db use {Session, commit as commit_session}

  committed-IsUnique :
      {A : Type 0} (a : A) (s : Session) (o : Option Tables) (u : UnitOfWork Session)
      → commit_session s ≡ o
      → IsUnique u.durable
      → IsUnique (continue (λ _. pure a) (committed db o u)).1.durable
  committed-IsUnique a s none u e h = h
  committed-IsUnique a s (some t) u e h = db.commit_unique s t e

  pub KeepsUnique-commit :
      {A : Type 0} (max_attempts : ℕ) (now_at : ℕ → Time) (a : A)
      → KeepsUnique (commit db max_attempts now_at >> pure a)
  KeepsUnique-commit max_attempts now_at a = record {
    kept = λ u h. elim (Bool-cases u.is_open) [
      | inl on ↦
          rw (commit-open db max_attempts now_at u on)
            (unfold commit_rows in committed-IsUnique a _ _ _ refl h)
      | inr off ↦ rw (commit-closed db max_attempts now_at u off) h
    ];
  }

  pub transaction-IsUnique :
      {A : Type 0} (body : Exec Session A) (t : Tables)
      → KeepsUnique body
      → IsUnique t
      → IsUnique (transaction db body t).1
  unfolding transaction enter
  transaction-IsUnique body t k h =
      subst IsUnique (sym (durable-exit db (body (enter db t)).0 (body (enter db t)).1))
        (k.kept (enter db t) h)
