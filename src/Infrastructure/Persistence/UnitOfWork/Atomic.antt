-- ===== src/Infrastructure/Persistence/UnitOfWork/Atomic.antt =====
-- What a call inside a unit of work leaves committed. A quiet call commits nothing; an atomic call
-- that raises has committed nothing. Only `commit` is not quiet.
use ndma_edit.Prelude.{
  ℕ, true, false, Option, none, some, ◌≡◌, refl, ◌∙◌, arith, codes, Bool-cases, inl, inr,
}
use ndma_edit.Outcome.{Outcome, ok, err, Error, assertion_error}
use ndma_edit.Runtime.{Runtime, Uuid}
use ndma_edit.Domain.Email.{Email}
use ndma_edit.Domain.Aggregate.{Time}
use ndma_edit.Domain.User.{User}
use ndma_edit.Infrastructure.Persistence.Models.{Tables}
use ndma_edit.Infrastructure.Persistence.Database.{Database}
use ndma_edit.Infrastructure.Persistence.OutboxRow.{rows_of, outbox_rows-eq-rows_of}
use ndma_edit.Infrastructure.Persistence.Exec.{UnitOfWork, Exec, continue, ◌>>=◌, ◌>>◌, pure, lift}
use ndma_edit.Infrastructure.Persistence.Repository.{get_by_id, get_by_email, list_page, add, save}
use ndma_edit.Infrastructure.Persistence.UnitOfWork.{
  enter, committed, commit_rows, commit, exit, transaction,
}

pub record IsQuiet {S A : Type 0} (m : Exec S A) : Type 0 where
  pub keeps : (u : UnitOfWork S) → (m u).1.durable ≡ u.durable

pub record IsAtomic {S A : Type 0} (m : Exec S A) : Type 0 where
  pub undone : (u : UnitOfWork S) (e : Error) → (m u).0 ≡ err e → (m u).1.durable ≡ u.durable

module _ {S A : Type 0} where
  pub IsQuiet-pure : (a : A) → IsQuiet {S = S} (pure a)
  IsQuiet-pure a = record { keeps = λ u. refl }

  pub IsQuiet-lift : (r : Outcome A) → IsQuiet {S = S} (lift r)
  IsQuiet-lift r = record { keeps = λ u. refl }

  pub IsAtomic-of_quiet : {m : Exec S A} → IsQuiet m → IsAtomic m
  IsAtomic-of_quiet q = record { undone = λ u e h. q.keeps u }

module _ {S A B : Type 0} (m : Exec S A) (f : A → Exec S B) (quiet : IsQuiet m) where
  continue-quiet :
      ((a : A) → IsQuiet (f a))
      → (r : Outcome A) (v : UnitOfWork S) → (continue f (r, v)).1.durable ≡ v.durable
  continue-quiet rest (ok a) v = (rest a).keeps v
  continue-quiet rest (err e) v = refl

  pub IsQuiet-bind : ((a : A) → IsQuiet (f a)) → IsQuiet (m >>= f)
  IsQuiet-bind rest = record { keeps = λ u. continue-quiet rest (m u).0 (m u).1 ∙ quiet.keeps u }

  continue-atomic :
      ((a : A) → IsAtomic (f a))
      → (r : Outcome A) (v : UnitOfWork S) (e : Error) → (continue f (r, v)).0 ≡ err e
      → (continue f (r, v)).1.durable ≡ v.durable
  continue-atomic rest (ok a) v e h = (rest a).undone v e h
  continue-atomic rest (err e') v e h = refl

  pub IsAtomic-bind : ((a : A) → IsAtomic (f a)) → IsAtomic (m >>= f)
  IsAtomic-bind rest = record {
    undone = λ u e h. continue-atomic rest (m u).0 (m u).1 e h ∙ quiet.keeps u;
  }

module _ (rt : Runtime) (db : Database) where
  open db use {Session}

  pub IsQuiet-get_by_id : (k : Uuid) → IsQuiet (get_by_id rt db k)
  unfolding get_by_id
  IsQuiet-get_by_id k = record { keeps = λ u. refl }

  pub IsQuiet-get_by_email : (email : Email) → IsQuiet (get_by_email rt db email)
  unfolding get_by_email
  IsQuiet-get_by_email email = record { keeps = λ u. refl }

  pub IsQuiet-list_page : (offset limit : ℕ) → IsQuiet (list_page rt db offset limit)
  unfolding list_page
  IsQuiet-list_page offset limit = record { keeps = λ u. refl }

  pub IsQuiet-add : (user : User) → IsQuiet (add rt db user)
  unfolding add
  IsQuiet-add user = record { keeps = λ u. refl }

  pub IsQuiet-save : (user : User) → IsQuiet (save rt db user)
  unfolding save
  IsQuiet-save user = record { keeps = λ u. ground arith }

module _ (db : Database) where
  open db use {Session, commit as commit_session}

  committed-atomic :
      {A : Type 0} (a : A) (o : Option Tables) (u : UnitOfWork Session) (e : Error)
      → (continue (λ _. pure a) (committed db o u)).0 ≡ err e
      → (continue (λ _. pure a) (committed db o u)).1.durable ≡ u.durable
  committed-atomic a none u e h = refl
  committed-atomic a (some t) u e h = cc

  -- `commit` in an open unit of work, and outside of one.
  pub commit-open :
      (max_attempts : ℕ) (now_at : ℕ → Time) (u : UnitOfWork Session)
      → u.is_open ≡ true
      → commit db max_attempts now_at u
        ≡ commit_rows db (rows_of max_attempts now_at 0 (u.lists u.pending_events)) u
  unfolding commit
  commit-open m now_at u h = rw (h, outbox_rows-eq-rows_of m now_at 0 (u.lists u.pending_events))

  pub commit-closed :
      (max_attempts : ℕ) (now_at : ℕ → Time) (u : UnitOfWork Session)
      → u.is_open ≡ false
      → commit db max_attempts now_at u
        ≡ (err (assertion_error (codes "commit() called outside an 'async with' block")), u)
  unfolding commit
  commit-closed m now_at u h = rw h

  -- A commit, with nothing behind it that can raise.
  pub IsAtomic-commit :
      {A : Type 0} (max_attempts : ℕ) (now_at : ℕ → Time) (a : A)
      → IsAtomic (commit db max_attempts now_at >> pure a)
  IsAtomic-commit max_attempts now_at a = record {
    undone = λ u e. elim (Bool-cases u.is_open) [
      | inl on ↦
          rw (commit-open max_attempts now_at u on) (unfold commit_rows in committed-atomic a _ _ e)
      | inr off ↦ rw (commit-closed max_attempts now_at u off) (λ h. refl)
    ];
  }

  pub durable-exit :
      {A : Type 0} (r : Outcome A) (u : UnitOfWork Session) → (exit db r u).durable ≡ u.durable
  unfolding exit
  durable-exit (ok a) u = refl
  durable-exit (err e) u = ground arith

  -- A unit of work whose body is quiet leaves the tables as they were.
  pub transaction-quiet :
      {A : Type 0} (body : Exec Session A) (t : Tables)
      → IsQuiet body
      → (transaction db body t).1 ≡ t
  unfolding transaction enter
  transaction-quiet body t q =
      durable-exit (body (enter db t)).0 (body (enter db t)).1 ∙ q.keeps (enter db t)

  -- A unit of work whose body is atomic, and raises, leaves the tables as they were.
  pub transaction-atomic :
      {A : Type 0} (body : Exec Session A) (t : Tables) (e : Error)
      → IsAtomic body
      → (transaction db body t).0 ≡ err e
      → (transaction db body t).1 ≡ t
  unfolding transaction enter
  transaction-atomic body t e a h =
      durable-exit (body (enter db t)).0 (body (enter db t)).1 ∙ a.undone (enter db t) e h
