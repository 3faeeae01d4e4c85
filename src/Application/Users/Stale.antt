-- ===== src/Application/Users/Stale.antt =====
-- Two requests that have read one user: the version check of `save` in
-- backend/src/app/infrastructure/persistence/repositories/sqlalchemy_user_repository.py. The UPDATE of
-- the second sees what the first has committed.
use ndma_edit.Prelude.{
  ℕ, List, [], ◌∷◌, false, codes, keep, change, length, All, ◌≡◌, refl, sym, ap, ◌∙◌, subst, arith,
  Bool-cases, inl, inr,
}
use ndma_edit.Outcome.{Outcome, ok, err, user_concurrency_conflict}
use ndma_edit.Runtime.{Runtime}
use ndma_edit.Domain.User.{User}
use ndma_edit.Infrastructure.Persistence.Models.{UserModel, Tables}
use ndma_edit.Infrastructure.Persistence.Database.{Database}
use ndma_edit.Infrastructure.Persistence.Repository.{is_current, updated, save}
use ndma_edit.Infrastructure.Persistence.UnitOfWork.{enter, transaction}
use ndma_edit.Infrastructure.Persistence.UnitOfWork.Atomic.{transaction-atomic}
use ndma_edit.Infrastructure.Persistence.UnitOfWork.Commit.{transaction-durable}
use ndma_edit.Application.Dto.{UserDto}
use ndma_edit.Application.Users.Handlers.{Draws, save_and_commit}
use ndma_edit.Application.Users.Success.{save_and_commit-ok}
use ndma_edit.Application.Users.Atomicity.{IsAtomic-save_and_commit}

-- No row has the id and the version with which the user was read.
abbrev pub IsStale : User → List UserModel → Type 0
IsStale user = All (λ m. is_current user m ≡ false)

keep-IsStale :
    (user : User) (ms : List UserModel) → IsStale user ms → keep (is_current user) ms ≡ []
unfolding keep
keep-IsStale user [] h = refl
keep-IsStale user (m ∷ ms) h = rw (h.0, keep-IsStale user ms h.1) refl

-- The version that a save writes is not the one that it looked for.
updated-not-current :
    (a b : User) (m : UserModel)
    → a.id ≡ b.id
    → a.version ≡ b.version
    → is_current b (updated a m) ≡ false
unfolding is_current updated
updated-not-current a b m same_id same_version = ground arith

change-IsStale :
    (a b : User) (ms : List UserModel)
    → a.id ≡ b.id
    → a.version ≡ b.version
    → IsStale b (change (is_current a) (updated a) ms)
unfolding change
change-IsStale a b [] e f = tt
change-IsStale a b (m ∷ ms) e f = elim (Bool-cases (is_current a m)) [
  | inl hit ↦ rw hit (updated-not-current a b m e f, change-IsStale a b ms e f)
  | inr miss ↦ rw miss (unfold is_current in rw (← e, ← f) miss, change-IsStale a b ms e f)
]

module _ (rt : Runtime) (db : Database) (max_attempts : ℕ) (d : Draws) where
  -- The conflict that `save` raises.
  abbrev pub conflict_of : User → Outcome UserDto
  conflict_of user = err (user_concurrency_conflict (codes "User") user.id user.version)

  save-stale :
      (user : User) (t : Tables)
      → IsStale user t.users
      → (save_and_commit rt db max_attempts d user (enter db t)).0 ≡ conflict_of user
  unfolding save_and_commit save enter
  save-stale user t stale =
      let p = is_current user in
      let none_hit : (db.update_users p (updated user) (db.connect t)).0 ≡ 0 =
        db.rowcount p (updated user) (db.connect t)
        ∙ ap (λ (x : Tables). length (keep p x.users)) (db.view-connect t)
        ∙ ap length (keep-IsStale user t.users stale) in
      rw none_hit refl

  -- A save of a user whose row was changed or is gone since it was read raises a conflict and changes
  -- nothing.
  pub stale_save_conflicts :
      (user : User) (t : Tables)
      → IsStale user t.users
      → transaction db (save_and_commit rt db max_attempts d user) t ≡ (conflict_of user, t)
  unfolding transaction
  stale_save_conflicts user t stale =
      let r = save-stale user t stale in
      let body = save_and_commit rt db max_attempts d user in
      λ i. (
        r i,
        transaction-atomic db body t _ (IsAtomic-save_and_commit rt db max_attempts d user) r i,
      )

  -- No update is lost: of two requests that have read one user at one version, the second to write
  -- gets a conflict, and the tables are as the first has left them.
  pub no_update_is_lost :
      (d' : Draws) (a b : User) (t : Tables) (dto : UserDto)
      → a.id ≡ b.id
      → a.version ≡ b.version
      → let first = transaction db (save_and_commit rt db max_attempts d' a) t in
        first.0 ≡ ok dto
        → transaction db (save_and_commit rt db max_attempts d b) first.1 ≡ (conflict_of b, first.1)
  unfolding transaction
  no_update_is_lost d' a b t dto e f done =
      let body = save_and_commit rt db max_attempts d' a in
      let (written, _, _, _) = save_and_commit-ok rt db max_attempts d' a t dto done in
      let after = transaction-durable db body t ∙ written in
      stale_save_conflicts b (transaction db body t).1
        (subst (λ (x : Tables). IsStale b x.users) (sym after) (change-IsStale a b t.users e f))
