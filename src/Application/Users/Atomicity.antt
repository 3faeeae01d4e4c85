-- ===== src/Application/Users/Atomicity.antt =====
-- A use case that raises has changed nothing, and a query never changes anything.
use ndma_edit.Prelude.{ℕ, Bool, Option, none, some, is_some, ◌≡◌, refl}
use ndma_edit.Outcome.{Outcome, ok, err, Error, email_already_registered}
use ndma_edit.Runtime.{Runtime, Uuid}
use ndma_edit.Domain.Email.{Email}
use ndma_edit.Domain.DisplayName.{DisplayName}
use ndma_edit.Domain.User.{User, register, rename, deactivate}
use ndma_edit.Infrastructure.Persistence.Models.{Tables}
use ndma_edit.Infrastructure.Persistence.Database.{Database}
use ndma_edit.Infrastructure.Persistence.Exec.{◌>>=◌, lift, raise_if}
use ndma_edit.Infrastructure.Persistence.Repository.{get_by_id, get_by_email, list_page, add, save}
use ndma_edit.Infrastructure.Persistence.UnitOfWork.Atomic.{
  IsQuiet, IsAtomic, IsQuiet-pure, IsQuiet-lift, IsQuiet-bind, IsAtomic-bind, IsQuiet-get_by_id,
  IsQuiet-get_by_email, IsQuiet-list_page, IsQuiet-add, IsQuiet-save, IsAtomic-commit,
  transaction-quiet, transaction-atomic,
}
use ndma_edit.Application.Messages.{
  RegisterUserCommand, RenameUserCommand, DeactivateUserCommand, GetUserQuery, ListUsersQuery,
}
use ndma_edit.Application.Dto.{from_domain}
use ndma_edit.Application.Users.Inputs.{
  user_id_from_string, register_inputs, rename_inputs, row_count,
}
use ndma_edit.Application.Users.Handlers.{
  Draws, then_run, or_not_found, register_body, save_and_commit, handle_register, handle_rename,
  handle_deactivate, handle_get, handle_list,
}

pub IsQuiet-or_not_found :
    {S : Type 0} (k : Uuid) (o : Option User) → IsQuiet {S = S} (or_not_found k o)
IsQuiet-or_not_found k none = record { keeps = λ u. refl }
IsQuiet-or_not_found k (some user) = record { keeps = λ u. refl }

pub IsQuiet-raise_if : {S : Type 0} (b : Bool) (e : Error) → IsQuiet {S = S} (raise_if b e)
IsQuiet-raise_if b e = record { keeps = λ u. refl }

-- A handler that raises early, or whose unit of work undoes what it did, has changed nothing.
then_run-atomic :
    {A B : Type 0} (r : Outcome A) (k : A → Tables → Outcome B × Tables) (t : Tables) (e : Error)
    → ((a : A) → (k a t).0 ≡ err e → (k a t).1 ≡ t)
    → (then_run r k t).0 ≡ err e
    → (then_run r k t).1 ≡ t
then_run-atomic (ok a) k t e later h = later a h
then_run-atomic (err e') k t e later h = refl

then_run-quiet :
    {A B : Type 0} (r : Outcome A) (k : A → Tables → Outcome B × Tables) (t : Tables)
    → ((a : A) → (k a t).1 ≡ t)
    → (then_run r k t).1 ≡ t
then_run-quiet (ok a) k t later = later a
then_run-quiet (err e') k t later = refl

module _ (rt : Runtime) (db : Database) where
  module _ (max_attempts : ℕ) (d : Draws) where
    IsAtomic-register_body :
        (email : Email) (n : DisplayName) → IsAtomic (register_body rt db max_attempts d email n)
    unfolding register_body
    IsAtomic-register_body email n =
        IsAtomic-bind (get_by_email rt db email) _ (IsQuiet-get_by_email rt db email) λ existing.
          IsAtomic-bind (raise_if (is_some existing) (email_already_registered email.value)) _
            (IsQuiet-raise_if (is_some existing) (email_already_registered email.value))
            λ _.
              IsAtomic-bind (add rt db (register d.user_id d.registered_at d.stamp email n)) _
                (IsQuiet-add rt db (register d.user_id d.registered_at d.stamp email n))
                λ user. IsAtomic-commit db max_attempts d.now_at (from_domain rt user)

    pub IsAtomic-save_and_commit :
        (user : User) → IsAtomic (save_and_commit rt db max_attempts d user)
    unfolding save_and_commit
    IsAtomic-save_and_commit user =
        IsAtomic-bind (save rt db user) _ (IsQuiet-save rt db user)
          λ user'. IsAtomic-commit db max_attempts d.now_at (from_domain rt user')

    module _ (change : User → Outcome User) (user_id : Uuid) where
      -- The shape of the two handlers that change a user.
      IsAtomic-changing : IsAtomic (
          get_by_id rt db user_id >>= λ found. or_not_found user_id found >>= λ user.
          lift (change user) >>= λ user'. save_and_commit rt db max_attempts d user')
      IsAtomic-changing =
          IsAtomic-bind (get_by_id rt db user_id) _ (IsQuiet-get_by_id rt db user_id) λ found.
            IsAtomic-bind (or_not_found user_id found) _ (IsQuiet-or_not_found user_id found)
              λ user.
                IsAtomic-bind (lift (change user)) _ (IsQuiet-lift (change user))
                  IsAtomic-save_and_commit

    -- A registration that raises, for any reason, leaves both tables as they were.
    pub handle_register-atomic :
        (c : RegisterUserCommand) (t : Tables) (e : Error)
        → (handle_register rt db max_attempts d c t).0 ≡ err e
        → (handle_register rt db max_attempts d c t).1 ≡ t
    unfolding handle_register
    handle_register-atomic c t e =
        then_run-atomic (register_inputs rt c) _ t e
          λ i. transaction-atomic db _ t e (IsAtomic-register_body i.0 i.1)

    -- A renaming that raises, for any reason, leaves both tables as they were.
    pub handle_rename-atomic :
        (c : RenameUserCommand) (t : Tables) (e : Error)
        → (handle_rename rt db max_attempts d c t).0 ≡ err e
        → (handle_rename rt db max_attempts d c t).1 ≡ t
    unfolding handle_rename
    handle_rename-atomic c t e =
        then_run-atomic (rename_inputs rt c) _ t e
          λ i. transaction-atomic db _ t e (IsAtomic-changing (rename d.stamp i.1) i.0)

    -- A deactivation that raises, for any reason, leaves both tables as they were.
    pub handle_deactivate-atomic :
        (c : DeactivateUserCommand) (t : Tables) (e : Error)
        → (handle_deactivate rt db max_attempts d c t).0 ≡ err e
        → (handle_deactivate rt db max_attempts d c t).1 ≡ t
    unfolding handle_deactivate
    handle_deactivate-atomic c t e =
        then_run-atomic (user_id_from_string rt c.user_id) _ t e
          λ k. transaction-atomic db _ t e (IsAtomic-changing (deactivate d.stamp c.reason) k)

  -- Looking a user up never changes the tables, whether it returns or raises.
  pub handle_get-quiet : (q : GetUserQuery) (t : Tables) → (handle_get rt db q t).1 ≡ t
  unfolding handle_get
  handle_get-quiet q t = then_run-quiet (user_id_from_string rt q.user_id) _ t λ k.
      transaction-quiet db _ t (
        IsQuiet-bind (get_by_id rt db k) _ (IsQuiet-get_by_id rt db k) λ found.
          IsQuiet-bind (or_not_found k found) _ (IsQuiet-or_not_found k found)
            λ user. IsQuiet-pure (from_domain rt user))

  -- Listing users never changes the tables, whether it returns or raises.
  pub handle_list-quiet : (q : ListUsersQuery) (t : Tables) → (handle_list rt db q t).1 ≡ t
  unfolding handle_list
  handle_list-quiet q t = transaction-quiet db _ t (
      IsQuiet-bind (lift (row_count q.offset)) _ (IsQuiet-lift (row_count q.offset)) λ offset.
        IsQuiet-bind (lift (row_count q.limit)) _ (IsQuiet-lift (row_count q.limit)) λ limit.
          IsQuiet-bind (list_page rt db offset limit) _ (IsQuiet-list_page rt db offset limit)
            λ page. record { keeps = λ u. refl })
