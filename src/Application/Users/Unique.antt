-- ===== src/Application/Users/Unique.antt =====
-- The schema's unique keys, through each handler.
use ndma_edit.Prelude.{ℕ, is_some}
use ndma_edit.Outcome.{Outcome, ok, err, email_already_registered}
use ndma_edit.Runtime.{Runtime, Uuid}
use ndma_edit.Domain.Email.{Email}
use ndma_edit.Domain.DisplayName.{DisplayName}
use ndma_edit.Domain.User.{User, register, rename, deactivate}
use ndma_edit.Infrastructure.Persistence.Models.{Tables}
use ndma_edit.Infrastructure.Persistence.Database.{Database}
use ndma_edit.Infrastructure.Persistence.Exec.{◌>>=◌, lift, raise_if}
use ndma_edit.Infrastructure.Persistence.Repository.{get_by_id, get_by_email, add, save}
use ndma_edit.Infrastructure.Persistence.UnitOfWork.Atomic.{
  IsQuiet-lift, IsQuiet-get_by_id, IsQuiet-get_by_email, IsQuiet-add, IsQuiet-save,
}
use ndma_edit.Application.Messages.{RegisterUserCommand, RenameUserCommand, DeactivateUserCommand}
use ndma_edit.Application.Dto.{from_domain}
use ndma_edit.Application.Users.Inputs.{user_id_from_string, register_inputs, rename_inputs}
use ndma_edit.Application.Users.Handlers.{
  Draws, then_run, or_not_found, register_body, save_and_commit, handle_register, handle_rename,
  handle_deactivate,
}
use ndma_edit.Infrastructure.Persistence.UnitOfWork.Unique.{
  IsUnique, KeepsUnique, KeepsUnique-bind, KeepsUnique-commit, transaction-IsUnique,
}
use ndma_edit.Application.Users.Atomicity.{IsQuiet-or_not_found, IsQuiet-raise_if}

then_run-IsUnique :
    {A B : Type 0} (r : Outcome A) (k : A → Tables → Outcome B × Tables) (t : Tables)
    → ((a : A) → IsUnique t → IsUnique (k a t).1)
    → IsUnique t
    → IsUnique (then_run r k t).1
then_run-IsUnique (ok a) k t later h = later a h
then_run-IsUnique (err e) k t later h = h

module _ (rt : Runtime) (db : Database) (max_attempts : ℕ) (d : Draws) where
  KeepsUnique-register_body :
      (email : Email) (n : DisplayName) → KeepsUnique (register_body rt db max_attempts d email n)
  unfolding register_body
  KeepsUnique-register_body email n =
      KeepsUnique-bind (get_by_email rt db email) _ (IsQuiet-get_by_email rt db email) λ existing.
        KeepsUnique-bind (raise_if (is_some existing) (email_already_registered email.value)) _
          (IsQuiet-raise_if (is_some existing) (email_already_registered email.value))
          λ _.
            KeepsUnique-bind (add rt db (register d.user_id d.registered_at d.stamp email n)) _
              (IsQuiet-add rt db (register d.user_id d.registered_at d.stamp email n))
              λ user. KeepsUnique-commit db max_attempts d.now_at (from_domain rt user)

  KeepsUnique-save_and_commit :
      (user : User) → KeepsUnique (save_and_commit rt db max_attempts d user)
  unfolding save_and_commit
  KeepsUnique-save_and_commit user =
      KeepsUnique-bind (save rt db user) _ (IsQuiet-save rt db user)
        λ user'. KeepsUnique-commit db max_attempts d.now_at (from_domain rt user')

  KeepsUnique-changing :
      (change : User → Outcome User) (user_id : Uuid)
      → KeepsUnique (
          get_by_id rt db user_id >>= λ found. or_not_found user_id found >>= λ user.
          lift (change user) >>= λ user'. save_and_commit rt db max_attempts d user')
  KeepsUnique-changing change user_id =
      KeepsUnique-bind (get_by_id rt db user_id) _ (IsQuiet-get_by_id rt db user_id) λ found.
        KeepsUnique-bind (or_not_found user_id found) _ (IsQuiet-or_not_found user_id found) λ user.
          KeepsUnique-bind (lift (change user)) _ (IsQuiet-lift (change user))
            KeepsUnique-save_and_commit

  pub handle_register-IsUnique :
      (c : RegisterUserCommand) (t : Tables)
      → IsUnique t
      → IsUnique (handle_register rt db max_attempts d c t).1
  unfolding handle_register
  handle_register-IsUnique c t =
      then_run-IsUnique (register_inputs rt c) _ t
        λ i. transaction-IsUnique db _ t (KeepsUnique-register_body i.0 i.1)

  pub handle_rename-IsUnique :
      (c : RenameUserCommand) (t : Tables)
      → IsUnique t
      → IsUnique (handle_rename rt db max_attempts d c t).1
  unfolding handle_rename
  handle_rename-IsUnique c t =
      then_run-IsUnique (rename_inputs rt c) _ t
        λ i. transaction-IsUnique db _ t (KeepsUnique-changing (rename d.stamp i.1) i.0)

  pub handle_deactivate-IsUnique :
      (c : DeactivateUserCommand) (t : Tables)
      → IsUnique t
      → IsUnique (handle_deactivate rt db max_attempts d c t).1
  unfolding handle_deactivate
  handle_deactivate-IsUnique c t =
      then_run-IsUnique (user_id_from_string rt c.user_id) _ t
        λ k. transaction-IsUnique db _ t (KeepsUnique-changing (deactivate d.stamp c.reason) k)
