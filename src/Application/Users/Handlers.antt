-- ===== src/Application/Users/Handlers.antt =====
-- backend/src/app/application/users/handlers: one use case each, from the committed tables before to
-- the result and the committed tables after. What `uuid4` and `datetime.now` return while a request
-- is handled is its `Draws`.
use ndma_edit.Prelude.{ℕ, Text, Option, none, some, is_some, map}
use ndma_edit.Outcome.{Outcome, ok, err, user_not_found, email_already_registered}
use ndma_edit.Runtime.{Runtime, Uuid}
use ndma_edit.Domain.Email.{Email}
use ndma_edit.Domain.DisplayName.{DisplayName}
use ndma_edit.Domain.Aggregate.{Time, EventStamp}
use ndma_edit.Domain.User.{User, register, rename, deactivate}
use ndma_edit.Infrastructure.Persistence.Models.{Tables}
use ndma_edit.Infrastructure.Persistence.Database.{Database}
use ndma_edit.Infrastructure.Persistence.Exec.{Exec, ◌>>=◌, ◌>>◌, pure, raise, lift, raise_if}
use ndma_edit.Infrastructure.Persistence.Repository.{get_by_id, get_by_email, list_page, add, save}
use ndma_edit.Infrastructure.Persistence.UnitOfWork.{commit, transaction}
use ndma_edit.Application.Messages.{
  RegisterUserCommand, RenameUserCommand, DeactivateUserCommand, GetUserQuery, ListUsersQuery,
}
use ndma_edit.Application.Dto.{UserDto, from_domain, Page}
use ndma_edit.Application.Users.Inputs.{
  user_id_from_string, register_inputs, rename_inputs, row_count,
}

pub record Draws : Type 0 where
  pub user_id : Uuid
  pub registered_at : Time
  pub stamp : EventStamp
  pub now_at : ℕ → Time

-- A handler raises before it opens its unit of work, or goes on.
abbrev pub then_run :
    {A B : Type 0} → Outcome A → (A → Tables → Outcome B × Tables) → Tables → Outcome B × Tables
then_run (ok a) k t = k a t
then_run (err e) k t = (err e, t)

-- `if user is None: raise UserNotFound(user_id)`
abbrev pub or_not_found : {S : Type 0} → Uuid → Option User → Exec S User
or_not_found user_id none = raise (user_not_found user_id)
or_not_found user_id (some user) = pure user

module _ (rt : Runtime) (db : Database) where
  open db use {Session}

  module _ (max_attempts : ℕ) (d : Draws) where
    unfoldable pub register_body : Email → DisplayName → Exec Session UserDto
    register_body email display_name = do
      existing ← get_by_email rt db email
      raise_if (is_some existing) (email_already_registered email.value)
      let user = register d.user_id d.registered_at d.stamp email display_name
      user' ← add rt db user
      commit db max_attempts d.now_at
      pure (from_domain rt user')

    -- The second half of a handler that changes a user.
    unfoldable pub save_and_commit : User → Exec Session UserDto
    save_and_commit user = do
      user' ← save rt db user
      commit db max_attempts d.now_at
      pure (from_domain rt user')

    unfoldable pub rename_body : Uuid → DisplayName → Exec Session UserDto
    unfolding save_and_commit
    rename_body user_id new_name = do
      found ← get_by_id rt db user_id
      user ← or_not_found user_id found
      user' ← lift (rename d.stamp new_name user)
      save_and_commit user'

    unfoldable pub deactivate_body : Option Text → Uuid → Exec Session UserDto
    unfolding save_and_commit
    deactivate_body reason user_id = do
      found ← get_by_id rt db user_id
      user ← or_not_found user_id found
      user' ← lift (deactivate d.stamp reason user)
      save_and_commit user'

    -- `RegisterUserHandler.handle`
    unfoldable pub handle_register : RegisterUserCommand → Tables → Outcome UserDto × Tables
    unfolding register_body register_inputs
    handle_register c =
        then_run (register_inputs rt c) (λ i. transaction db (register_body i.0 i.1))

    -- `RenameUserHandler.handle`
    unfoldable pub handle_rename : RenameUserCommand → Tables → Outcome UserDto × Tables
    unfolding rename_body rename_inputs
    handle_rename c = then_run (rename_inputs rt c) (λ i. transaction db (rename_body i.0 i.1))

    -- `DeactivateUserHandler.handle`
    unfoldable pub handle_deactivate : DeactivateUserCommand → Tables → Outcome UserDto × Tables
    unfolding deactivate_body user_id_from_string
    handle_deactivate c =
        then_run (user_id_from_string rt c.user_id)
          (λ user_id. transaction db (deactivate_body c.reason user_id))

  unfoldable pub get_body : Uuid → Exec Session UserDto
  get_body user_id = do
    found ← get_by_id rt db user_id
    user ← or_not_found user_id found
    pure (from_domain rt user)

  -- `GetUserHandler.handle`
  unfoldable pub handle_get : GetUserQuery → Tables → Outcome UserDto × Tables
  unfolding get_body user_id_from_string
  handle_get q =
      then_run (user_id_from_string rt q.user_id) (λ user_id. transaction db (get_body user_id))

  unfoldable pub list_body : ListUsersQuery → Exec Session (Page UserDto)
  list_body q = do
    offset ← lift (row_count q.offset)
    limit ← lift (row_count q.limit)
    (users, total) ← list_page rt db offset limit
    pure (record {
      items = map (from_domain rt) users;
      total = total;
      offset = offset;
      limit = limit;
    })

  -- `ListUsersHandler.handle`
  unfoldable pub handle_list : ListUsersQuery → Tables → Outcome (Page UserDto) × Tables
  unfolding list_body
  handle_list q = transaction db (list_body q)
