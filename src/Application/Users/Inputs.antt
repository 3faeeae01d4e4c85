-- ===== src/Application/Users/Inputs.antt =====
-- What the handlers of backend/src/app/application/users/handlers make of their command before they
-- open a unit of work, with `UserId.from_string` of
-- backend/src/app/domain/users/value_objects/user_id.py.
use ndma_edit.Prelude.{ℕ, ℤ, pos, negsuc, Text, Option, none, some, ◌++◌, codes}
use ndma_edit.Outcome.{Outcome, ok, err, invalid_value_object, database_error, ◌>>=◌, ◌>>◌}
use ndma_edit.Runtime.{Runtime, Uuid}
use ndma_edit.Domain.Email.{Email, new_email}
use ndma_edit.Domain.DisplayName.{DisplayName, new_display_name, ensure_allowed}
use ndma_edit.Application.Messages.{RegisterUserCommand, RenameUserCommand}

abbrev or_invalid : Text → Option Uuid → Outcome Uuid
or_invalid raw (some u) = ok u
or_invalid raw none =
    err (invalid_value_object (codes "'" ++ raw ++ codes "' is not a valid UserId"))

-- `UserId.from_string`
unfoldable pub user_id_from_string : Runtime → Text → Outcome Uuid
user_id_from_string rt raw = or_invalid raw (rt.parse_uuid raw)

-- `RegisterUserHandler.handle`, up to the unit of work.
unfoldable pub register_inputs : Runtime → RegisterUserCommand → Outcome (Email × DisplayName)
register_inputs rt c = do
  email ← new_email rt c.email
  display_name ← new_display_name c.display_name
  ensure_allowed rt display_name
  ok (email, display_name)

-- `RenameUserHandler.handle`, up to the unit of work.
unfoldable pub rename_inputs : Runtime → RenameUserCommand → Outcome (Uuid × DisplayName)
rename_inputs rt c = do
  user_id ← user_id_from_string rt c.user_id
  new_name ← new_display_name c.new_display_name
  ensure_allowed rt new_name
  ok (user_id, new_name)

-- An OFFSET or LIMIT below zero is an error of the database.
abbrev pub row_count : ℤ → Outcome ℕ
row_count (pos n) = ok n
row_count (negsuc n) = err database_error
