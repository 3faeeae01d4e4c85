-- ===== src/Application/Messages.antt =====
-- backend/src/app/application/common/messages.py with the commands and queries of
-- backend/src/app/application/users/commands and backend/src/app/application/users/queries.
use ndma_edit.Prelude.{
  ℤ, is_negative, between, Text, List, [], ◌∷◌, ◌++◌, Bool, true, false, not, ◌||◌, Option, none,
  some, codes, is_empty, has_char, strip, if◌then◌else◌,
}

pub record RegisterUserCommand : Type 0 where
  pub email : Text
  pub display_name : Text

pub record RenameUserCommand : Type 0 where
  pub user_id : Text
  pub new_display_name : Text

pub record DeactivateUserCommand : Type 0 where
  pub user_id : Text
  pub reason : Option Text

pub record GetUserQuery : Type 0 where
  pub user_id : Text

pub record ListUsersQuery : Type 0 where
  pub offset : ℤ
  pub limit : ℤ

-- Anything that the mediator dispatches. `other` is a request class with no handler, by its name.
pub data Request : Type 0 where
  register_user : RegisterUserCommand → Request
  rename_user : RenameUserCommand → Request
  deactivate_user : DeactivateUserCommand → Request
  get_user : GetUserQuery → Request
  list_users : ListUsersQuery → Request
  other : Text → Request

-- `type(request).__name__`
unfoldable pub class_name : Request → Text
class_name (register_user _) = codes "RegisterUserCommand"
class_name (rename_user _) = codes "RenameUserCommand"
class_name (deactivate_user _) = codes "DeactivateUserCommand"
class_name (get_user _) = codes "GetUserQuery"
class_name (list_users _) = codes "ListUsersQuery"
class_name (other name) = name

-- `isinstance(request, Command)`
unfoldable pub is_command : Request → Bool
is_command (register_user _) = true
is_command (rename_user _) = true
is_command (deactivate_user _) = true
is_command (get_user _) = false
is_command (list_users _) = false
is_command (other _) = false

-- "users:write"
unfoldable pub users_write : Text
users_write = codes "users:write"

-- `Request.required_permission` and its overrides.
unfoldable pub required_permission : Request → Option Text
required_permission (register_user _) = none
required_permission (rename_user _) = some users_write
required_permission (deactivate_user _) = some users_write
required_permission (get_user _) = none
required_permission (list_users _) = none
required_permission (other _) = none

-- Field to messages, in the order of insertion.
abbrev pub FieldErrors : Type 0
FieldErrors = List (Text × List Text)

abbrev pub field_error : Bool → Text → Text → FieldErrors
field_error b field message = if b then (field, message ∷ []) ∷ [] else []

-- `not s or not s.strip()`
unfoldable pub is_blank : Text → Bool
is_blank s = is_empty s || is_empty (strip s)

unfoldable pub validate_register : RegisterUserCommand → FieldErrors
unfolding is_blank
validate_register c =
    field_error (is_empty c.email || not (has_char b'@' c.email)) (codes "email")
      (codes "email must be a non-empty address")
    ++ field_error (is_blank c.display_name) (codes "display_name")
        (codes "display_name must not be empty")

unfoldable pub validate_rename : RenameUserCommand → FieldErrors
unfolding is_blank
validate_rename c =
    field_error (is_blank c.new_display_name) (codes "new_display_name")
      (codes "new_display_name must not be empty")

unfoldable pub validate_list : ListUsersQuery → FieldErrors
validate_list q =
    field_error (is_negative q.offset) (codes "offset") (codes "offset must be >= 0")
    ++ field_error (not (between 1 100 q.limit)) (codes "limit")
        (codes "limit must be between 1 and 100")

-- `Request.validate` and its overrides.
unfoldable pub validate : Request → FieldErrors
unfolding validate_register validate_rename validate_list
validate (register_user c) = validate_register c
validate (rename_user c) = validate_rename c
validate (deactivate_user _) = []
validate (get_user _) = []
validate (list_users q) = validate_list q
validate (other _) = []
