-- ===== src/Presentation/Exceptions.antt =====
-- The exception classes of backend/src/app/domain/shared/exceptions.py,
-- backend/src/app/domain/users/exceptions and backend/src/app/application/common/exceptions, their
-- base classes and their texts.
pub mod Handlers
pub mod Statuses
pub mod Fuel
use Prim.Native.Nat.{◌/◌, ◌%◌}
use ndma_edit.Prelude.{
  ℕ, zero, suc, ◌+◌, Text, List, [], ◌∷◌, ◌++◌, Option, none, some, codes, ltb, if◌then◌else◌,
}
use ndma_edit.Outcome.{Error}
use ndma_edit.Runtime.{Runtime, Uuid}

pub data ExceptionClass : Type 0 where
  exception : ExceptionClass
  domain_exception invalid_value_object invalid_state business_rule_violation : ExceptionClass
  entity_not_found concurrency_conflict : ExceptionClass
  user_not_found email_already_registered user_already_deactivated : ExceptionClass
  user_concurrency_conflict : ExceptionClass
  application_exception validation_exception authentication_exception : ExceptionClass
  authorization_exception not_found_exception conflict_exception : ExceptionClass
  infrastructure_exception : ExceptionClass
  request_validation_error : ExceptionClass
  runtime_error handler_not_registered : ExceptionClass
  value_error lookup_error key_error attribute_error type_error assertion_error database_error :
      ExceptionClass

-- The class that a class is derived from.
unfoldable pub base : ExceptionClass → Option ExceptionClass
base exception = none
base invalid_value_object = some domain_exception
base invalid_state = some domain_exception
base business_rule_violation = some domain_exception
base entity_not_found = some domain_exception
base concurrency_conflict = some domain_exception
base user_not_found = some entity_not_found
base email_already_registered = some business_rule_violation
base user_already_deactivated = some invalid_state
base user_concurrency_conflict = some concurrency_conflict
base validation_exception = some application_exception
base authentication_exception = some application_exception
base authorization_exception = some application_exception
base not_found_exception = some application_exception
base conflict_exception = some application_exception
base infrastructure_exception = some application_exception
base handler_not_registered = some runtime_error
base key_error = some lookup_error
base _ = some exception

-- A class and the classes that it is derived from, the nearest first: `__mro__` without `object`.
-- The chains of this code have at most four classes.
unfoldable pub ancestors : ℕ → ExceptionClass → List ExceptionClass
unfolding base
ancestors zero c = []
ancestors (suc n) c = c ∷ elim (base c) [ none ↦ [] | some b ↦ ancestors n b ]

unfoldable pub mro : ExceptionClass → List ExceptionClass
unfolding ancestors
mro = ancestors 4

-- `type(exc)`
unfoldable pub class_of : Error → ExceptionClass
class_of (Error.invalid_value_object _) = invalid_value_object
class_of (Error.business_rule_violation _) = business_rule_violation
class_of (Error.user_not_found _) = user_not_found
class_of (Error.email_already_registered _) = email_already_registered
class_of (Error.user_already_deactivated _) = user_already_deactivated
class_of (Error.user_concurrency_conflict _ _ _) = user_concurrency_conflict
class_of (Error.validation _) = validation_exception
class_of (Error.authentication _) = authentication_exception
class_of (Error.authorization _) = authorization_exception
class_of (Error.conflict _) = conflict_exception
class_of (Error.domain_error _) = domain_exception
class_of (Error.invalid_state _) = invalid_state
class_of (Error.application_error _) = application_exception
class_of (Error.not_found _) = not_found_exception
class_of (Error.infrastructure _) = infrastructure_exception
class_of (Error.entity_not_found _) = entity_not_found
class_of (Error.concurrency_conflict _) = concurrency_conflict
class_of (Error.request_validation _) = request_validation_error
class_of (Error.handler_not_registered _) = handler_not_registered
class_of (Error.value_error _) = value_error
class_of (Error.key_error _) = key_error
class_of (Error.attribute_error _) = attribute_error
class_of (Error.type_error _) = type_error
class_of (Error.assertion_error _) = assertion_error
class_of Error.database_error = database_error

-- `str(n)`, with fuel: more digits than `n + 1` there are none.
unfoldable pub decimal_digits : ℕ → ℕ → Text
decimal_digits zero n = []
decimal_digits (suc fuel) n =
    let rest = decimal_digits fuel (n / 10) in
    if ltb n 10 then (48 + n) ∷ [] else rest ++ (48 + n % 10) ∷ []

unfoldable pub decimal : ℕ → Text
unfolding decimal_digits
decimal n = decimal_digits (suc n) n

-- Texts of exceptions that the code does not build itself: `str` of a database error, and the `repr`
-- of a dictionary of errors.
pub record ForeignTexts : Type 0 where
  pub database_text : Text
  pub repr_errors : List (Text × List Text) → Text

-- `repr` of a `UserId`.
unfoldable pub repr_user_id : Runtime → Uuid → Text
repr_user_id rt u = codes "UserId(value=UUID('" ++ rt.format_uuid u ++ codes "'))"

-- `str(exc)`
unfoldable pub message : Runtime → ForeignTexts → Error → Text
unfolding repr_user_id decimal
message rt ft (Error.invalid_value_object m) = m
message rt ft (Error.business_rule_violation m) = m
message rt ft (Error.user_not_found u) =
    codes "User" ++ codes " with id=" ++ repr_user_id rt u ++ codes " was not found"
message rt ft (Error.email_already_registered email) =
    codes "Email '" ++ email ++ codes "' is already registered to another user"
message rt ft (Error.user_already_deactivated u) =
    codes "User " ++ repr_user_id rt u ++ codes " is already deactivated"
message rt ft (Error.user_concurrency_conflict name u version) =
    name
    ++ codes " with id="
    ++ repr_user_id rt u
    ++ codes " was modified concurrently (expected version="
    ++ decimal version
    ++ codes ")"
message rt ft (Error.validation errors) = codes "Validation failed: " ++ ft.repr_errors errors
message rt ft (Error.authentication m) = m
message rt ft (Error.authorization m) = m
message rt ft (Error.conflict m) = m
message rt ft (Error.domain_error m) = m
message rt ft (Error.invalid_state m) = m
message rt ft (Error.application_error m) = m
message rt ft (Error.not_found m) = m
message rt ft (Error.infrastructure m) = m
message rt ft (Error.entity_not_found m) = m
message rt ft (Error.concurrency_conflict m) = m
message rt ft (Error.request_validation errors) = ft.repr_errors errors
message rt ft (Error.handler_not_registered name) = codes "No handler registered for " ++ name
message rt ft (Error.value_error m) = m
message rt ft (Error.key_error m) = m
message rt ft (Error.attribute_error m) = m
message rt ft (Error.type_error m) = m
message rt ft (Error.assertion_error m) = m
message rt ft Error.database_error = ft.database_text
