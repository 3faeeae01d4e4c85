-- ===== src/Presentation/Requests.antt =====
-- backend/src/app/presentation/api/schemas/users/requests.py and
-- backend/src/app/presentation/api/dependencies/pagination.py: what FastAPI takes from a client. A
-- field that is missing is `none`; so is a request that is refused with status 422.
use ndma_edit.Prelude.{
  ℕ, ℤ, pos, between, is_negative, Text, [], ◌∷◌, ◌++◌, Bool, true, false, not, ◌&&◌, Option, none,
  some, leb, length, ◌≡◌, refl, if◌then◌else◌, codes,
}
use ndma_edit.Application.Messages.{
  ListUsersQuery, list_users, validate, validate_list, field_error, FieldErrors,
}
use ndma_edit.Application.Dto.{default_page_size, max_page_size}

pub record RegisterUserRequest : Type 0 where
  pub email : Text
  pub display_name : Text

pub record RenameUserRequest : Type 0 where
  pub display_name : Text

pub record DeactivateUserRequest : Type 0 where
  pub reason : Option Text

-- `Field(min_length=low, max_length=high)`
unfoldable pub text_between : ℕ → ℕ → Text → Bool
text_between low high s = leb low (length s) && leb (length s) high

abbrev checked : Bool → Text → Option Text
checked b s = if b then some s else none

abbrev required : (Text → Option Text) → Option Text → Option Text
required f none = none
required f (some s) = f s

abbrev both : Option Text → Option Text → Option RegisterUserRequest
both none display_name = none
both (some email) none = none
both (some email) (some display_name) = some (record { email = email; display_name = display_name })

-- `RegisterUserRequest`; `email_str` is the check and the normal form of pydantic's `EmailStr`.
unfoldable pub parse_register :
    (Text → Option Text) → Option Text → Option Text → Option RegisterUserRequest
unfolding text_between
parse_register email_str email display_name =
    both (required email_str email) (required (λ s. checked (text_between 1 120 s) s) display_name)

abbrev renamed : Option Text → Option RenameUserRequest
renamed none = none
renamed (some s) = some (record { display_name = s })

-- `RenameUserRequest`
unfoldable pub parse_rename : Option Text → Option RenameUserRequest
unfolding text_between
parse_rename display_name = renamed (required (λ s. checked (text_between 1 120 s) s) display_name)

-- `DeactivateUserRequest`; a null and no reason are the same.
unfoldable pub parse_deactivate : Option Text → Option DeactivateUserRequest
unfolding text_between
parse_deactivate none = some (record { reason = none })
parse_deactivate (some s) = if text_between 0 500 s then some (record { reason = some s }) else none

pub record PaginationParams : Type 0 where
  pub offset : ℤ
  pub limit : ℤ

abbrev pub or_else : ℤ → Option ℤ → ℤ
or_else d none = d
or_else d (some i) = i

-- The parameters with their defaults.
abbrev pub page_of : Option ℤ → Option ℤ → PaginationParams
page_of offset limit = record {
  offset = or_else (pos 0) offset;
  limit = or_else (pos default_page_size) limit;
}

-- `pagination_params`
unfoldable pub pagination_params : Option ℤ → Option ℤ → Option PaginationParams
pagination_params offset limit =
    let p = page_of offset limit in
    if not (is_negative p.offset) && between 1 max_page_size p.limit then some p else none

-- The query that the route makes of the parameters.
abbrev pub query_of : PaginationParams → ListUsersQuery
query_of p = record { offset = p.offset; limit = p.limit }

abbrev pub no_errors : FieldErrors → Bool
no_errors [] = true
no_errors (e ∷ es) = false

-- The HTTP layer and the pipeline accept the same pages: the parameters, with their defaults for what
-- the client left out, are let through unchanged exactly if the query that the route makes of them
-- passes its validation, and else refused.
pub pagination_params-eq-validate :
    (offset limit : Option ℤ)
    → let p = page_of offset limit in
      pagination_params offset limit
      ≡ (if no_errors (validate (list_users (query_of p))) then some p else none)
unfolding pagination_params validate validate_list
pagination_params-eq-validate offset limit =
    by_tests (is_negative (or_else (pos 0) offset))
      (between 1 100 (or_else (pos default_page_size) limit))
  where
    by_tests :
        (negative in_range : Bool)
        → (if not negative && in_range then some (page_of offset limit) else none) ≡ (
            if no_errors (
              field_error negative (codes "offset") (codes "offset must be >= 0")
              ++ field_error
                  (not in_range)
                  (codes "limit")
                  (codes "limit must be between 1 and 100"))
            then some (page_of offset limit)
            else none)
    by_tests true true = refl
    by_tests true false = refl
    by_tests false true = refl
    by_tests false false = refl
