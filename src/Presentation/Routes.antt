-- ===== src/Presentation/Routes.antt =====
-- backend/src/app/presentation/api: the routes of v1/users/router.py, the request context of
-- dependencies/mediator.py, the correlation id of middleware/correlation.py, and the response schemas.
-- FastAPI has parsed and checked the request body and the query parameters by then.
pub mod Replayed
use ndma_edit.Prelude.{
  ℕ, ℤ, Text, List, [], ◌∷◌, Bool, Option, none, some, codes, map, is_empty, if◌then◌else◌,
}
use ndma_edit.Outcome.{Outcome, ok, err, value_error, attribute_error, ◌>>=◌}
use ndma_edit.Runtime.{Runtime, Uuid}
use ndma_edit.Domain.Aggregate.{Time}
use ndma_edit.Application.Messages.{
  register_user, rename_user, deactivate_user, get_user, list_users,
}
use ndma_edit.Application.Context.{AuthContext, RequestContext}
use ndma_edit.Application.Dto.{UserDto, Page, has_next, has_previous}
use ndma_edit.Application.Pipeline.{Value, user, page, json, App, Step}

-- `CorrelationIdMiddleware.dispatch`: the header, or a new id.
abbrev pub correlation_text : Option Text → Text → Text
correlation_text none fresh = fresh
correlation_text (some header) fresh = header

abbrev parsed_or : Uuid → Option Uuid → Uuid
parsed_or fresh none = fresh
parsed_or fresh (some u) = u

abbrev correlation_of : Runtime → Option Text → Uuid → Uuid
correlation_of rt none fresh = fresh
correlation_of rt (some raw) fresh =
    if is_empty raw then fresh else parsed_or fresh (rt.parse_uuid raw)

-- `get_request_context`; `fresh` is what `uuid4` returns.
unfoldable pub get_request_context :
    Runtime → Option Text → Uuid → AuthContext → Option Text → RequestContext
get_request_context rt correlation_id_raw fresh auth idempotency_key = record {
  correlation_id = correlation_of rt correlation_id_raw fresh;
  auth = auth;
  idempotency_key = idempotency_key;
}

pub record UserResponse : Type 0 where
  pub id : Text
  pub email : Text
  pub display_name : Text
  pub status : Text
  pub registered_at : Time
  pub version : ℕ

abbrev pub from_dto : UserDto → UserResponse
from_dto u = record {
  id = u.id;
  email = u.email;
  display_name = u.display_name;
  status = u.status;
  registered_at = u.registered_at;
  version = u.version;
}

-- What pydantic raises: its `ValidationError` is a `ValueError`.
abbrev pub invalid_response : Outcome UserResponse
invalid_response = err (value_error (codes "1 validation error for UserResponse"))

-- `UserResponse.model_validate`: attributes are read from an object, and a text has none of them.
unfoldable pub model_validate : Value → Outcome UserResponse
model_validate (user u) = ok (from_dto u)
model_validate (page p) = invalid_response
model_validate (json j) = invalid_response

pub record PageResponse : Type 0 where
  pub items : List UserResponse
  pub total : ℕ
  pub offset : ℕ
  pub limit : ℕ
  pub has_next_page : Bool
  pub has_previous_page : Bool

-- `PageResponse.from_page`
unfoldable pub from_page : Value → Outcome PageResponse
from_page (page p) = ok (record {
  items = map from_dto p.items;
  total = p.total;
  offset = p.offset;
  limit = p.limit;
  has_next_page = has_next p;
  has_previous_page = has_previous p;
})
from_page (user u) = err (attribute_error (codes "'UserDTO' object has no attribute 'items'"))
from_page (json j) = err (attribute_error (codes "no attribute 'items'"))

module _ {R : Type 0} (send : Step R) (context : RequestContext) where
  abbrev respond_with :
      {A : Type 0} → (Value → Outcome A) → Outcome Value × App R → Outcome A × App R
  respond_with f (r, s) = (r >>= f, s)

  -- `register_user`, with the two fields of the body.
  unfoldable pub register_user_route : Text → Text → App R → Outcome UserResponse × App R
  unfolding model_validate
  register_user_route email display_name s =
      respond_with model_validate
        (send (register_user (record { email = email; display_name = display_name })) context s)

  -- `get_user`
  unfoldable pub get_user_route : Text → App R → Outcome UserResponse × App R
  unfolding model_validate
  get_user_route user_id s =
      respond_with model_validate (send (get_user (record { user_id = user_id })) context s)

  -- `list_users`
  unfoldable pub list_users_route : ℤ → ℤ → App R → Outcome PageResponse × App R
  unfolding from_page
  list_users_route offset limit s =
      respond_with from_page
        (send (list_users (record { offset = offset; limit = limit })) context s)

  -- `rename_user`
  unfoldable pub rename_user_route : Text → Text → App R → Outcome UserResponse × App R
  unfolding model_validate
  rename_user_route user_id display_name s =
      respond_with model_validate (
        send (rename_user (record { user_id = user_id; new_display_name = display_name })) context
          s)

  -- `deactivate_user`
  unfoldable pub deactivate_user_route : Text → Option Text → App R → Outcome UserResponse × App R
  unfolding model_validate
  deactivate_user_route user_id reason s =
      respond_with model_validate
        (send (deactivate_user (record { user_id = user_id; reason = reason })) context s)
