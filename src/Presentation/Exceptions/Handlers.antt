-- ===== src/Presentation/Exceptions/Handlers.antt =====
-- backend/src/app/presentation/api/exception_handlers/handlers.py and
-- backend/src/app/presentation/api/schemas/common/problem_detail.py: from an exception to a response.
use ndma_edit.Prelude.{
  ℕ, Text, List, [], ◌∷◌, ◌++◌, map, Bool, true, false, Option, none, some, codes, ◌==◌, ◌≡◌,
  if◌then◌else◌,
}
use ndma_edit.Outcome.{Error}
use ndma_edit.Runtime.{Runtime}
use ndma_edit.Infrastructure.Settings.{Environment, development}
use ndma_edit.Presentation.Exceptions.{
  ExceptionClass, exception, domain_exception, invalid_value_object, invalid_state,
  business_rule_violation, entity_not_found, concurrency_conflict, application_exception,
  validation_exception, authentication_exception, authorization_exception, not_found_exception,
  conflict_exception, infrastructure_exception, request_validation_error, class_of, mro,
  ForeignTexts, message,
}

pub record ProblemDetail : Type 0 where
  pub type_url : Text
  pub title : Text
  pub status : ℕ
  pub detail : Text
  pub instance_path : Text
  pub trace_id : Option Text
  pub errors : Option (List (Text × List Text))

pub record Response : Type 0 where
  pub status_code : ℕ
  pub content : ProblemDetail
  pub media_type : Text

-- What a handler reads of the request.
pub record HttpRequest : Type 0 where
  pub path : Text
  pub correlation_id : Option Text

-- `title.lower().replace(' ', '-')`
unfoldable pub slug : Runtime → Text → Text
slug rt title = map (λ c. if c == 32 then 45 else c) (rt.lower title)

-- `_problem_response`
unfoldable pub problem_response :
    Runtime → HttpRequest → ℕ → Text → Text → Option (List (Text × List Text)) → Response
unfolding slug
problem_response rt q status_code title detail errors = record {
  status_code = status_code;
  content = record {
    type_url = codes "https://ndma-cloud.dev/errors" ++ codes "/" ++ slug rt title;
    title = title;
    status = status_code;
    detail = detail;
    instance_path = q.path;
    trace_id = q.correlation_id;
    errors = errors;
  };
  media_type = codes "application/problem+json";
}

-- The functions that `register_exception_handlers` registers.
pub data Handler : Type 0 where
  handle_not_found handle_concurrency_conflict handle_business_rule_violation : Handler
  handle_invalid_input handle_domain_exception handle_validation_exception : Handler
  handle_request_validation_error handle_authentication_exception : Handler
  handle_authorization_exception handle_application_not_found : Handler
  handle_conflict_exception handle_infrastructure_exception : Handler
  handle_application_exception handle_unexpected_exception : Handler

-- `register_exception_handlers`
unfoldable pub registered : ExceptionClass → Option Handler
registered entity_not_found = some handle_not_found
registered concurrency_conflict = some handle_concurrency_conflict
registered business_rule_violation = some handle_business_rule_violation
registered invalid_value_object = some handle_invalid_input
registered invalid_state = some handle_invalid_input
registered domain_exception = some handle_domain_exception
registered validation_exception = some handle_validation_exception
registered request_validation_error = some handle_request_validation_error
registered authentication_exception = some handle_authentication_exception
registered authorization_exception = some handle_authorization_exception
registered not_found_exception = some handle_application_not_found
registered conflict_exception = some handle_conflict_exception
registered infrastructure_exception = some handle_infrastructure_exception
registered application_exception = some handle_application_exception
registered exception = some handle_unexpected_exception
registered _ = none

-- The field errors that an exception carries.
abbrev errors_of : Error → Option (List (Text × List Text))
errors_of (Error.validation errors) = some errors
errors_of (Error.request_validation errors) = some errors
errors_of _ = none

abbrev is_development : Environment → Bool
is_development development = true
is_development _ = false

-- What each handler answers to an exception.
unfoldable pub respond :
    Runtime → ForeignTexts → Environment → HttpRequest → Handler → Error → Response
unfolding problem_response
respond rt ft env q handle_not_found e =
    problem_response rt q 404 (codes "Not Found") (message rt ft e) none
respond rt ft env q handle_concurrency_conflict e =
    problem_response rt q 409 (codes "Conflict") (message rt ft e) none
respond rt ft env q handle_business_rule_violation e =
    problem_response rt q 409 (codes "Business Rule Violation") (message rt ft e) none
respond rt ft env q handle_invalid_input e =
    problem_response rt q 422 (codes "Invalid Input") (message rt ft e) none
respond rt ft env q handle_domain_exception e =
    problem_response rt q 400 (codes "Domain Error") (message rt ft e) none
respond rt ft env q handle_validation_exception e =
    problem_response rt q 422 (codes "Validation Failed")
      (codes "One or more fields failed validation") (errors_of e)
respond rt ft env q handle_request_validation_error e =
    problem_response rt q 422 (codes "Validation Failed")
      (codes "One or more fields failed validation") (errors_of e)
respond rt ft env q handle_authentication_exception e =
    problem_response rt q 401 (codes "Unauthorized") (message rt ft e) none
respond rt ft env q handle_authorization_exception e =
    problem_response rt q 403 (codes "Forbidden") (message rt ft e) none
respond rt ft env q handle_application_not_found e =
    problem_response rt q 404 (codes "Not Found") (message rt ft e) none
respond rt ft env q handle_conflict_exception e =
    problem_response rt q 409 (codes "Conflict") (message rt ft e) none
respond rt ft env q handle_infrastructure_exception e =
    problem_response rt q 503 (codes "Service Unavailable")
      (codes "A downstream dependency is currently unavailable") none
respond rt ft env q handle_application_exception e =
    problem_response rt q 400 (codes "Application Error") (message rt ft e) none
respond rt ft env q handle_unexpected_exception e =
    problem_response rt q 500 (codes "Internal Server Error")
      (if is_development env then message rt ft e else codes "An unexpected error occurred") none

-- The nearest registered class.
unfoldable pub first_registered :
    (ExceptionClass → Option Handler) → List ExceptionClass → Option Handler
first_registered handlers [] = none
first_registered handlers (c ∷ cs) =
    let later = first_registered handlers cs in elim (handlers c) [ none ↦ later | some h ↦ some h ]

-- How Starlette finds the handler of an exception: along the `__mro__` of its class.
pub record Starlette : Type 0 where
  pub find_handler : (ExceptionClass → Option Handler) → ExceptionClass → Option Handler
  pub find_handler_lem :
      (handlers : ExceptionClass → Option Handler) (c : ExceptionClass)
      → find_handler handlers c ≡ first_registered handlers (mro c)

abbrev answered : Option Handler → (Handler → Response) → Option Response
answered none f = none
answered (some h) f = some (f h)

-- The response to an exception that a route lets through; `none` if no handler is found.
unfoldable pub response_to :
    Starlette → Runtime → ForeignTexts → Environment → HttpRequest → Error → Option Response
unfolding registered class_of
response_to st rt ft env q e =
    answered (st.find_handler registered (class_of e)) (λ h. respond rt ft env q h e)
