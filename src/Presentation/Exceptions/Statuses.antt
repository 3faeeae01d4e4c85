-- ===== src/Presentation/Exceptions/Statuses.antt =====
-- Every exception gets a response: which status, and what it tells the client.
use ndma_edit.Prelude.{ℕ, none, some, codes, ◌≡◌, ◌≢◌, refl, arith}
use ndma_edit.Outcome.{Error}
use ndma_edit.Runtime.{Runtime}
use ndma_edit.Presentation.Exceptions.{class_of, mro, ForeignTexts}
use ndma_edit.Infrastructure.Settings.{Environment, development}
use ndma_edit.Presentation.Exceptions.Handlers.{
  Response, HttpRequest, Handler, handle_not_found, handle_concurrency_conflict,
  handle_business_rule_violation, handle_invalid_input, handle_validation_exception,
  handle_authentication_exception, handle_authorization_exception, handle_conflict_exception,
  handle_domain_exception, handle_application_exception, handle_request_validation_error,
  handle_application_not_found, handle_infrastructure_exception, handle_unexpected_exception,
  problem_response, respond, registered, first_registered, Starlette, response_to,
}

-- The status that the documentation of the API promises for each kind of failure.
abbrev pub expected_status : Error → ℕ
expected_status (Error.user_not_found _) = 404
expected_status (Error.user_concurrency_conflict _ _ _) = 409
expected_status (Error.business_rule_violation _) = 409
expected_status (Error.email_already_registered _) = 409
expected_status (Error.conflict _) = 409
expected_status (Error.invalid_value_object _) = 422
expected_status (Error.user_already_deactivated _) = 422
expected_status (Error.validation _) = 422
expected_status (Error.authentication _) = 401
expected_status (Error.authorization _) = 403
expected_status (Error.domain_error _) = 400
expected_status (Error.application_error _) = 400
expected_status (Error.invalid_state _) = 422
expected_status (Error.request_validation _) = 422
expected_status (Error.not_found _) = 404
expected_status (Error.entity_not_found _) = 404
expected_status (Error.concurrency_conflict _) = 409
expected_status (Error.infrastructure _) = 503
expected_status (Error.handler_not_registered _) = 500
expected_status (Error.value_error _) = 500
expected_status (Error.key_error _) = 500
expected_status (Error.attribute_error _) = 500
expected_status (Error.type_error _) = 500
expected_status (Error.assertion_error _) = 500
expected_status Error.database_error = 500

-- The handler that is nearest to the class of an exception.
abbrev pub nearest : Error → Handler
nearest (Error.user_not_found _) = handle_not_found
nearest (Error.user_concurrency_conflict _ _ _) = handle_concurrency_conflict
nearest (Error.business_rule_violation _) = handle_business_rule_violation
nearest (Error.email_already_registered _) = handle_business_rule_violation
nearest (Error.conflict _) = handle_conflict_exception
nearest (Error.invalid_value_object _) = handle_invalid_input
nearest (Error.user_already_deactivated _) = handle_invalid_input
nearest (Error.validation _) = handle_validation_exception
nearest (Error.authentication _) = handle_authentication_exception
nearest (Error.authorization _) = handle_authorization_exception
nearest (Error.domain_error _) = handle_domain_exception
nearest (Error.application_error _) = handle_application_exception
nearest (Error.invalid_state _) = handle_invalid_input
nearest (Error.request_validation _) = handle_request_validation_error
nearest (Error.not_found _) = handle_application_not_found
nearest (Error.entity_not_found _) = handle_not_found
nearest (Error.concurrency_conflict _) = handle_concurrency_conflict
nearest (Error.infrastructure _) = handle_infrastructure_exception
nearest _ = handle_unexpected_exception

first_registered-nearest :
    (e : Error) → first_registered registered (mro (class_of e)) ≡ some (nearest e)
unfolding first_registered registered mro class_of
first_registered-nearest (Error.user_not_found _) = refl
first_registered-nearest _ = refl

module _ (st : Starlette) (rt : Runtime) (ft : ForeignTexts) where
  response_to-nearest :
      (env : Environment) (q : HttpRequest) (e : Error)
      → response_to st rt ft env q e ≡ some (respond rt ft env q (nearest e) e)
  unfolding response_to
  response_to-nearest env q e =
      rw (st.find_handler_lem registered (class_of e), first_registered-nearest e)

  status-nearest :
      (env : Environment) (q : HttpRequest) (e : Error)
      → ((respond rt ft env q (nearest e) e).status_code ≡ expected_status e)
        × ((respond rt ft env q (nearest e) e).content.status ≡ expected_status e)
  unfolding respond
  status-nearest env q (Error.user_not_found _) = (refl, refl)
  status-nearest env q _ = (refl, refl)

  -- An exception of any class that has a handler, or that the code raises or lets through, is answered
  -- with the status promised for its kind, in the status line and in the body alike.
  pub response_to-status :
      (env : Environment) (q : HttpRequest) (e : Error)
      → (r : Response) × (response_to st rt ft env q e ≡ some r)
        × (r.status_code ≡ expected_status e)
        × (r.content.status ≡ expected_status e)
  response_to-status env q e =
      let (line, body) = status-nearest env q e in
      (respond rt ft env q (nearest e) e, response_to-nearest env q e, line, body)

  unexpected_alike :
      (env : Environment) (q : HttpRequest) (e : Error)
      → env ≢ development
      → expected_status e ≡ 500
      → respond rt ft env q (nearest e) e
        ≡ problem_response rt q 500
            (codes "Internal Server Error")
            (codes "An unexpected error occurred")
            none
  unfolding respond
  unexpected_alike env q (Error.handler_not_registered _) h k = ground arith
  unexpected_alike env q _ h k = ground arith

  -- Outside development the response to an unexpected exception depends on the request alone: any two
  -- such exceptions are answered alike, so nothing of them reaches the client.
  pub unexpected_reveals_nothing :
      (env : Environment) (q : HttpRequest) (e e' : Error)
      → env ≢ development
      → expected_status e ≡ 500
      → expected_status e' ≡ 500
      → response_to st rt ft env q e ≡ response_to st rt ft env q e'
  unexpected_reveals_nothing env q e e' h k k' = rw (
    response_to-nearest env q e,
    response_to-nearest env q e',
    unexpected_alike env q e h k,
    unexpected_alike env q e' h k',
  )
