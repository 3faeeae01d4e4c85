-- ===== src/Presentation/App/Answers.antt =====
-- Which answers of the application carry the correlation id, and which are logged.
use ndma_edit.Prelude.{
  ℕ, Text, [], ◌∷◌, Bool, true, false, Option, none, some, ◌==◌, text_eq, codes, ◌≡◌, ◌≢◌, inl, inr,
  refl, sym, ap, subst, ◌∙◌, Bool-cases, ==_iff,
}
use ndma_edit.Prelude.Dict.{put, dict_get, dict_get-put, dict_get-without}
use ndma_edit.Outcome.{Outcome, Error, ok, err}
use ndma_edit.Runtime.{Runtime, Uuid}
use ndma_edit.Infrastructure.Settings.{Settings, Environment}
use ndma_edit.Presentation.Exceptions.{class_of, mro, ForeignTexts}
use ndma_edit.Presentation.Exceptions.Handlers.{
  Handler, Starlette, handle_unexpected_exception, respond, registered, first_registered,
  problem_response,
}
use ndma_edit.Presentation.Exceptions.Statuses.{expected_status, nearest}
use ndma_edit.Presentation.Middleware.{
  Request, Response, Context, Endpoint, correlation, request_logging, header_or,
  correlation_id_header, correlation_id_name, response_time_header, unbound, logged,
}
use ndma_edit.Presentation.App.{
  build_app, Body, Foreign, registered_inside, sent, last_resort, as_http, excepted, answer_with,
  exception_middleware, wrap, serve,
}

is_not_500 : (e : Error) → expected_status e ≢ 500 → (expected_status e == 500) ≡ false
is_not_500 e expected = elim (Bool-cases (expected_status e == 500)) [
  | inl hit ↦ absurd (expected ((==_iff (expected_status e) 500).0 hit))
  | inr miss ↦ miss
]

abbrev unless : Bool → Handler → Option Handler
unless true h = none
unless false h = some h

-- The handlers round the routes leave exactly the exceptions that end in status 500.
inside :
    (e : Error)
    → first_registered registered_inside (mro (class_of e))
      ≡ unless (expected_status e == 500) (nearest e)
unfolding first_registered registered mro class_of
inside (Error.user_not_found _) = refl
inside _ = refl

module _ {A : Type 0} (st : Starlette) (rt : Runtime) (ft : ForeignTexts) (env : Environment)
    (foreign : Foreign (Body A)) (fresh : Uuid) (duration_ms : Text) (settings : Settings)
    (routes : Endpoint (Body A)) (q : Request) (c : Context)
    (passes : (k : Endpoint (Body A)) (c' : Context)
      → foreign.trusted_host_middleware settings.security.trusted_hosts
          (foreign.cors_middleware settings.security.cors_allow_origins k)
          q
          c'
        ≡ k q c') where
  -- The id of the request: the client's, or a fresh one.
  abbrev pub its_id : Text
  its_id = header_or (rt.format_uuid fresh) q.correlation_header

  -- The context in which the routes run.
  abbrev pub its_context : Context
  its_context = record c {
    correlation_id = some its_id;
    contextvars = put correlation_id_name its_id c.contextvars;
  }

  abbrev pub answer : Response (Body A) × Context
  answer = serve st rt ft env foreign fresh duration_ms (build_app settings) routes q c

  answer-eq :
      answer
      ≡ last_resort
          (λ e c'. sent (respond rt ft env (as_http q c') handle_unexpected_exception e))
          (unbound its_id (logged duration_ms q (excepted st rt ft env q (routes q its_context))))
  unfolding serve wrap build_app correlation request_logging exception_middleware
  answer-eq = rw passes refl

  abbrev after_stack : Outcome (Response (Body A)) × Context → Response (Body A) × Context
  after_stack x =
      last_resort (λ e c'. sent (respond rt ft env (as_http q c') handle_unexpected_exception e))
        (unbound its_id (logged duration_ms q x))

  -- An answer that carries the id in its header and is in the access log, with the variable of the id
  -- unbound again.
  pub record IsTraced (status : ℕ) (before : Context) (x : Response (Body A) × Context)
      : Type 0 where
    pub status_lem : x.0.status_code ≡ status
    pub header_lem : dict_get correlation_id_header x.0.headers ≡ some its_id
    pub log_lem :
        x.1.access_log
        ≡ record {
          method = q.method;
          path = q.path;
          status_code = status;
          duration_ms = duration_ms;
        }
          ∷ before.access_log
    pub unbound_lem : dict_get correlation_id_name x.1.contextvars ≡ none

  traced :
      (r : Response (Body A)) (c2 : Context) → IsTraced r.status_code c2 (after_stack (ok r, c2))
  unfolding text_eq codes
  traced r c2 = record {
    status_lem = refl;
    header_lem =
        dict_get-put correlation_id_header correlation_id_header its_id
          (put response_time_header duration_ms r.headers);
    log_lem = refl;
    unbound_lem = dict_get-without correlation_id_name c2.contextvars;
  }

  -- What a route's outcome is to end in.
  abbrev pub status_of : Outcome (Response (Body A)) → ℕ
  status_of (ok r) = r.status_code
  status_of (err e) = expected_status e

  abbrev pub IsExpected : Outcome (Response (Body A)) → Type 0
  IsExpected (ok r) = Unit {0}
  IsExpected (err e) = expected_status e ≢ 500

  found_inside :
      (e : Error) (b : Bool)
      → (expected_status e == 500) ≡ b
      → st.find_handler registered_inside (class_of e) ≡ unless b (nearest e)
  found_inside e b h =
      st.find_handler_lem registered_inside (class_of e)
      ∙ inside e
      ∙ ap (λ b'. unless b' (nearest e)) h

  respond-status :
      (e : Error) (c2 : Context)
      → (respond rt ft env (as_http q c2) (nearest e) e).status_code ≡ expected_status e
  unfolding respond problem_response
  respond-status (Error.user_not_found _) c2 = refl
  respond-status _ c2 = refl

  -- A request whose route returns, or raises an exception that does not end in status 500, gets its
  -- answer with the status of the outcome and the correlation id in its header: the client's, or a
  -- fresh one. The access log has one line more, with that status, and the variable of the id is
  -- unbound, if CORS and the check of the host let the request through.
  pub answers_are-IsTraced :
      (o : Outcome (Response (Body A))) (c2 : Context)
      → routes q its_context ≡ (o, c2)
      → IsExpected o
      → IsTraced (status_of o) c2 answer
  answers_are-IsTraced (ok r) c2 run expected =
      subst (IsTraced r.status_code c2)
        (sym (answer-eq ∙ ap (λ x. after_stack (excepted st rt ft env q x)) run)) (traced r c2)
  answers_are-IsTraced (err e) c2 run expected =
      let r = sent (respond rt ft env (as_http q c2) (nearest e) e) in
      subst (λ n. IsTraced n c2 answer) (respond-status e c2)
        (subst (IsTraced r.status_code c2)
          (sym (
            answer-eq
            ∙ ap (λ x. after_stack (excepted st rt ft env q x)) run
            ∙ ap (λ h. after_stack (answer_with st rt ft env h q e c2, c2))
                (found_inside e false (is_not_500 e expected))))
          (traced r c2))

  -- A request whose route raises an exception that ends in status 500 gets an answer without any
  -- header of the middleware, so without the correlation id, and the access log stays as it was.
  pub unexpected_is_not_traced :
      (e : Error) (c2 : Context)
      → routes q its_context ≡ (err e, c2)
      → expected_status e ≡ 500
      → (answer.0.status_code ≡ 500)
        × (answer.0.headers ≡ [])
        × (answer.1.access_log ≡ c2.access_log)
  unexpected_is_not_traced e c2 run unexpected =
      subst
        (λ (x : Response (Body A) × Context).
          (x.0.status_code ≡ 500) × (x.0.headers ≡ []) × (x.1.access_log ≡ c2.access_log))
        (sym (
          answer-eq
          ∙ ap (λ x. after_stack (excepted st rt ft env q x)) run
          ∙ ap (λ h. after_stack (answer_with st rt ft env h q e c2, c2))
              (found_inside e true ((==_iff (expected_status e) 500).1 unexpected))))
        (unfold respond problem_response in (refl, refl, refl))
