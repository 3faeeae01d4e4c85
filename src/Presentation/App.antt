-- ===== src/Presentation/App.antt =====
-- `create_app` of backend/src/app/main.py, and how Starlette puts its middleware round the routes.
-- CORS and the check of the host are Starlette's, and arguments.
pub mod Answers
use ndma_edit.Prelude.{ℕ, Text, List, [], ◌∷◌, ◌++◌, Bool, true, Option, none, some, codes}
use ndma_edit.Outcome.{Outcome, Error, ok, err, ◌>>=◌}
use ndma_edit.Runtime.{Runtime, Uuid}
use ndma_edit.Infrastructure.Settings.{Settings, Environment, get_settings}
use ndma_edit.Infrastructure.Observability.{
  LoggingConfig, Telemetry, configure_logging, configure_observability,
}
use ndma_edit.Presentation.Exceptions.{ExceptionClass, exception, class_of, ForeignTexts}
use ndma_edit.Presentation.Exceptions.Handlers.{
  Handler, HttpRequest, ProblemDetail, Starlette, handle_unexpected_exception, registered, respond,
}
use ndma_edit.Presentation.Exceptions.Handlers as Handlers
use ndma_edit.Presentation.Middleware.{
  Request, Response, Context, Endpoint, correlation, request_logging,
}

-- The classes that `create_app` adds, with their options.
pub data Layer : Type 0 where
  cors : List Text → Layer
  trusted_host : List Text → Layer
  request_logging_layer correlation_layer : Layer

-- A router by its prefix.
pub record FastApi : Type 0 where
  pub title : Text
  pub openapi_url : Text
  pub docs_url : Text
  pub redoc_url : Text
  pub user_middleware : List Layer
  pub routers : List Text
  pub is_instrumented : Bool

-- `FastAPI(...)`
abbrev pub new_app : Settings → FastApi
new_app settings = record {
  title = settings.project_name;
  openapi_url = settings.api_prefix ++ codes "/openapi.json";
  docs_url = settings.api_prefix ++ codes "/docs";
  redoc_url = settings.api_prefix ++ codes "/redoc";
  user_middleware = [];
  routers = [];
  is_instrumented = Bool.false;
}

-- `app.add_middleware`: the newest is the outermost.
abbrev pub add_middleware : Layer → FastApi → FastApi
add_middleware layer app = record app { user_middleware = layer ∷ app.user_middleware }

-- `app.include_router`
abbrev pub include_router : Text → FastApi → FastApi
include_router prefix app = record app { routers = app.routers ++ prefix ∷ [] }

-- `create_app` from the call of `FastAPI` on. CORS goes with credentials, every method and every
-- header.
unfoldable pub build_app : Settings → FastApi
build_app settings =
    let app = new_app settings in
    let app1 = add_middleware (cors settings.security.cors_allow_origins) app in
    let app2 = add_middleware (trusted_host settings.security.trusted_hosts) app1 in
    let app3 = add_middleware request_logging_layer app2 in
    let app4 = add_middleware correlation_layer app3 in
    let app5 = include_router [] app4 in
    let app6 = include_router settings.api_prefix app5 in record app6 { is_instrumented = true }

-- The state of the process in which `create_app` runs: what the environment makes of the settings, the
-- cache of `get_settings`, the root logger, and the providers of OpenTelemetry.
pub record Process : Type 0 where
  pub loaded : Settings
  pub cached : Option Settings
  pub root_has_handlers : Bool
  pub root_level : ℕ
  pub telemetry : Telemetry

pub record Created : Type 0 where
  pub app : FastApi
  pub logging : LoggingConfig
  pub telemetry : Telemetry

-- `settings or get_settings()`
abbrev pub settings_or : Process → Option Settings → Settings
settings_or p none = (get_settings p.loaded p.cached).0
settings_or p (some settings) = settings

-- `create_app`
unfoldable pub create_app : Process → Option Settings → Outcome Created
unfolding build_app configure_logging configure_observability get_settings
create_app p given = do
  let settings = settings_or p given
  logging ← configure_logging p.root_has_handlers p.root_level settings.observability
  ok (record {
    app = build_app settings;
    logging = logging;
    telemetry = configure_observability settings.observability p.telemetry;
  })

-- What a response carries: a value of a route, or a problem.
pub data Body (A : Type 0) : Type 0 where
  value : A → Body A
  problem : ProblemDetail → Body A

-- Starlette gives the handler for `Exception` to its outermost middleware, and the others to the one
-- round the routes.
abbrev pub registered_inside : ExceptionClass → Option Handler
registered_inside exception = none
registered_inside c = registered c

-- What Starlette's middleware for CORS and trusted hosts makes of an endpoint.
pub record Foreign (B : Type 0) : Type 0 where
  pub cors_middleware : List Text → Endpoint B → Endpoint B
  pub trusted_host_middleware : List Text → Endpoint B → Endpoint B

-- What an exception handler reads of a request.
abbrev pub as_http : Request → Context → HttpRequest
as_http q c = record { path = q.path; correlation_id = c.correlation_id }

module _ {A : Type 0} where
  abbrev pub sent : Handlers.Response → Response (Body A)
  sent r = record { status_code = r.status_code; headers = []; body = problem r.content }

  -- `ServerErrorMiddleware`: the handler for `Exception` answers what comes through.
  abbrev pub last_resort :
      (Error → Context → Response (Body A))
      → Outcome (Response (Body A)) × Context
      → Response (Body A) × Context
  last_resort answer (ok r, c) = (r, c)
  last_resort answer (err e, c) = (answer e c, c)

  module _ (st : Starlette) (rt : Runtime) (ft : ForeignTexts) (env : Environment) where
    abbrev pub answer_with :
        Option Handler → Request → Error → Context → Outcome (Response (Body A))
    answer_with none q e c = err e
    answer_with (some h) q e c = ok (sent (respond rt ft env (as_http q c) h e))

    abbrev pub excepted :
        Request → Outcome (Response (Body A)) × Context → Outcome (Response (Body A)) × Context
    excepted q (ok r, c) = (ok r, c)
    excepted q (err e, c) = (answer_with (st.find_handler registered_inside (class_of e)) q e c, c)

    -- `ExceptionMiddleware`
    unfoldable pub exception_middleware : Endpoint (Body A) → Endpoint (Body A)
    exception_middleware routes q c = excepted q (routes q c)

    -- `uuid4` of the correlation middleware and the text of the duration, while a request is handled
    module _ (foreign : Foreign (Body A)) (fresh : Uuid) (duration_ms : Text) where
      abbrev pub layer : Layer → Endpoint (Body A) → Endpoint (Body A)
      layer (cors origins) = foreign.cors_middleware origins
      layer (trusted_host hosts) = foreign.trusted_host_middleware hosts
      layer request_logging_layer = request_logging duration_ms
      layer correlation_layer = correlation rt fresh

      unfoldable pub wrap : List Layer → Endpoint (Body A) → Endpoint (Body A)
      wrap [] endpoint = endpoint
      wrap (l ∷ ls) endpoint = layer l (wrap ls endpoint)

      -- What the application answers to a request, over its routes.
      unfoldable pub serve :
          FastApi → Endpoint (Body A) → Request → Context → Response (Body A) × Context
      unfolding wrap exception_middleware
      serve app routes q c =
          last_resort
            (λ e c'. sent (respond rt ft env (as_http q c') handle_unexpected_exception e))
            (wrap app.user_middleware (exception_middleware routes) q c)
