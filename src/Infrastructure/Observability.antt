-- ===== src/Infrastructure/Observability.antt =====
-- backend/src/app/infrastructure/observability: what logging.py and tracing.py set up, and the
-- processor that redacts.
pub mod Redaction
use ndma_edit.Prelude.{
  ℕ, Text, List, [], ◌∷◌, ◌++◌, Bool, true, false, ◌&&◌, Option, none, some, codes, member,
  is_empty, text_eq, if◌then◌else◌,
}
use ndma_edit.Prelude.Dict.{put, keys, dict_get}
use ndma_edit.Outcome.{Outcome, ok, err, value_error, ◌>>=◌, ◌>>◌}
use ndma_edit.Runtime.{Runtime}
use ndma_edit.Infrastructure.Settings.{ObservabilitySettings}

-- `_SENSITIVE_KEYS`
abbrev pub sensitive_keys : List Text
sensitive_keys =
    codes "password"
    ∷ codes "token"
    ∷ codes "authorization"
    ∷ codes "secret"
    ∷ codes "access_token"
    ∷ codes "refresh_token"
    ∷ []

-- `key.lower() in _SENSITIVE_KEYS`
unfoldable pub is_sensitive : Runtime → Text → Bool
is_sensitive rt key = member (rt.lower key) sensitive_keys

module _ {V : Type 0} (rt : Runtime) (mark : V) where
  -- The loop of `_redact_sensitive`; `mark` is the text "***REDACTED***" as a value of an event.
  unfoldable pub redact_keys : List Text → List (Text × V) → List (Text × V)
  redact_keys [] event_dict = event_dict
  redact_keys (key ∷ ks) event_dict =
      redact_keys ks (if is_sensitive rt key then put key mark event_dict else event_dict)

  -- `_redact_sensitive`
  unfoldable pub redact_sensitive : List (Text × V) → List (Text × V)
  unfolding redact_keys is_sensitive
  redact_sensitive event_dict = redact_keys (keys event_dict) event_dict

-- The processors of structlog that `configure_logging` chains.
pub data Processor : Type 0 where
  merge_contextvars add_log_level time_stamper redact json_renderer console_renderer : Processor

-- `logging.getLevelNamesMapping()`
abbrev pub level_names : List (Text × ℕ)
level_names =
    (codes "CRITICAL", 50)
    ∷ (codes "FATAL", 50)
    ∷ (codes "ERROR", 40)
    ∷ (codes "WARN", 30)
    ∷ (codes "WARNING", 30)
    ∷ (codes "INFO", 20)
    ∷ (codes "DEBUG", 10)
    ∷ (codes "NOTSET", 0)
    ∷ []

abbrev known_level : Text → Option ℕ → Outcome ℕ
known_level name none = err (value_error (codes "Unknown level: '" ++ name ++ codes "'"))
known_level name (some level) = ok level

-- The level that `logging.basicConfig(level=name)` sets. Where the root logger has a handler already,
-- it does nothing.
unfoldable pub basic_config : Bool → ℕ → Text → Outcome ℕ
unfolding dict_get
basic_config true root_level name = ok root_level
basic_config false root_level name = known_level name (dict_get name level_names)

abbrev or_info : Option ℕ → ℕ
or_info none = 20
or_info (some level) = level

pub record LoggingConfig : Type 0 where
  pub root_level : ℕ
  pub processors : List Processor
  -- what `make_filtering_bound_logger` filters by
  pub min_level : ℕ
  pub cache_logger_on_first_use : Bool

abbrev pub renderer : Bool → Processor
renderer json_logs = if json_logs then json_renderer else console_renderer

abbrev pub shared_processors : List Processor
shared_processors = merge_contextvars ∷ add_log_level ∷ time_stamper ∷ redact ∷ []

-- `configure_logging`, with the root logger as it is
unfoldable pub configure_logging : Bool → ℕ → ObservabilitySettings → Outcome LoggingConfig
unfolding basic_config
configure_logging root_has_handlers root_level settings = do
  level ← basic_config root_has_handlers root_level settings.log_level
  ok (record {
    root_level = level;
    processors = shared_processors ++ renderer settings.json_logs ∷ [];
    min_level = or_info (dict_get settings.log_level level_names);
    cache_logger_on_first_use = true;
  })

-- The providers of OpenTelemetry: each has its resource's service name and where its exporters send.
pub record Provider : Type 0 where
  pub service_name : Text
  pub endpoints : List Text

pub record Telemetry : Type 0 where
  pub tracer_provider : Option Provider
  pub meter_provider : Option Provider

-- `if settings.otlp_endpoint`, and the endpoint below it
unfoldable pub exporters : Text → Option Text → List Text
exporters path none = []
exporters path (some endpoint) = if is_empty endpoint then [] else (endpoint ++ path) ∷ []

abbrev provider_if : Bool → Provider → Option Provider → Option Provider
provider_if true provider before = some provider
provider_if false provider before = before

-- `configure_observability`, from the providers before
unfoldable pub configure_observability : ObservabilitySettings → Telemetry → Telemetry
unfolding exporters
configure_observability settings t = record {
  tracer_provider =
      provider_if settings.traces_enabled
        (record {
          service_name = settings.service_name;
          endpoints = exporters (codes "/v1/traces") settings.otlp_endpoint;
        })
        t.tracer_provider;
  meter_provider =
      provider_if settings.metrics_enabled
        (record {
          service_name = settings.service_name;
          endpoints = exporters (codes "/v1/metrics") settings.otlp_endpoint;
        })
        t.meter_provider;
}
