-- ===== src/Presentation/Middleware.antt =====
-- backend/src/app/presentation/api/middleware. The handling of a request ends in a response or an
-- exception.
use ndma_edit.Prelude.{ℕ, Text, List, ◌∷◌, Option, none, some, codes}
use ndma_edit.Prelude.Dict.{put, without}
use ndma_edit.Outcome.{Outcome, ok, err}
use ndma_edit.Runtime.{Runtime, Uuid}

abbrev pub correlation_id_header : Text
correlation_id_header = codes "X-Correlation-ID"

abbrev pub response_time_header : Text
response_time_header = codes "X-Response-Time-Ms"

abbrev pub correlation_id_name : Text
correlation_id_name = codes "correlation_id"

-- What the middleware reads of a request.
pub record Request : Type 0 where
  pub method : Text
  pub path : Text
  pub correlation_header : Option Text

-- A response with a body of any type.
pub record Response (B : Type 0) : Type 0 where
  pub status_code : ℕ
  pub headers : List (Text × Text)
  pub body : B

-- A line of "app.access".
pub record AccessLine : Type 0 where
  pub method : Text
  pub path : Text
  pub status_code : ℕ
  pub duration_ms : Text

-- What goes along with a request: `request.state.correlation_id`, the variables that structlog has
-- bound, and the access log, the newest line first.
pub record Context : Type 0 where
  pub correlation_id : Option Text
  pub contextvars : List (Text × Text)
  pub access_log : List AccessLine

-- `RequestResponseEndpoint`
abbrev pub Endpoint : Type 0 → Type 0
Endpoint B = Request → Context → Outcome (Response B) × Context

-- `request.headers.get(CORRELATION_ID_HEADER, str(uuid4()))`
abbrev pub header_or : Text → Option Text → Text
header_or fresh none = fresh
header_or fresh (some value) = value

module _ {B : Type 0} where
  -- `response.headers[name] = value`
  abbrev pub with_header : Text → Text → Response B → Response B
  with_header name value r = record r { headers = put name value r.headers }

  -- The `finally` and what follows it.
  abbrev pub unbound : Text → Outcome (Response B) × Context → Outcome (Response B) × Context
  unbound correlation_id (ok r, c) = (
    ok (with_header correlation_id_header correlation_id r),
    record c { contextvars = without correlation_id_name c.contextvars },
  )
  unbound correlation_id (err e, c) =
      (err e, record c { contextvars = without correlation_id_name c.contextvars })

  -- `CorrelationIdMiddleware.dispatch`; `fresh` is what `uuid4` returns.
  unfoldable pub correlation : Runtime → Uuid → Endpoint B → Endpoint B
  correlation rt fresh call_next q c =
      let correlation_id = header_or (rt.format_uuid fresh) q.correlation_header in
      unbound correlation_id (
        call_next q (record c {
          correlation_id = some correlation_id;
          contextvars = put correlation_id_name correlation_id c.contextvars;
        }))

  abbrev pub logged :
      Text → Request → Outcome (Response B) × Context → Outcome (Response B) × Context
  logged duration_ms q (ok r, c) = (
    ok (with_header response_time_header duration_ms r),
    record c {
      access_log =
          record {
            method = q.method;
            path = q.path;
            status_code = r.status_code;
            duration_ms = duration_ms;
          }
          ∷ c.access_log;
    },
  )
  logged duration_ms q (err e, c) = (err e, c)

  -- `RequestLoggingMiddleware.dispatch`; the duration is the text of the milliseconds between two
  -- readings of the clock, rounded to two places.
  unfoldable pub request_logging : Text → Endpoint B → Endpoint B
  request_logging duration_ms call_next q c = logged duration_ms q (call_next q c)
