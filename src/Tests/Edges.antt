-- ===== src/Tests/Edges.antt =====
-- The theorems on responses, tokens, roles, the broker and the cache at concrete inputs.
use ndma_edit.Prelude.{
  Text, List, [], ◌∷◌, ◌++◌, Bool, true, false, Option, none, some, codes, ◌≡◌, ◌≢◌, refl, member,
  map, if◌then◌else◌, has_char, text_eq,
}
use ndma_edit.Outcome.{Outcome, ok, value_error, key_error, user_not_found}
use ndma_edit.Application.Context.{AuthContext, has_permission, has_role}
use ndma_edit.Application.Ports.{OutboundMessage}
use ndma_edit.Infrastructure.Settings.{AuthSettings, Environment, development, production}
use ndma_edit.Infrastructure.Auth.Tokens.{
  issue_access_token, get_current_auth_context, verify-issue,
}
use ndma_edit.Infrastructure.Caching.Redis.{starts_with, is_literal}
use ndma_edit.Infrastructure.Caching.Cache.{invalidate_prefix, invalidate_prefix-get}
use ndma_edit.Infrastructure.Messaging.{
  str, JsonObject, Streams, MessageHandler, stream_of, fields_of, settle, handle_entry,
  handle_entries,
}
use ndma_edit.Infrastructure.Messaging.Delivery.{
  as_str, handle_entry-published, raw_entry, ack_all, raw_entries_are_dropped,
}
use ndma_edit.Presentation.Exceptions.{ForeignTexts}
use ndma_edit.Presentation.Exceptions.Handlers.{
  HttpRequest, Response, Starlette, first_registered, response_to,
}
use ndma_edit.Presentation.Exceptions.{mro}
use ndma_edit.Presentation.Exceptions.Statuses.{
  expected_status, response_to-status, unexpected_reveals_nothing,
}
use ndma_edit.Tests.Surroundings.{ascii}
use ndma_edit.Tests.Servers.{Memory, lookup, memory_redis, jwt}

abbrev pub starlette : Starlette
starlette = record {
  find_handler = λ handlers c. first_registered handlers (mro c);
  find_handler_lem = λ handlers c. refl;
}

abbrev pub texts : ForeignTexts
texts = record { database_text = codes "connection lost"; repr_errors = λ errors. codes "{}" }

abbrev asked : HttpRequest
asked = record { path = codes "/api/v1/users/7"; correlation_id = none }

response_to-status_example :
    (r : Response) × (response_to starlette ascii texts production asked (user_not_found 7)
      ≡ some r)
    × (r.status_code ≡ expected_status (user_not_found 7))
    × (r.content.status ≡ expected_status (user_not_found 7))
response_to-status_example =
    response_to-status starlette ascii texts production asked (user_not_found 7)

is_production : Environment → Bool
is_production production = true
is_production _ = false

not_development : production ≢ development
not_development h = cc

unexpected_reveals_nothing_example :
    response_to starlette ascii texts production asked (value_error (codes "secret"))
    ≡ response_to starlette ascii texts production asked (key_error (codes "sub"))
unexpected_reveals_nothing_example =
    unexpected_reveals_nothing starlette ascii texts production asked (value_error (codes "secret"))
      (key_error (codes "sub")) not_development refl refl

abbrev settings : AuthSettings
settings = record {
  jwt_secret = codes "s";
  jwt_algorithm = codes "HS256";
  jwt_issuer = codes "ndma";
  jwt_audience = codes "api";
  access_token_ttl_minutes = 15;
}

abbrev token : jwt.Token
token =
    issue_access_token ascii jwt settings 7 (codes "user" ∷ [])
      (codes "users:write" ∷ codes "users:read" ∷ []) 1000

verify-issue_example :
    (c : AuthContext) × (get_current_auth_context ascii jwt settings (some token) 2000 ≡ ok c)
    × (c.user_id ≡ some 7)
    × (c.is_authenticated ≡ true)
    × ((p : Text) → has_permission c p ≡ member p (codes "users:write" ∷ codes "users:read" ∷ []))
    × ((r : Text) → has_role c r ≡ member r (codes "user" ∷ []))
verify-issue_example =
    verify-issue ascii jwt settings 7 (codes "user" ∷ [])
      (codes "users:write" ∷ codes "users:read" ∷ []) 1000 2000 refl refl

abbrev cached : Memory
cached = (codes "user:7", codes "1") ∷ (codes "page:1", codes "2") ∷ []

user_key_is_gone :
    lookup (codes "user:7") (invalidate_prefix memory_redis (codes "user:") cached) ≡ (
      if starts_with (codes "user:") (codes "user:7") then none else lookup (codes "user:7") cached)
unfolding is_literal has_char codes
user_key_is_gone = invalidate_prefix-get memory_redis (codes "user:") (codes "user:7") cached refl

-- What the broker and the handlers have done.
abbrev World : Type 0
World = List Text

abbrev streams : Streams World
streams = record {
  xadd = λ stream fields w. (ok tt, w ++ codes "added" ∷ []);
  dead_letter = λ stream fields w. (ok tt, w ++ codes "dead" ∷ []);
  xack = λ stream group entry_id w. (ok tt, w ++ entry_id ∷ []);
  xpending_first = λ stream group consumer w. ok none;
}

abbrev message : OutboundMessage
message = record {
  topic = codes "users";
  key = 7 ∷ [];
  event_type = codes "UserRegistered";
  payload = [];
  headers = (codes "outbox-id", 900 ∷ []) ∷ [];
}

abbrev greet : MessageHandler World
greet m w = (ok tt, w ++ m.event_type ∷ [])

abbrev handlers_for : Text → Option (MessageHandler World)
handlers_for [] = none
handlers_for (c ∷ t) = some greet

abbrev no_payload : Text → Outcome JsonObject
no_payload t = ok []

handle_entry-published_example :
    handle_entry streams
      (codes "app")
      (codes "w1")
      no_payload
      handlers_for
      (str (stream_of message.topic))
      (codes "1-0")
      (as_str (fields_of (λ p. codes "{}") message))
      []
    ≡ settle streams
        (codes "app")
        (codes "w1")
        no_payload
        (str (stream_of message.topic))
        (codes "1-0")
        (as_str (fields_of (λ p. codes "{}") message))
        (greet message [])
unfolding codes member text_eq
handle_entry-published_example =
    handle_entry-published (λ p. codes "{}") no_payload streams (codes "app") (codes "w1")
      handlers_for message greet (codes "1-0") [] refl refl (refl, tt)

abbrev raw_entries : List (Text × Text × List (Text × Text))
raw_entries =
    (codes "stream:users", codes "1-0", (codes "event_type", codes "UserRegistered") ∷ []) ∷ []

raw_entries_are_dropped_example :
    handle_entries streams
      (codes "app")
      (codes "w1")
      no_payload
      handlers_for
      (map raw_entry raw_entries)
      []
    ≡ ack_all streams (codes "app") (codes "w1") no_payload (map raw_entry raw_entries) []
raw_entries_are_dropped_example =
    raw_entries_are_dropped streams (codes "app") (codes "w1") no_payload handlers_for raw_entries
      [] refl
