-- ===== src/Infrastructure/Messaging.antt =====
-- backend/src/app/infrastructure/messaging/redis_streams.py: the publisher, and what the consumer
-- does with the entries that one XREADGROUP returns. The stream commands of the Redis client and the
-- handlers are arguments.
pub mod Delivery
pub mod Relayed
pub mod Consumer
pub mod Welcome
use ndma_edit.Prelude.{
  ℕ, Text, List, [], ◌∷◌, ◌++◌, Bool, true, false, not, Option, none, some, ◌==◌, leb, text_eq,
  member, keep, map, codes, if◌then◌else◌,
}
use ndma_edit.Prelude.Dict.{put}
use ndma_edit.Outcome.{Outcome, ok, err, type_error, ◌>>=◌, ◌and_then◌}
use ndma_edit.Application.Ports.{OutboundMessage}

-- A text as the client returns it: `str` where it was built with `decode_responses`, else `bytes`.
pub data Received : Type 0 where
  str bytes : Text → Received

-- A dict of a stream entry, in its order. Its values are looked up and never compared, so they are
-- texts in either case.
abbrev pub Fields : Type 0
Fields = List (Received × Text)

-- `fields.get(name)`
unfoldable pub field : Text → Fields → Option Text
field name [] = none
field name ((str n, v) ∷ fields) =
    let rest = field name fields in if text_eq name n then some v else rest
field name ((bytes n, v) ∷ fields) = field name fields

abbrev or_default : Text → Option Text → Text
or_default d none = d
or_default d (some v) = v

-- `fields.get(name, d)`
abbrev pub field_or : Text → Text → Fields → Text
field_or name d fields = or_default d (field name fields)

unfoldable pub put_all : List (Text × Text) → List (Text × Text) → List (Text × Text)
unfolding put
put_all [] fields = fields
put_all ((n, v) ∷ more) fields = put_all more (put n v fields)

abbrev pub key_name : Text
key_name = codes "key"

abbrev pub event_type_name : Text
event_type_name = codes "event_type"

abbrev pub payload_name : Text
payload_name = codes "payload"

abbrev pub reserved : List Text
reserved = key_name ∷ event_type_name ∷ payload_name ∷ []

abbrev pub JsonObject : Type 0
JsonObject = List (Text × Option Text)

-- `f"stream:{topic}"`
abbrev pub stream_of : Text → Text
stream_of topic = codes "stream:" ++ topic

-- The `fields` of `RedisStreamsPublisher.publish`.
unfoldable pub fields_of : (JsonObject → Text) → OutboundMessage → List (Text × Text)
unfolding put_all
fields_of dumps m =
    put_all m.headers
      ((key_name, m.key) ∷ (event_type_name, m.event_type) ∷ (payload_name, dumps m.payload) ∷ [])

-- `str.removeprefix`
unfoldable pub after_prefix : Text → Text → Option Text
after_prefix [] s = some s
after_prefix (c ∷ p) [] = none
after_prefix (c ∷ p) (d ∷ s) = let rest = after_prefix p s in if c == d then rest else none

unfoldable pub removeprefix : Text → Text → Text
unfolding after_prefix
removeprefix p s = or_default s (after_prefix p s)

-- The topic of a stream; `bytes.removeprefix` takes no `str`.
abbrev topic_of : Received → Outcome Text
topic_of (str s) = ok (removeprefix (codes "stream:") s)
topic_of (bytes s) = err (type_error (codes "a bytes-like object is required, not 'str'"))

-- `{k: v for k, v in fields.items() if k not in {...}}`
unfoldable pub other_fields : Fields → List (Text × Text)
other_fields [] = []
other_fields ((str n, v) ∷ fields) =
    let rest = other_fields fields in if member n reserved then rest else (n, v) ∷ rest
other_fields ((bytes n, v) ∷ fields) = (n, v) ∷ other_fields fields

-- The message that `_handle_entry` builds.
unfoldable pub message_of_entry :
    (Text → Outcome JsonObject) → Received → Fields → Outcome OutboundMessage
unfolding field removeprefix other_fields
message_of_entry loads stream fields = do
  topic ← topic_of stream
  payload ← loads (field_or payload_name (codes "{}") fields)
  ok (record {
    topic = topic;
    key = field_or key_name [] fields;
    event_type = field_or event_type_name [] fields;
    payload = payload;
    headers = other_fields fields;
  })

-- The stream commands that the module calls; each may raise.
pub record Streams (S : Type 0) : Type 0 where
  -- `xadd(stream, fields)`
  pub xadd : Text → List (Text × Text) → S → Outcome (Unit {0}) × S
  -- `xadd(f"{stream}:dead-letter", fields)`
  pub dead_letter : Received → Fields → S → Outcome (Unit {0}) × S
  -- `xack(stream, group, entry_id)`
  pub xack : Received → Text → Text → S → Outcome (Unit {0}) × S
  -- `xpending_range(stream, group, "-", "+", 1, consumername)`: `times_delivered` of its first row
  pub xpending_first : Received → Text → Text → S → Outcome (Option ℕ)

-- `MessageHandler.handle`
abbrev pub MessageHandler : Type 0 → Type 0
MessageHandler S = OutboundMessage → S → Outcome (Unit {0}) × S

-- `_MAX_DELIVERIES`
abbrev pub max_deliveries : ℕ
max_deliveries = 5

abbrev pub deliveries_of : Option ℕ → ℕ
deliveries_of none = 1
deliveries_of (some n) = n

module _ {S : Type 0} (streams : Streams S) where
  -- `RedisStreamsPublisher.publish`
  unfoldable pub publish : (JsonObject → Text) → OutboundMessage → S → Outcome (Unit {0}) × S
  unfolding fields_of
  publish dumps m = streams.xadd (stream_of m.topic) (fields_of dumps m)

  module _ (group consumer_name : Text) (loads : Text → Outcome JsonObject) where
    -- The `except` from the answer of `xpending_range` on.
    abbrev pub counted : Received → Text → Fields → Outcome (Option ℕ) → S → Outcome (Unit {0}) × S
    counted stream entry_id fields (ok first) s =
        if leb max_deliveries (deliveries_of first)
        then (streams.dead_letter stream fields s and_then λ _. streams.xack stream group entry_id)
        else (ok tt, s)
    counted stream entry_id fields (err e) s = (err e, s)

    -- Behind the handler: `else` and `except`.
    unfoldable pub settle :
        Received → Text → Fields → Outcome (Unit {0}) × S → Outcome (Unit {0}) × S
    settle stream entry_id fields (ok _, s) = streams.xack stream group entry_id s
    settle stream entry_id fields (err _, s) =
        counted stream entry_id fields (streams.xpending_first stream group consumer_name s) s

    abbrev pub deliver :
        Received
        → Text
        → Fields
        → MessageHandler S
        → Outcome OutboundMessage
        → S
        → Outcome (Unit {0}) × S
    deliver stream entry_id fields handler (ok m) s = settle stream entry_id fields (handler m s)
    deliver stream entry_id fields handler (err e) s = (err e, s)

    abbrev pub handle_with :
        Received → Text → Fields → Option (MessageHandler S) → S → Outcome (Unit {0}) × S
    handle_with stream entry_id fields none s = streams.xack stream group entry_id s
    handle_with stream entry_id fields (some handler) s =
        deliver stream entry_id fields handler (message_of_entry loads stream fields) s

    -- `_handle_entry`; what it raises ends the consumer's task.
    unfoldable pub handle_entry :
        (Text → Option (MessageHandler S)) → Received → Text → Fields → S → Outcome (Unit {0}) × S
    unfolding field message_of_entry settle
    handle_entry handlers stream entry_id fields =
        handle_with stream entry_id fields (handlers (field_or event_type_name [] fields))

    -- The two loops of `_run` over one response.
    unfoldable pub handle_entries :
        (Text → Option (MessageHandler S))
        → List (Received × Text × Fields)
        → S
        → Outcome (Unit {0}) × S
    unfolding handle_entry
    handle_entries handlers [] s = (ok tt, s)
    handle_entries handlers ((stream, entry_id, fields) ∷ entries) s =
        handle_entry handlers stream entry_id fields s and_then λ _. handle_entries handlers entries
