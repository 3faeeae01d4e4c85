-- ===== src/Infrastructure/Messaging/Consumer.antt =====
-- The consumer of backend/src/app/infrastructure/messaging/redis_streams.py as an object: its
-- handlers, its groups, and its task. When `stop` is called, what other clients do to the streams
-- and what the server answers are arguments.
pub mod Task
pub mod Kept
pub mod Pending
use ndma_edit.Prelude.{
  ℕ, Text, List, [], ◌∷◌, ◌++◌, Bool, true, false, ◌||◌, Option, none, some, codes, text_eq, map,
  ◌==◌, if◌then◌else◌,
}
use ndma_edit.Prelude.Dict.{put, dict_get}
use ndma_edit.Outcome.{Outcome, Error, ok, err, ◌and_then◌}
use ndma_edit.Infrastructure.Messaging.{
  Received, Fields, JsonObject, Streams, MessageHandler, stream_of, handle_entries,
}

-- The group commands that the consumer calls.
pub record Groups (S : Type 0) : Type 0 where
  -- `xgroup_create(stream, group, id="0", mkstream=True)`; what it raised, with its text
  pub xgroup_create : Text → Text → S → Option (Text × Error) × S
  -- `xreadgroup(group, consumer_name, {stream: ">", ...}, count=10, block=1000)`
  pub xreadgroup : Text → Text → List Text → S → Outcome (List (Received × Text × Fields)) × S

-- `"BUSYGROUP" not in str(exc)`
unfoldable pub starts_here : Text → Text → Bool
starts_here [] s = true
starts_here (c ∷ p) [] = false
starts_here (c ∷ p) (d ∷ s) = let rest = starts_here p s in if c == d then rest else false

unfoldable pub contains : Text → Text → Bool
unfolding starts_here
contains p [] = starts_here p []
contains p (c ∷ s) = let rest = contains p s in if starts_here p (c ∷ s) then true else rest

abbrev pub busy_group : Text
busy_group = codes "BUSYGROUP"

-- The task that `start` creates: not created, running, or over with a result.
pub data TaskState : Type 0 where
  no_task : TaskState
  running : TaskState
  over : Outcome (Unit {0}) → TaskState

-- `RedisStreamsConsumer`
pub record Consumer (S : Type 0) : Type 0 where
  pub group : Text
  pub consumer_name : Text
  pub handlers : List (Text × MessageHandler S)
  pub task : TaskState
  pub stopping : Bool

-- `__init__`
unfoldable pub new_consumer : {S : Type 0} → Text → Text → Consumer S
new_consumer group consumer_name = record {
  group = group;
  consumer_name = consumer_name;
  handlers = [];
  task = no_task;
  stopping = false;
}

-- `register`
unfoldable pub register : {S : Type 0} → Text → MessageHandler S → Consumer S → Consumer S
register event_type handler c = record c { handlers = put event_type handler c.handlers }

-- `_topics_for_registered_handlers`
abbrev pub topics_for_registered_handlers : List Text
topics_for_registered_handlers = codes "users" ∷ []

-- The set `streams` of `start`.
abbrev pub streams_to_read : List Text
streams_to_read = map stream_of topics_for_registered_handlers

abbrev ensured : {S : Type 0} → Option (Text × Error) × S → Outcome (Unit {0}) × S
ensured (none, s) = (ok tt, s)
ensured (some (message, error), s) =
    if contains busy_group message then (ok tt, s) else (err error, s)

-- What `stop` waits for: `none` while the task runs on.
abbrev pub awaited : TaskState → Option (Outcome (Unit {0}))
awaited no_task = some (ok tt)
awaited running = none
awaited (over r) = some r

-- What happens round one turn of the loop: what other clients of the server do before it, and whether
-- `stop` is called in it. The task gives way only in the commands and handlers that it awaits, so a
-- `stop` comes while a turn is under way, or before the first.
pub record Turn (S : Type 0) : Type 0 where
  pub stop_called : Bool
  pub meanwhile : S → S

module _ {S : Type 0} (groups : Groups S) where
  -- `_ensure_group`
  unfoldable pub ensure_group : Text → Text → S → Outcome (Unit {0}) × S
  unfolding contains
  ensure_group group stream s = ensured (groups.xgroup_create stream group s)

  unfoldable pub ensure_groups : Text → List Text → S → Outcome (Unit {0}) × S
  unfolding ensure_group
  ensure_groups group [] s = (ok tt, s)
  ensure_groups group (stream ∷ streams) s =
      ensure_group group stream s and_then λ _. ensure_groups group streams

  abbrev started : Consumer S → Outcome (Unit {0}) × S → Outcome (Consumer S) × S
  started c (ok _, s) = (ok (record c { stopping = false; task = running }), s)
  started c (err e, s) = (err e, s)

  -- `start`
  unfoldable pub start : Consumer S → S → Outcome (Consumer S) × S
  unfolding ensure_groups
  start c s = started c (ensure_groups c.group streams_to_read s)

  module _ (streams : Streams S) (loads : Text → Outcome JsonObject) where
    abbrev pub handled : Consumer S → Outcome (Unit {0}) × S → Consumer S × S
    handled c (ok _, s) = (c, s)
    handled c (err e, s) = (record c { task = over (err e) }, s)

    -- The rest of the body of the loop, with what `xreadgroup` returned.
    abbrev pub after_read :
        Consumer S → Outcome (List (Received × Text × Fields)) × S → Consumer S × S
    after_read c (ok entries, s) = handled c (
        handle_entries streams c.group c.consumer_name loads (λ t. dict_get t c.handlers) entries s)
    after_read c (err e, s) = (record c { task = over (err e) }, s)

    -- One turn of the loop of `_run`, from its test on.
    abbrev pub loop_body : Bool → Consumer S → S → Consumer S × S
    loop_body true c s = (record c { task = over (ok tt) }, s)
    loop_body false c s = after_read c (groups.xreadgroup c.group c.consumer_name streams_to_read s)

    abbrev pub if_running : TaskState → Consumer S → S → Consumer S × S
    if_running no_task c s = (c, s)
    if_running running c s = loop_body c.stopping c s
    if_running (over r) c s = (c, s)

    -- `stop` has set the flag in a turn, or has not.
    abbrev pub flagged : Turn S → Consumer S × S → Consumer S × S
    flagged w x = (record x.0 { stopping = x.0.stopping || w.stop_called }, x.1)

    -- A turn of the task: its test of the flag, and the body of the loop to its end.
    unfoldable pub turn : Turn S → Consumer S → S → Consumer S × S
    turn w c s = flagged w (if_running c.task c (w.meanwhile s))

    -- `_run`, over what happens before each of its turns.
    unfoldable pub run : List (Turn S) → Consumer S → S → Consumer S × S
    unfolding turn
    run [] c s = (c, s)
    run (w ∷ ws) c s = let (c', s') = turn w c s in run ws c' s'
