-- ===== src/Infrastructure/Messaging/Consumer/Pending.antt =====
-- What becomes of an entry whose handler fails, by the list of pending entries that the server keeps
-- for the consumer.
use ndma_edit.Prelude.{
  ℕ, Text, List, [], ◌∷◌, ◌++◌, Bool, false, not, ◌&&◌, Option, none, some, text_eq, map, keep,
  head?, All, All-keep_of, All-map, All-append, ◌≡◌, refl, sym, ◌∙◌, ap, subst, Option-cases, inl,
  inr,
}
use ndma_edit.Prelude.Dict.{dict_get}
use ndma_edit.Outcome.{Outcome, Error, ok, err, and_then-keeps}
use ndma_edit.Application.Ports.{OutboundMessage}
use ndma_edit.Infrastructure.Messaging.{
  Received, str, bytes, Fields, JsonObject, Streams, MessageHandler, settle, handle_entry,
  handle_entries, message_of_entry, deliver, counted, deliveries_of, field_or, event_type_name,
}
use ndma_edit.Infrastructure.Messaging.Consumer.{Consumer, Groups, Turn, run, streams_to_read}
use ndma_edit.Infrastructure.Messaging.Consumer.Kept.{run-Kept}

-- A row of XPENDING.
pub record Delivery : Type 0 where
  pub stream : Received
  pub entry_id : Text
  pub times : ℕ

abbrev pub same_received : Received → Received → Bool
same_received (str a) (str b) = text_eq a b
same_received (str a) (bytes b) = false
same_received (bytes a) (str b) = false
same_received (bytes a) (bytes b) = text_eq a b

-- Reading by ">" returns entries that no consumer of the group had before.
abbrev pub first_delivery : Received × Text × Fields → Delivery
first_delivery (stream, entry_id, fields) = record {
  stream = stream;
  entry_id = entry_id;
  times = 1;
}

abbrev pub is_for : Received → Text → Delivery → Bool
is_for stream entry_id d = same_received stream d.stream && text_eq entry_id d.entry_id

abbrev pub times_of : Option Delivery → Option ℕ
times_of none = none
times_of (some d) = some d.times

-- What the server keeps for one consumer of a group, and what its commands do to it.
pub record GroupView {S : Type 0} (groups : Groups S) (streams : Streams S)
    (group consumer_name : Text) : Type 0 where
  -- the pending entries of the consumer, the oldest first
  pub pending : S → List Delivery
  -- the entries of the streams `<stream>:dead-letter`
  pub dead_letters : S → List (Received × Fields)
  pub pending-read :
      (names : List Text) (s : S) (entries : List (Received × Text × Fields))
      → (groups.xreadgroup group consumer_name names s).0 ≡ ok entries
      → pending (groups.xreadgroup group consumer_name names s).1
        ≡ pending s ++ map first_delivery entries
  pub pending-read_failed :
      (names : List Text) (s : S) (e : Error)
      → (groups.xreadgroup group consumer_name names s).0 ≡ err e
      → pending (groups.xreadgroup group consumer_name names s).1 ≡ pending s
  pub dead_letters-read :
      (names : List Text) (s : S)
      → dead_letters (groups.xreadgroup group consumer_name names s).1 ≡ dead_letters s
  pub pending-ack :
      (stream : Received) (entry_id : Text) (s : S)
      → pending (streams.xack stream group entry_id s).1
        ≡ keep (λ d. not (is_for stream entry_id d)) (pending s)
  pub dead_letters-ack :
      (stream : Received) (entry_id : Text) (s : S)
      → dead_letters (streams.xack stream group entry_id s).1 ≡ dead_letters s
  pub dead_letters-add :
      (stream : Received) (fields : Fields) (s : S)
      → dead_letters (streams.dead_letter stream fields s).1
        ≡ dead_letters s ++ (stream, fields) ∷ []
  pub xpending_lem :
      (stream : Received) (s : S) (first : Option ℕ)
      → streams.xpending_first stream group consumer_name s ≡ ok first
      → first ≡ times_of (head? (keep (λ d. same_received stream d.stream) (pending s)))

-- Entries that were delivered once.
abbrev pub AllOnce : List Delivery → Type 0
AllOnce = All (λ d. d.times ≡ 1)

AllOnce-first : (entries : List (Received × Text × Fields)) → AllOnce (map first_delivery entries)
AllOnce-first [] = tt
AllOnce-first ((stream, entry_id, fields) ∷ entries) = (refl, AllOnce-first entries)

deliveries_of-once :
    (p : Delivery → Bool) (ds : List Delivery)
    → AllOnce ds
    → deliveries_of (times_of (head? (keep p ds))) ≡ 1
deliveries_of-once p ds once = of_kept (keep p ds) (All-keep_of (λ d. d.times ≡ 1) p ds once)
  where
    of_kept : (ks : List Delivery) → AllOnce ks → deliveries_of (times_of (head? ks)) ≡ 1
    of_kept [] h = refl
    of_kept (k ∷ ks) h = h.0

module _ {S : Type 0} (groups : Groups S) (streams : Streams S) (group consumer_name : Text)
    (view : GroupView groups streams group consumer_name) where
  open view use {pending, dead_letters}

  -- The state is as far as the group goes what it was.
  abbrev pub LeavesGroup : (S → S) → Type 0
  LeavesGroup f = (s : S) → (pending (f s) ≡ pending s) × (dead_letters (f s) ≡ dead_letters s)

  module _ (loads : Text → Outcome JsonObject) (dead : List (Received × Fields)) where
    -- Each pending entry was delivered once, and these are the dead letters.
    abbrev IsFresh : S → Type 0
    IsFresh s = AllOnce (pending s) × (dead_letters s ≡ dead)

    ack-IsFresh :
        (stream : Received) (entry_id : Text) (s : S)
        → IsFresh s
        → IsFresh (streams.xack stream group entry_id s).1
    ack-IsFresh stream entry_id s (once, d) = (
      subst AllOnce (sym (view.pending-ack stream entry_id s))
          (All-keep_of (λ d. d.times ≡ 1) (λ d. not (is_for stream entry_id d)) (pending s) once),
      view.dead_letters-ack stream entry_id s ∙ d,
    )

    settle-IsFresh :
        (stream : Received) (entry_id : Text) (fields : Fields) (r : Outcome (Unit {0}) × S)
        → IsFresh r.1
        → IsFresh (settle streams group consumer_name loads stream entry_id fields r).1
    unfolding settle
    settle-IsFresh stream entry_id fields (ok _, s) h = ack-IsFresh stream entry_id s h
    settle-IsFresh stream entry_id fields (err _, s) h =
        counted-IsFresh (streams.xpending_first stream group consumer_name s) refl
      where
        counted-IsFresh :
            (o : Outcome (Option ℕ))
            → streams.xpending_first stream group consumer_name s ≡ o
            → IsFresh (counted streams group consumer_name loads stream entry_id fields o s).1
        counted-IsFresh (ok first) e =
            rw
              (ap deliveries_of (view.xpending_lem stream s first e)
                ∙ deliveries_of-once (λ d. same_received stream d.stream) (pending s) h.0)
              h
        counted-IsFresh (err x) e = h

    read-IsFresh :
        (names : List Text) (s : S)
        → IsFresh s
        → IsFresh (groups.xreadgroup group consumer_name names s).1
    read-IsFresh names s (once, d) = (
      after (groups.xreadgroup group consumer_name names s).0 refl,
      view.dead_letters-read names s ∙ d,
    )
      where
        after :
            (r : Outcome (List (Received × Text × Fields)))
            → (groups.xreadgroup group consumer_name names s).0 ≡ r
            → AllOnce (pending (groups.xreadgroup group consumer_name names s).1)
        after (ok entries) e = subst AllOnce (sym (view.pending-read names s entries e)) (
            All-append (λ d. d.times ≡ 1) (pending s) (map first_delivery entries) once
              (AllOnce-first entries))
        after (err x) e = subst AllOnce (sym (view.pending-read_failed names s x e)) once

    moved-IsFresh : (f : S → S) → LeavesGroup f → (s : S) → IsFresh s → IsFresh (f s)
    moved-IsFresh f leaves s (once, d) = (subst AllOnce (sym (leaves s).0) once, (leaves s).1 ∙ d)

    module _ (handlers : List (Text × MessageHandler S))
        (quiet : (t : Text) (h : MessageHandler S)
          → dict_get t handlers ≡ some h
          → (m : OutboundMessage) → LeavesGroup (λ s. (h m s).1)) where
      deliver-IsFresh :
          (stream : Received) (entry_id : Text) (fields : Fields) (h : MessageHandler S)
          (m : Outcome OutboundMessage) (s : S)
          → ((m' : OutboundMessage) → LeavesGroup (λ s'. (h m' s').1))
          → IsFresh s
          → IsFresh (deliver streams group consumer_name loads stream entry_id fields h m s).1
      deliver-IsFresh stream entry_id fields h (ok m) s leaves fresh =
          settle-IsFresh stream entry_id fields (h m s)
            (moved-IsFresh (λ s'. (h m s').1) (leaves m) s fresh)
      deliver-IsFresh stream entry_id fields h (err e) s leaves fresh = fresh

      handle_entry-IsFresh :
          (stream : Received) (entry_id : Text) (fields : Fields) (s : S)
          → IsFresh s
          → IsFresh
              (handle_entry streams group consumer_name loads
                (λ t. dict_get t handlers)
                stream
                entry_id
                fields
                s).1
      unfolding handle_entry
      handle_entry-IsFresh stream entry_id fields s fresh =
          elim (Option-cases (dict_get (field_or event_type_name [] fields) handlers)) [
            | inl unknown ↦ rw unknown (ack-IsFresh stream entry_id s fresh)
            | inr (h, known) ↦ rw known (
                deliver-IsFresh stream entry_id fields h (message_of_entry loads stream fields) s
                  (quiet _ h known) fresh)
          ]

      handle_entries-IsFresh :
          (entries : List (Received × Text × Fields)) (s : S)
          → IsFresh s
          → IsFresh
              (handle_entries streams group consumer_name loads
                (λ t. dict_get t handlers)
                entries
                s).1
      unfolding handle_entries
      handle_entries-IsFresh [] s h = h
      handle_entries-IsFresh ((stream, entry_id, fields) ∷ entries) s h =
          and_then-keeps IsFresh _ _ (handle_entry-IsFresh stream entry_id fields s h)
            (λ _. handle_entries-IsFresh entries)

  -- No entry ever gets to a dead-letter stream, however often its handler fails: the consumer reads
  -- only entries that were not delivered before, so each pending one stays at one delivery, and the
  -- threshold of five is not met. Whatever the task does from a state in which each pending entry was
  -- delivered once, the dead letters are the old ones, if the handlers and the other clients leave
  -- this consumer's pending entries and the dead letters alone.
  pub nothing_is_dead_lettered :
      (loads : Text → Outcome JsonObject) (ws : List (Turn S)) (c : Consumer S) (s : S)
      → c.group ≡ group
      → c.consumer_name ≡ consumer_name
      → ((t : Text) (h : MessageHandler S)
          → dict_get t c.handlers ≡ some h
          → (m : OutboundMessage) → LeavesGroup (λ s'. (h m s').1))
      → All (λ w. LeavesGroup w.meanwhile) ws
      → AllOnce (pending s)
      → let s' = (run groups streams loads ws c s).1 in
        AllOnce (pending s') × (dead_letters s' ≡ dead_letters s)
  nothing_is_dead_lettered loads ws c s g n quiet others once =
      (run-Kept groups streams loads group consumer_name c.handlers (IsFresh loads (dead_letters s))
        (read-IsFresh loads (dead_letters s) streams_to_read)
        (λ entries s' h.
          handle_entries-IsFresh loads (dead_letters s) c.handlers quiet entries s' h)
        ws c s
        (All-map (λ w leaves. moved-IsFresh loads (dead_letters s) w.meanwhile leaves) ws others)
        (g, n, refl) (once, refl)).1
