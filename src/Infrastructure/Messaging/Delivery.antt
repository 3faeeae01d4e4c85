-- ===== src/Infrastructure/Messaging/Delivery.antt =====
-- What a consumer makes of the entries that a publisher has written.
use ndma_edit.Prelude.{
  Text, List, [], ◌∷◌, ◌++◌, Bool, false, ◌||◌, Option, none, some, ◌≡◌, refl, sym, ap, ◌∙◌, arith,
  text_eq, member, map, codes, member-append, append_assoc, append-nil,
}
use ndma_edit.Prelude.Dict.{put}
use ndma_edit.Outcome.{Outcome, ok, err, ◌and_then◌}
use ndma_edit.Application.Ports.{OutboundMessage}
use ndma_edit.Infrastructure.Messaging.{
  Received, str, bytes, Fields, field, field_or, put_all, reserved, event_type_name, JsonObject,
  stream_of, fields_of, after_prefix, removeprefix, other_fields, message_of_entry, Streams,
  MessageHandler, settle, handle_entry, handle_entries,
}

-- What the client returns for the fields that were written, with and without `decode_responses`.
abbrev pub as_str : List (Text × Text) → Fields
as_str [] = []
as_str ((n, v) ∷ fields) = (str n, v) ∷ as_str fields

abbrev pub as_bytes : List (Text × Text) → Fields
as_bytes [] = []
as_bytes ((n, v) ∷ fields) = (bytes n, v) ∷ as_bytes fields

abbrev pub names : List (Text × Text) → List Text
names [] = []
names ((n, v) ∷ fields) = n ∷ names fields

-- The names of some headers are new and all different.
abbrev pub FreshIn : List (Text × Text) → List Text → Type 0
FreshIn [] seen = Unit
FreshIn ((n, v) ∷ headers) seen = (member n seen ≡ false) × FreshIn headers (seen ++ n ∷ [])

or_false : (a b : Bool) → (a || b) ≡ false → (a ≡ false) × (b ≡ false)
or_false a b h = ground arith

put-fresh :
    (n v : Text) (fields : List (Text × Text))
    → member n (names fields) ≡ false
    → put n v fields ≡ fields ++ (n, v) ∷ []
unfolding put member
put-fresh n v [] h = refl
put-fresh n v ((k, w) ∷ fields) h =
    let (other, rest) = or_false (text_eq n k) (member n (names fields)) h in
    rw (other, put-fresh n v fields rest) refl

names-snoc :
    (n v : Text) (fields : List (Text × Text))
    → names (fields ++ (n, v) ∷ []) ≡ names fields ++ n ∷ []
names-snoc n v [] = refl
names-snoc n v ((k, w) ∷ fields) = rw (names-snoc n v fields) refl

put_all-fresh :
    (headers fields : List (Text × Text))
    → FreshIn headers (names fields)
    → put_all headers fields ≡ fields ++ headers
unfolding put_all
put_all-fresh [] fields h = sym (append-nil fields)
put_all-fresh ((n, v) ∷ headers) fields (new, rest) = rw (put-fresh n v fields new) (
    put_all-fresh headers (fields ++ (n, v) ∷ []) (rw (names-snoc n v fields) rest)
    ∙ append_assoc fields ((n, v) ∷ []) headers)

-- Fresh names are not reserved, if the reserved ones were seen.
other_fields-fresh :
    (headers : List (Text × Text)) (seen : List Text)
    → ((n : Text) → member n seen ≡ false → member n reserved ≡ false)
    → FreshIn headers seen
    → other_fields (as_str headers) ≡ headers
unfolding other_fields
other_fields-fresh [] seen known h = refl
other_fields-fresh ((n, v) ∷ headers) seen known (new, rest) =
    rw
      (
        known n new,
        other_fields-fresh headers (seen ++ n ∷ [])
            (λ k h.
              known k
                (or_false (member k seen) (member k (n ∷ []))
                  (sym (member-append k seen (n ∷ [])) ∙ h)).0)
            rest,
      )
      refl

as_str-append : (xs ys : List (Text × Text)) → as_str (xs ++ ys) ≡ as_str xs ++ as_str ys
as_str-append [] ys = refl
as_str-append ((n, v) ∷ xs) ys = rw (as_str-append xs ys) refl

module _ (dumps : JsonObject → Text) (loads : Text → Outcome JsonObject) where
  -- The message comes back from the fields that were published for it.
  message_of_entry-fields_of :
      (m : OutboundMessage)
      → loads (dumps m.payload) ≡ ok m.payload
      → FreshIn m.headers reserved
      → message_of_entry loads (str (stream_of m.topic)) (as_str (fields_of dumps m)) ≡ ok m
  unfolding fields_of message_of_entry text_eq codes field removeprefix after_prefix member
  message_of_entry-fields_of m codec fresh =
      rw (put_all-fresh m.headers _ fresh, codec)
        (ap (λ (hs : List (Text × Text)). Outcome.ok (record m { headers = hs }))
          (other_fields-fresh m.headers reserved (λ n h. h) fresh))

  event_type-published :
      (m : OutboundMessage)
      → FreshIn m.headers reserved
      → field_or event_type_name [] (as_str (fields_of dumps m)) ≡ m.event_type
  unfolding fields_of text_eq codes field
  event_type-published m fresh = rw (put_all-fresh m.headers _ fresh) refl

  module _ {S : Type 0} (streams : Streams S) (group consumer_name : Text) where
    -- With a client that decodes, which the worker of this repository does not have, a published
    -- message, whose headers have names of their own and whose payload survives JSON, reaches the
    -- handler that is registered for its event type exactly as it was published. The entry is then
    -- acknowledged, or moved aside, or left pending by what the handler did with it; what the commands
    -- for that raise, the call raises.
    pub handle_entry-published :
        (handlers : Text → Option (MessageHandler S)) (m : OutboundMessage)
        (handler : MessageHandler S) (entry_id : Text) (s : S)
        → handlers m.event_type ≡ some handler
        → loads (dumps m.payload) ≡ ok m.payload
        → FreshIn m.headers reserved
        → let stream = str (stream_of m.topic) in
          let fields = as_str (fields_of dumps m) in
          handle_entry streams group consumer_name loads handlers stream entry_id fields s
          ≡ settle streams group consumer_name loads stream entry_id fields (handler m s)
    unfolding handle_entry
    handle_entry-published handlers m handler entry_id s registered codec fresh =
        rw (event_type-published m fresh, registered, message_of_entry-fields_of m codec fresh) refl

field-as_bytes : (name : Text) (fields : List (Text × Text)) → field name (as_bytes fields) ≡ none
unfolding field
field-as_bytes name [] = refl
field-as_bytes name ((n, v) ∷ fields) = field-as_bytes name fields

-- An entry as a client without `decode_responses` returns it.
abbrev pub raw_entry : Text × Text × List (Text × Text) → Received × Text × Fields
raw_entry (stream, entry_id, fields) = (bytes stream, entry_id, as_bytes fields)

module _ {S : Type 0} (streams : Streams S) (group consumer_name : Text)
    (loads : Text → Outcome JsonObject) where
  unfoldable pub ack_all : List (Received × Text × Fields) → S → Outcome (Unit {0}) × S
  ack_all [] s = (ok tt, s)
  ack_all ((stream, entry_id, fields) ∷ entries) s =
      streams.xack stream group entry_id s and_then λ _. ack_all entries

  -- With a client that was built without `decode_responses`, every entry is acknowledged, up to the
  -- first acknowledgement that raises, and no handler runs, unless one is registered for the empty
  -- event type.
  pub raw_entries_are_dropped :
      (handlers : Text → Option (MessageHandler S))
      (entries : List (Text × Text × List (Text × Text))) (s : S)
      → handlers [] ≡ none
      → handle_entries streams group consumer_name loads handlers (map raw_entry entries) s
        ≡ ack_all (map raw_entry entries) s
  unfolding handle_entries handle_entry ack_all
  raw_entries_are_dropped handlers [] s h = refl
  raw_entries_are_dropped handlers ((stream, entry_id, fields) ∷ entries) s h =
      rw (field-as_bytes event_type_name fields, h)
        (acked (streams.xack (bytes stream) group entry_id s)
          (λ s'. raw_entries_are_dropped handlers entries s' h))
    where
      acked :
          (r : Outcome (Unit {0}) × S)
          → ((s' : S)
              → handle_entries streams group consumer_name loads handlers (map raw_entry entries) s'
                ≡ ack_all (map raw_entry entries) s')
          → (r and_then λ _.
              handle_entries streams group consumer_name loads handlers (map raw_entry entries))
            ≡ (r and_then λ _. ack_all (map raw_entry entries))
      acked (ok _, s') rest = rest s'
      acked (err e, s') rest = refl
