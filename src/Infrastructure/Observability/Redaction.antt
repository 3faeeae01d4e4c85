-- ===== src/Infrastructure/Observability/Redaction.antt =====
-- What `_redact_sensitive` of backend/src/app/infrastructure/observability/logging.py does to the keys
-- of an event.
use ndma_edit.Prelude.{
  Text, List, [], ◌∷◌, Bool, true, false, ◌&&◌, Option, none, some, text_eq_iff, member, ◌≡◌, refl,
  ap, ◌∙◌, arith, Bool-cases, is_some, inl, inr, if◌then◌else◌,
}
use ndma_edit.Prelude.Dict.{put, keys, dict_get, dict_get-put, member-keys}
use ndma_edit.Runtime.{Runtime}
use ndma_edit.Infrastructure.Observability.{is_sensitive, redact_keys, redact_sensitive}

module _ {V : Type 0} (rt : Runtime) (mark : V) where
  -- What a key of an event has behind the loop.
  dict_get-redact_keys :
      (k : Text) (ks : List Text) (d : List (Text × V))
      → dict_get k (redact_keys rt mark ks d)
        ≡ (if is_sensitive rt k && member k ks then some mark else dict_get k d)
  unfolding redact_keys member
  dict_get-redact_keys k [] d = elim (Bool-cases (is_sensitive rt k)) [
    | inl secret ↦ rw secret refl
    | inr plain ↦ rw plain refl
  ]
  dict_get-redact_keys k (key ∷ ks) d = elim (Bool-cases (is_sensitive rt key)) [
    | inl secret ↦
        rw (secret, dict_get-redact_keys k ks (put key mark d), dict_get-put key k mark d)
          (ground (arith, text_eq_iff key k, text_eq_iff k key))
    | inr plain ↦
        rw (plain, dict_get-redact_keys k ks d)
          (ground (arith, text_eq_iff key k, text_eq_iff k key))
  ]

abbrev pub marked : {V : Type 0} → V → Option V → Option V
marked mark none = none
marked mark (some v) = some mark

marked_if :
    {V : Type 0} (mark : V) (b : Bool) (o : Option V)
    → (if b && is_some o then some mark else o) ≡ (if b then marked mark o else o)
marked_if mark true none = refl
marked_if mark true (some v) = refl
marked_if mark false none = refl
marked_if mark false (some v) = refl

module _ {V : Type 0} (rt : Runtime) (mark : V) where
  -- Behind the redaction of an event, a key whose lower case is one of the sensitive ones has the
  -- mark in place of its value, if it had one, and any other key has the value that it had.
  pub dict_get-redact_sensitive :
      (k : Text) (event_dict : List (Text × V))
      → dict_get k (redact_sensitive rt mark event_dict)
        ≡ (if is_sensitive rt k then marked mark (dict_get k event_dict) else dict_get k event_dict)
  unfolding redact_sensitive
  dict_get-redact_sensitive k event_dict =
      dict_get-redact_keys rt mark k (keys event_dict) event_dict
      ∙ ap (λ m. if is_sensitive rt k && m then some mark else dict_get k event_dict)
          (member-keys k event_dict)
      ∙ marked_if mark (is_sensitive rt k) (dict_get k event_dict)
