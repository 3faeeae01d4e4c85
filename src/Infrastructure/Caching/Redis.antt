-- ===== src/Infrastructure/Caching/Redis.antt =====
-- What backend/src/app/infrastructure/caching takes from the Redis client and from `json`, as
-- operations with the documented facts that the code relies on. `R` is the database; keys expire
-- between the operations, so no fact speaks of two operations with time between them.
use ndma_edit.Prelude.{
  ℕ, Text, List, Bool, true, false, Option, none, some, is_some, text_eq, ◌≡◌, [], ◌∷◌, ◌==◌, ◌&&◌,
  ◌||◌, not, has_char, member,
}
use ndma_edit.Outcome.{Outcome, Error, ok}
use ndma_edit.Application.Pipeline.{Json, Value}

-- `SET NX` by what the key held.
abbrev pub set_if_free : {R : Type 0} → Option Text → R → R → Bool × R
set_if_free none held r = (true, held)
set_if_free (some v) held r = (false, r)

unfoldable pub starts_with : Text → Text → Bool
starts_with [] s = true
starts_with (c ∷ p) [] = false
starts_with (c ∷ p) (d ∷ s) = c == d && starts_with p s

-- No character of a text is special in a glob pattern.
unfoldable pub is_literal : Text → Bool
is_literal p = not (has_char b'*' p || has_char b'?' p || has_char b'[' p || has_char b'\\' p)

-- The commands that the idempotency store sends.
pub data Command : Type 0 where
  reading writing locking deleting : Command

-- What a command comes to: an answer, or an exception, with its effect left out or done.
pub data Fault : Type 0 where
  answers : Fault
  raises raises_behind : Error → Fault

pub record Redis (R : Type 0) : Type 0 where
  pub get : Text → R → Option Text
  -- `set(key, value, ex=ttl)`; no `ex` is `none`
  pub set : Text → Text → Option ℕ → R → R
  -- `set(key, value, nx=True, ex=ttl)`
  pub set_nx : Text → Text → ℕ → R → Bool × R
  pub delete : Text → R → R
  -- the keys that `scan_iter(match=prefix*)` yields
  pub scan_prefix : Text → R → List Text
  -- what a command on a key comes to; the operations above are the effects
  pub fault : Command → Text → R → Fault
  pub get-set : (k v : Text) (ttl : Option ℕ) (r : R) → get k (set k v ttl r) ≡ some v
  pub get-set_other :
      (k k' v : Text) (ttl : Option ℕ) (r : R)
      → text_eq k k' ≡ false
      → get k (set k' v ttl r) ≡ get k r
  pub set_nx_lem :
      (k v : Text) (ttl : ℕ) (r : R)
      → set_nx k v ttl r ≡ set_if_free (get k r) (set k v (some ttl) r) r
  pub get-delete : (k : Text) (r : R) → get k (delete k r) ≡ none
  pub get-delete_other :
      (k k' : Text) (r : R) → text_eq k k' ≡ false → get k (delete k' r) ≡ get k r
  pub scan_prefix_lem :
      (p k : Text) (r : R)
      → is_literal p ≡ true
      → member k (scan_prefix p r) ≡ (starts_with p k && is_some (get k r))

-- Every command gets its answer.
abbrev pub IsUp : {R : Type 0} → Redis R → Type 0
IsUp {R = R} client =
    (command : Command) (key : Text) (r : R) → client.fault command key r ≡ answers

-- The object that the idempotency store saves.
pub record StoredResult : Type 0 where
  pub fingerprint : Text
  pub result : Json

pub record JsonCodec : Type 0 where
  -- `str(result)` of a result that JSON has no form for
  pub text_of : Value → Text
  pub dumps : StoredResult → Text
  -- `json.loads`, and the two lookups behind it, which raise on another shape
  pub loads : Text → Outcome StoredResult
  pub loads-dumps : (x : StoredResult) → loads (dumps x) ≡ ok x
