-- ===== src/Infrastructure/Caching/Store.antt =====
-- backend/src/app/infrastructure/caching/redis_idempotency_store.py
use ndma_edit.Prelude.{ℕ, Text, ◌++◌, Bool, Option, none, some, codes, text_eq, not, if◌then◌else◌}
use ndma_edit.Outcome.{Outcome, ok, err, ◌>>=◌}
use ndma_edit.Application.Pipeline.{Json, null, text, Value, json, IdempotencyStore}
use ndma_edit.Infrastructure.Caching.Redis.{
  Redis, Fault, answers, raises, raises_behind, reading, writing, locking, deleting, StoredResult,
  JsonCodec,
}

-- `_RESULT_PREFIX + key` and `_LOCK_PREFIX + key`
abbrev pub result_key : Text → Text
result_key key = codes "idempotency:result:" ++ key

abbrev pub lock_key : Text → Text
lock_key key = codes "idempotency:lock:" ++ key

-- `None` in Python is both the JSON null and no result.
abbrev pub non_null : Json → Option Json
non_null null = none
non_null (text s) = some (text s)

-- What `json.dumps(..., default=str)` keeps of a result: a dataclass has no JSON form.
abbrev pub plain : JsonCodec → Value → Json
plain js (json j) = j
plain js v = text (js.text_of v)

module _ {R : Type 0} (client : Redis R) (js : JsonCodec) where
  abbrev matching : Text → StoredResult → Option Json
  matching fingerprint stored =
      if not (text_eq stored.fingerprint fingerprint) then none else non_null stored.result

  abbrev pub cached_in : Text → Option Text → Outcome (Option Json)
  cached_in fingerprint none = ok none
  cached_in fingerprint (some raw) = do stored ← js.loads raw; ok (matching fingerprint stored)

  abbrev got : Fault → Outcome (Option Json) → Outcome (Option Json)
  got answers o = o
  got (raises e) o = err e
  got (raises_behind e) o = err e

  unfoldable pub get_cached_result : Text → Text → R → Outcome (Option Json)
  get_cached_result key fingerprint r =
      got (client.fault reading (result_key key) r)
        (cached_in fingerprint (client.get (result_key key) r))

  -- A command by what it comes to, with its answer and the database behind and before it.
  abbrev pub done : {A : Type 0} → Fault → A × R → R → Outcome A × R
  done answers (a, after) before = (ok a, after)
  done (raises e) (a, after) before = (err e, before)
  done (raises_behind e) (a, after) before = (err e, after)

  unfoldable pub store_result : Text → Text → Value → ℕ → R → Outcome (Unit {0}) × R
  store_result key fingerprint result ttl r =
      let stored = js.dumps (record { fingerprint = fingerprint; result = plain js result }) in
      done (client.fault writing (result_key key) r)
        (tt, client.set (result_key key) stored (some ttl) r) r

  unfoldable pub try_acquire_lock : Text → ℕ → R → Outcome Bool × R
  try_acquire_lock key ttl r =
      done (client.fault locking (lock_key key) r) (client.set_nx (lock_key key) (codes "1") ttl r)
        r

  unfoldable pub release_lock : Text → R → Outcome (Unit {0}) × R
  release_lock key r =
      done (client.fault deleting (lock_key key) r) (tt, client.delete (lock_key key) r) r

  -- `RedisIdempotencyStore`
  abbrev pub redis_store : IdempotencyStore R
  redis_store = record {
    get_cached_result = get_cached_result;
    store_result = store_result;
    try_acquire_lock = try_acquire_lock;
    release_lock = release_lock;
  }
