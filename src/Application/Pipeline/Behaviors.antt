-- ===== src/Application/Pipeline/Behaviors.antt =====
-- backend/src/app/application/common/behaviors: the five behaviors.
use ndma_edit.Prelude.{
  ℕ, ◌*◌, Text, [], ◌∷◌, ◌++◌, Bool, true, false, not, Option, none, some, codes, ltb,
  if◌then◌else◌,
}
use ndma_edit.Outcome.{Outcome, ok, err, Error, validation, authentication, authorization, conflict}
use ndma_edit.Application.Messages.{
  Request, FieldErrors, class_name, is_command, required_permission, validate,
}
use ndma_edit.Application.Context.{AuthContext, RequestContext, has_permission}
use ndma_edit.Application.Pipeline.{
  Json, Value, json, LogEntry, started, completed, failed, slow, replay, App, Step, Behavior,
  IdempotencyStore,
}

-- `_SLOW_REQUEST_THRESHOLD_MS`
abbrev pub slow_request_threshold_ms : ℕ
slow_request_threshold_ms = 500

-- `_LOCK_TTL` and `_RESULT_TTL`
abbrev pub lock_ttl : ℕ
lock_ttl = 30

abbrev pub result_ttl : ℕ
result_ttl = 24 * 60 * 60

-- The `ConflictException` of `IdempotencyBehavior.handle`.
abbrev pub in_progress : Error
in_progress = conflict (codes "A request with this idempotency key is already being processed")

module _ {R : Type 0} where
  abbrev pub write_log : LogEntry → App R → App R
  write_log entry s = record s { log = s.log ++ entry ∷ [] }

  abbrev pub log_end : Request → RequestContext → Outcome Value × App R → Outcome Value × App R
  log_end q c (ok v, s) =
      (ok v, write_log (completed (class_name q) c.correlation_id c.auth.user_id) s)
  log_end q c (err e, s) =
      (err e, write_log (failed (class_name q) c.correlation_id c.auth.user_id) s)

  -- `LoggingBehavior.handle`
  unfoldable pub logging : Behavior R
  logging call_next q c s =
      log_end q c
        (call_next q c (write_log (started (class_name q) c.correlation_id c.auth.user_id) s))

  -- `PerformanceBehavior.handle`; `elapsed_us` is what the clock measures for the call, in microseconds.
  unfoldable pub performance : ℕ → (Request → RequestContext → ℕ) → Behavior R
  performance threshold_ms elapsed_us call_next q c s =
      let (r, s') = call_next q c s in
      (
        r,
        if ltb (threshold_ms * 1000) (elapsed_us q c)
            then write_log (slow (class_name q) c.correlation_id) s'
            else s',
      )

  abbrev pub refuse_or :
      FieldErrors → (App R → Outcome Value × App R) → App R → Outcome Value × App R
  refuse_or [] k s = k s
  refuse_or (e ∷ es) k s = (err (validation (e ∷ es)), s)

  -- `ValidationBehavior.handle`
  unfoldable pub validation_behavior : Behavior R
  validation_behavior call_next q c = refuse_or (validate q) (call_next q c)

  abbrev pub permit :
      Option Text → AuthContext → (App R → Outcome Value × App R) → App R → Outcome Value × App R
  permit none auth k s = k s
  permit (some permission) auth k s =
      if not auth.is_authenticated
      then (err (authentication (codes "Authentication is required for this operation")), s)
      else if not (has_permission auth permission)
      then (
        err (authorization (codes "Missing required permission: '" ++ permission ++ codes "'")),
        s,
      )
      else k s

  -- `AuthorizationBehavior.handle`
  unfoldable pub authorization_behavior : Behavior R
  authorization_behavior call_next q c = permit (required_permission q) c.auth (call_next q c)

  module _ (fingerprint : Request → Text) (store : IdempotencyStore R) where
    -- The result of the `try`, by what `store_result` came to.
    abbrev pub unless_raised : Value → Outcome (Unit {0}) → Outcome Value
    unless_raised v (ok _) = ok v
    unless_raised v (err e) = err e

    -- The end of the `finally`, by what `release_lock` came to.
    abbrev pub released : Outcome Value → Outcome (Unit {0}) → App R → Outcome Value × App R
    released r (ok _) s = (r, s)
    released r (err e) s = (err e, s)

    -- The `try` and its `finally`, behind the lock.
    abbrev pub finish : Text → Request → Outcome Value × App R → Outcome Value × App R
    finish key q (ok v, s) =
        let stored = store.store_result key (fingerprint q) v result_ttl s.redis in
        let let_go = store.release_lock key stored.1 in
        released (unless_raised v stored.0) let_go.0 (record s { redis = let_go.1 })
    finish key q (err e, s) =
        let let_go = store.release_lock key s.redis in
        released (err e) let_go.0 (record s { redis = let_go.1 })

    abbrev pub under_lock :
        Text → Step R → Request → RequestContext → App R → Outcome Bool × R → Outcome Value × App R
    under_lock key call_next q c s (ok true, redis) =
        finish key q (call_next q c (record s { redis = redis }))
    under_lock key call_next q c s (ok false, redis) = (err in_progress, record s { redis = redis })
    under_lock key call_next q c s (err e, redis) = (err e, record s { redis = redis })

    abbrev pub after_lookup :
        Text
        → Step R
        → Request
        → RequestContext
        → App R
        → Outcome (Option Json)
        → Outcome Value × App R
    after_lookup key call_next q c s (ok (some j)) = (ok (json j), write_log (replay key) s)
    after_lookup key call_next q c s (ok none) =
        under_lock key call_next q c s (store.try_acquire_lock key lock_ttl s.redis)
    after_lookup key call_next q c s (err e) = (err e, s)

    abbrev pub by_key : Option Text → Step R → Step R
    by_key none call_next q c s = call_next q c s
    by_key (some key) call_next q c s =
        if not (is_command q)
        then call_next q c s
        else after_lookup key call_next q c s (store.get_cached_result key (fingerprint q) s.redis)

    -- `IdempotencyBehavior.handle`; `fingerprint` is `_fingerprint`, a hash of the request's fields.
    unfoldable pub idempotency : Behavior R
    idempotency call_next q c = by_key c.idempotency_key call_next q c
