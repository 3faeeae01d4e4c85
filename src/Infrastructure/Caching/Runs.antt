-- ===== src/Infrastructure/Caching/Runs.antt =====
-- The runs of the idempotency behavior over its store on Redis.
use ndma_edit.Prelude.{
  ℕ, Text, true, false, none, some, ◌≡◌, refl, ◌∙◌, text_eq, text_eq_refl, codes,
}
use ndma_edit.Outcome.{Outcome, Error, ok, err}
use ndma_edit.Application.Messages.{Request, is_command}
use ndma_edit.Application.Context.{RequestContext}
use ndma_edit.Application.Pipeline.{Json, Value, App, Step}
use ndma_edit.Application.Pipeline.Behaviors.{
  finish, under_lock, after_lookup, lock_ttl, result_ttl, idempotency,
}
use ndma_edit.Infrastructure.Caching.Redis.{
  Redis, JsonCodec, IsUp, set_if_free, reading, writing, locking, deleting,
}
use ndma_edit.Application.Pipeline.Atomic.{IsReliable}
use ndma_edit.Infrastructure.Caching.Store.{
  cached_in, result_key, lock_key, non_null, plain, get_cached_result, store_result,
  try_acquire_lock, release_lock, redis_store,
}

pub result_key-lock_key : (k k' : Text) → text_eq (result_key k) (lock_key k') ≡ false
unfolding text_eq codes
result_key-lock_key k k' = refl

ok_inj : {A : Type 0} {a b : A} → Outcome.ok a ≡ ok b → a ≡ b
ok_inj e = cc

module _ {R : Type 0} (client : Redis R) (js : JsonCodec) (up : IsUp client) where
  -- The operations of the store, when Redis answers.
  pub get_cached_result-up :
      (key mark : Text) (r : R)
      → get_cached_result client js key mark r
        ≡ cached_in client js mark (client.get (result_key key) r)
  unfolding get_cached_result
  get_cached_result-up key mark r = rw (up reading (result_key key) r) refl

  pub store_result-up :
      (key mark : Text) (v : Value) (ttl : ℕ) (r : R)
      → store_result client js key mark v ttl r ≡ (
        ok tt,
        client.set
            (result_key key)
            (js.dumps (record { fingerprint = mark; result = plain js v }))
            (some ttl)
            r,
      )
  unfolding store_result
  store_result-up key mark v ttl r = rw (up writing (result_key key) r) refl

  pub release_lock-up :
      (key : Text) (r : R) → release_lock client js key r ≡ (ok tt, client.delete (lock_key key) r)
  unfolding release_lock
  release_lock-up key r = rw (up deleting (lock_key key) r) refl

  pub try_acquire_lock-up :
      (key : Text) (ttl : ℕ) (r : R)
      → try_acquire_lock client js key ttl r ≡ (
          let (taken, r') =
            set_if_free
              (client.get (lock_key key) r)
              (client.set (lock_key key) (codes "1") (some ttl) r)
              r in
          (ok taken, r'))
  unfolding try_acquire_lock
  try_acquire_lock-up key ttl r =
      rw (up locking (lock_key key) r, client.set_nx_lem (lock_key key) (codes "1") ttl r) refl

  -- A store on such a Redis raises nothing.
  pub redis_store-IsReliable : IsReliable (redis_store client js)
  redis_store-IsReliable = (
    λ key mark v ttl r. rw (store_result-up key mark v ttl r) refl,
    λ key r. rw (release_lock-up key r) refl,
  )

module _ {R : Type 0} (client : Redis R) (js : JsonCodec) (up : IsUp client)
    (fingerprint : Request → Text) where
  -- The database behind a command that went through: the result is stored, the lock let go.
  abbrev pub let_go : Text → Request → Value → R → R
  let_go key q v r = client.delete (lock_key key) (
      client.set (result_key key)
        (js.dumps (record { fingerprint = fingerprint q; result = plain js v })) (some result_ttl)
        r)

  pub finish-ok :
      (key : Text) (q : Request) (v : Value) (s : App R)
      → finish fingerprint (redis_store client js) key q (ok v, s)
        ≡ (ok v, record s { redis = let_go key q v s.redis })
  finish-ok key q v s =
      rw
        (
          store_result-up client js up key (fingerprint q) v result_ttl s.redis,
          release_lock-up client js up key,
        )
        refl

  pub finish-err :
      (key : Text) (q : Request) (e : Error) (s : App R)
      → finish fingerprint (redis_store client js) key q (err e, s)
        ≡ (err e, record s { redis = client.delete (lock_key key) s.redis })
  finish-err key q e s = rw (release_lock-up client js up key s.redis) refl

  -- What the key of a result holds behind a command that went through.
  pub get-let_go :
      (key : Text) (q : Request) (v : Value) (r : R)
      → client.get (result_key key) (let_go key q v r)
        ≡ some (js.dumps (record { fingerprint = fingerprint q; result = plain js v }))
  get-let_go key q v r =
      client.get-delete_other (result_key key) (lock_key key) _ (result_key-lock_key key key)
      ∙ client.get-set (result_key key) _ _ r

  -- A result that its key still holds is found.
  pub get_cached-stored :
      (key : Text) (q : Request) (v : Value) (j : Json) (r : R)
      → non_null (plain js v) ≡ some j
      → client.get (result_key key) r
        ≡ some (js.dumps (record { fingerprint = fingerprint q; result = plain js v }))
      → get_cached_result client js key (fingerprint q) r ≡ ok (some j)
  get_cached-stored key q v j r h held =
      get_cached_result-up client js up key (fingerprint q) r
      ∙ rw (held, js.loads-dumps _, text_eq_refl (fingerprint q), h) refl

  module _ (next : Step R) (q : Request) (c : RequestContext) (key : Text)
      (keyed : c.idempotency_key ≡ some key) (command : is_command q ≡ true) (s : App R) where
    -- A command with a key looks the key up first.
    pub idempotency-eq :
        idempotency fingerprint (redis_store client js) next q c s
        ≡ after_lookup fingerprint
            (redis_store client js)
            key
            next
            q
            c
            s
            (get_cached_result client js key (fingerprint q) s.redis)
    unfolding idempotency
    idempotency-eq = rw (keyed, command) refl

    -- A command whose key is new, or was used for another payload.
    pub idempotency-miss :
        get_cached_result client js key (fingerprint q) s.redis ≡ ok none
        → idempotency fingerprint (redis_store client js) next q c s
          ≡ under_lock fingerprint
              (redis_store client js)
              key
              next
              q
              c
              s
              (try_acquire_lock client js key lock_ttl s.redis)
    idempotency-miss miss = idempotency-eq ∙ rw miss refl

    -- The state that the handler starts from, with the lock taken.
    abbrev pub locked : App R
    locked = record s { redis = client.set (lock_key key) (codes "1") (some lock_ttl) s.redis }

    pub idempotency-run :
        get_cached_result client js key (fingerprint q) s.redis ≡ ok none
        → client.get (lock_key key) s.redis ≡ none
        → idempotency fingerprint (redis_store client js) next q c s
          ≡ finish fingerprint (redis_store client js) key q (next q c locked)
    idempotency-run miss free =
        idempotency-miss miss
        ∙ rw (try_acquire_lock-up client js up key lock_ttl s.redis, free) refl
