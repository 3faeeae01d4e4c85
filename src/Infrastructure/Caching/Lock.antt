-- ===== src/Infrastructure/Caching/Lock.antt =====
-- How the lock of an idempotency key is held and released.
use ndma_edit.Prelude.{Text, true, Option, none, some, ◌≡◌, refl, ◌∙◌, codes}
use ndma_edit.Outcome.{Outcome, ok, err}
use ndma_edit.Application.Messages.{Request, is_command}
use ndma_edit.Application.Context.{RequestContext}
use ndma_edit.Application.Pipeline.{Json, Value, App, Step}
use ndma_edit.Application.Pipeline.Behaviors.{
  finish, under_lock, after_lookup, lock_ttl, idempotency, in_progress,
}
use ndma_edit.Infrastructure.Caching.Redis.{Redis, JsonCodec, IsUp, set_if_free}
use ndma_edit.Infrastructure.Caching.Store.{lock_key, get_cached_result, redis_store}
use ndma_edit.Infrastructure.Caching.Runs.{
  idempotency-eq, idempotency-miss, idempotency-run, finish-ok, finish-err, try_acquire_lock-up,
}

module _ {R : Type 0} (client : Redis R) (js : JsonCodec) (up : IsUp client)
    (fingerprint : Request → Text) where
  -- As long as Redis answers, the lock of a key that was free is free again after a command with the
  -- key, whether the command was answered from the store, refused, run to its end or failed.
  pub lock_is_released :
      (next : Step R) (q : Request) (c : RequestContext) (key : Text)
      → c.idempotency_key ≡ some key
      → is_command q ≡ true
      → (s : App R) → client.get (lock_key key) s.redis ≡ none
      → client.get
          (lock_key key)
          (idempotency fingerprint (redis_store client js) next q c s).1.redis
        ≡ none
  lock_is_released next q c key keyed command s free =
      rw (idempotency-eq client js up fingerprint next q c key keyed command s)
        (after_lookup-free (get_cached_result client js key (fingerprint q) s.redis))
    where
      finish-free :
          (m : Outcome Value × App R)
          → client.get (lock_key key) (finish fingerprint (redis_store client js) key q m).1.redis
            ≡ none
      finish-free (ok v, s') =
          rw (finish-ok client js up fingerprint key q v s') (client.get-delete (lock_key key) _)
      finish-free (err e, s') =
          rw (finish-err client js up fingerprint key q e s') (client.get-delete (lock_key key) _)

      under_lock-free :
          (o : Option Text) (r : R)
          → client.get (lock_key key) s.redis ≡ none
          → let (taken, r') = set_if_free o r s.redis in
            client.get
              (lock_key key)
              (under_lock fingerprint (redis_store client js) key next q c s (ok taken, r')).1.redis
            ≡ none
      under_lock-free none r h = finish-free (next q c (record s { redis = r }))
      under_lock-free (some x) r h = h

      after_lookup-free :
          (o : Outcome (Option Json))
          → client.get
              (lock_key key)
              (after_lookup fingerprint (redis_store client js) key next q c s o).1.redis
            ≡ none
      after_lookup-free (ok (some j)) = free
      after_lookup-free (ok none) =
          rw (try_acquire_lock-up client js up key lock_ttl s.redis)
            (under_lock-free (client.get (lock_key key) s.redis) _ free)
      after_lookup-free (err e) = free

  -- A command is refused as long as the lock of its key lives. When Redis answers, the first command
  -- with a free and new key hands its handler a state in which the lock is held, for `lock_ttl`
  -- seconds; and in whatever state the lock of the key is held and no result is stored, a command
  -- with the key is refused as being in progress, its handler does not run, and nothing changes.
  pub held_lock_refuses :
      (next next' : Step R) (q q' : Request) (c c' : RequestContext) (key held : Text)
      → c.idempotency_key ≡ some key
      → c'.idempotency_key ≡ some key
      → is_command q ≡ true
      → is_command q' ≡ true
      → (s t : App R) → get_cached_result client js key (fingerprint q) s.redis ≡ ok none
      → client.get (lock_key key) s.redis ≡ none
      → get_cached_result client js key (fingerprint q') t.redis ≡ ok none
      → client.get (lock_key key) t.redis ≡ some held
      → let store = redis_store client js in
        let start = record s {
          redis = client.set (lock_key key) (codes "1") (some lock_ttl) s.redis;
        } in
        (idempotency fingerprint store next q c s ≡ finish fingerprint store key q (next q c start))
        × (client.get (lock_key key) start.redis ≡ some (codes "1"))
        × (idempotency fingerprint store next' q' c' t ≡ (err in_progress, t))
  held_lock_refuses next next' q q' c c' key held keyed keyed' command command' s t new free new'
        is_held =
      (
        idempotency-run client js up fingerprint next q c key keyed command s new free,
        client.get-set (lock_key key) (codes "1") _ s.redis,
        idempotency-miss client js up fingerprint next' q' c' key keyed' command' t new'
            ∙ rw (try_acquire_lock-up client js up key lock_ttl t.redis, is_held) refl,
      )
