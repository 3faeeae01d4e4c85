-- ===== src/Infrastructure/Caching/Replay.antt =====
-- What becomes of a command that comes a second time with its idempotency key.
use ndma_edit.Prelude.{
  Text, Bool, true, false, none, some, ◌≡◌, refl, ap, ◌∙◌, subst, text_eq, codes,
}
use ndma_edit.Outcome.{ok_inj, Outcome, ok, err}
use ndma_edit.Application.Messages.{Request, is_command}
use ndma_edit.Application.Context.{RequestContext}
use ndma_edit.Application.Pipeline.{Json, Value, json, App, Step, replay}
use ndma_edit.Application.Pipeline.Behaviors.{finish, under_lock, lock_ttl, idempotency, write_log}
use ndma_edit.Infrastructure.Caching.Redis.{Redis, StoredResult, JsonCodec, IsUp}
use ndma_edit.Infrastructure.Caching.Store.{
  result_key, lock_key, non_null, plain, get_cached_result, redis_store,
}
use ndma_edit.Infrastructure.Caching.Runs.{
  get_cached_result-up, finish-ok, finish-err, get-let_go, get_cached-stored, idempotency-eq,
  idempotency-miss, idempotency-run,
}

module _ {R : Type 0} (client : Redis R) (js : JsonCodec) (up : IsUp client)
    (fingerprint : Request → Text) where
  -- A command that went through has stored its result.
  under_lock-stored :
      (next : Step R) (q : Request) (c : RequestContext) (key : Text) (s : App R) (v : Value)
      (l : Outcome Bool × R)
      → (under_lock fingerprint (redis_store client js) key next q c s l).0 ≡ ok v
      → client.get
          (result_key key)
          (under_lock fingerprint (redis_store client js) key next q c s l).1.redis
        ≡ some (js.dumps (record { fingerprint = fingerprint q; result = plain js v }))
  under_lock-stored next q c key s v (ok true, r) h = of_run (next q c (record s { redis = r })) h
    where
      of_run :
          (m : Outcome Value × App R)
          → (finish fingerprint (redis_store client js) key q m).0 ≡ ok v
          → client.get (result_key key) (finish fingerprint (redis_store client js) key q m).1.redis
            ≡ some (js.dumps (record { fingerprint = fingerprint q; result = plain js v }))
      of_run (ok w, s') h =
          let same : ok w ≡ ok v = rw (finish-ok client js up fingerprint key q w s') at h in
          rw (← ok_inj same, finish-ok client js up fingerprint key q w s')
            (get-let_go client js up fingerprint key q w s'.redis)
      of_run (err e, s') h =
          let clash : err e ≡ ok v = rw (finish-err client js up fingerprint key q e s') at h in
          absurd (cc)
  under_lock-stored next q c key s v (ok false, r) h = cc
  under_lock-stored next q c key s v (err e, r) h = cc

  -- A command that went through with an idempotency key is not run again: when it is sent a second
  -- time with the key, in any state in which the key of the result still holds what the first send
  -- left there, and Redis answers, the pipeline step answers with the stored JSON form of the first
  -- result, writes a line to the log and changes neither the tables nor Redis, whatever the handler
  -- behind it would do.
  pub second_send_replays :
      (next : Step R) (q : Request) (c : RequestContext) (key : Text)
      → c.idempotency_key ≡ some key
      → is_command q ≡ true
      → (s : App R) (v : Value) (j : Json)
      → get_cached_result client js key (fingerprint q) s.redis ≡ ok none
      → (idempotency fingerprint (redis_store client js) next q c s).0 ≡ ok v
      → non_null (plain js v) ≡ some j
      → (next' : Step R) (t : App R)
      → client.get (result_key key) t.redis
        ≡ client.get
            (result_key key)
            (idempotency fingerprint (redis_store client js) next q c s).1.redis
      → idempotency fingerprint (redis_store client js) next' q c t
        ≡ (ok (json j), write_log (replay key) t)
  second_send_replays next q c key keyed command s v j miss h plain_j next' t same =
      let first = idempotency-miss client js up fingerprint next q c key keyed command s miss in
      let stored =
        under_lock-stored next q c key s v _
          (subst (λ (m : Outcome Value × App R). m.0 ≡ ok v) first h) in
      let kept =
        same
        ∙ ap (λ (m : Outcome Value × App R). client.get (result_key key) m.1.redis) first
        ∙ stored in
      idempotency-eq client js up fingerprint next' q c key keyed command t
      ∙ rw (get_cached-stored client js up fingerprint key q v j t.redis plain_j kept) refl

  -- A key that was used with another payload is no error: the handler runs, behind the lock, and the
  -- stored result is replaced by the new one, as long as Redis answers.
  pub reused_key_runs_again :
      (next : Step R) (q : Request) (c : RequestContext) (key : Text)
      → c.idempotency_key ≡ some key
      → is_command q ≡ true
      → (s : App R) (x : StoredResult) → client.get (result_key key) s.redis ≡ some (js.dumps x)
      → text_eq x.fingerprint (fingerprint q) ≡ false
      → client.get (lock_key key) s.redis ≡ none
      → let m = idempotency fingerprint (redis_store client js) next q c s in
        let run =
          next q c
            (record s { redis = client.set (lock_key key) (codes "1") (some lock_ttl) s.redis }) in
        (m.0 ≡ run.0)
        × (m.1.tables ≡ run.1.tables)
        × ((v : Value)
            → m.0 ≡ ok v
            → client.get (result_key key) m.1.redis
              ≡ some (js.dumps (record { fingerprint = fingerprint q; result = plain js v })))
  reused_key_runs_again next q c key keyed command s x stored other free =
      rw (idempotency-run client js up fingerprint next q c key keyed command s missed free)
        (ran (next q c _))
    where
      missed : get_cached_result client js key (fingerprint q) s.redis ≡ ok none
      missed =
          get_cached_result-up client js up key (fingerprint q) s.redis
          ∙ rw (stored, js.loads-dumps x, other) refl

      ran :
          (m : Outcome Value × App R)
          → let n = finish fingerprint (redis_store client js) key q m in
            (n.0 ≡ m.0)
            × (n.1.tables ≡ m.1.tables)
            × ((v : Value)
                → n.0 ≡ ok v
                → client.get (result_key key) n.1.redis
                  ≡ some (js.dumps (record { fingerprint = fingerprint q; result = plain js v })))
      ran (ok w, s') = rw (finish-ok client js up fingerprint key q w s') (
        refl,
        refl,
        λ v h. rw (← ok_inj h) (get-let_go client js up fingerprint key q w s'.redis),
      )
      ran (err e, s') = rw (finish-err client js up fingerprint key q e s') (refl, refl, λ v h. cc)
