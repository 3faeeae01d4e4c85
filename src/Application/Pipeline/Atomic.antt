-- ===== src/Application/Pipeline/Atomic.antt =====
-- What a request leaves behind in the tables, through the whole pipeline: nothing if it fails or is
-- a query.
use ndma_edit.Prelude.{
  ℕ, Text, [], ◌∷◌, Bool, true, false, Option, none, some, ◌≡◌, refl, ltb, ◌*◌, subst, not, if_both,
}
use ndma_edit.Outcome.{Outcome, ok, err, Error}
use ndma_edit.Runtime.{Runtime}
use ndma_edit.Infrastructure.Persistence.Models.{Tables}
use ndma_edit.Infrastructure.Persistence.Database.{Database}
use ndma_edit.Application.Messages.{
  Request, register_user, rename_user, deactivate_user, get_user, list_users, other, FieldErrors,
  is_command, required_permission, validate,
}
use ndma_edit.Application.Context.{AuthContext, RequestContext, has_permission}
use ndma_edit.Application.Pipeline.{Json, Value, user, App, Step, IdempotencyStore}
use ndma_edit.Application.Pipeline.Behaviors.{
  log_end, logging, performance, slow_request_threshold_ms, refuse_or, permit, validation_behavior,
  authorization_behavior, finish, released, under_lock, after_lookup, by_key, lock_ttl, idempotency,
}
use ndma_edit.Application.Pipeline.Mediator.{
  TableHandler, bind_all, dispatch, send, returning, handlers, behaviors, send_request,
}
use ndma_edit.Application.Pipeline.Gate.{some_inj}
use ndma_edit.Application.Users.Handlers.{Draws}
use ndma_edit.Application.Users.Atomicity.{
  handle_register-atomic, handle_rename-atomic, handle_deactivate-atomic, handle_get-quiet,
  handle_list-quiet,
}

-- A fact about what a call does to the tables, by its result.
abbrev Effect : Type 1
Effect = Outcome Value → Tables → Tables → Type 0

-- A call that fails has kept the tables, and a call of which `quiet` holds keeps them anyway.
abbrev KeepsTables : Bool → Effect
KeepsTables quiet r before after =
    ((e : Error) → r ≡ err e → after ≡ before) × (quiet ≡ true → after ≡ before)

-- What the store does behind a handler raises nothing.
abbrev pub IsReliable : {R : Type 0} → IdempotencyStore R → Type 0
IsReliable {R = R} store =
    ((key mark : Text) (v : Value) (ttl : ℕ) (r : R)
      → (store.store_result key mark v ttl r).0 ≡ ok tt)
    × ((key : Text) (r : R) → (store.release_lock key r).0 ≡ ok tt)

module _ {R : Type 0} (quiet : Bool) where
  -- A part of a call keeps the tables from the state `s` on.
  abbrev KeepsIn : App R → Outcome Value × App R → Type 0
  KeepsIn s m = KeepsTables quiet m.0 s.tables m.1.tables

  KeepsIn-refused : (s : App R) (e : Error) → KeepsIn s (err e, s)
  KeepsIn-refused s e = (λ e' h. refl, λ h. refl)

  KeepsIn-log_end :
      (q : Request) (c : RequestContext) (s : App R) (m : Outcome Value × App R)
      → KeepsIn s m
      → KeepsIn s (log_end q c m)
  KeepsIn-log_end q c s (ok v, s') k = k
  KeepsIn-log_end q c s (err e, s') k = k

  KeepsIn-refuse_or :
      (es : FieldErrors) (f : App R → Outcome Value × App R) (s : App R)
      → KeepsIn s (f s)
      → KeepsIn s (refuse_or es f s)
  KeepsIn-refuse_or [] f s k = k
  KeepsIn-refuse_or (e ∷ es) f s k = KeepsIn-refused s _

  KeepsIn-permit :
      (o : Option Text) (auth : AuthContext) (f : App R → Outcome Value × App R) (s : App R)
      → KeepsIn s (f s)
      → KeepsIn s (permit o auth f s)
  KeepsIn-permit none auth f s k = k
  KeepsIn-permit (some p) auth f s k =
      if_both (KeepsIn s) (not auth.is_authenticated) (KeepsIn-refused s _)
        (if_both (KeepsIn s) (not (has_permission auth p)) (KeepsIn-refused s _) k)

  module _ (fingerprint : Request → Text) (store : IdempotencyStore R) where
    KeepsIn-failed :
        (s s' : App R) (e : Error) (o : Outcome (Unit {0}))
        → KeepsIn s (err e, s')
        → KeepsIn s (released fingerprint store (err e) o s')
    KeepsIn-failed s s' e (ok _) k = k
    KeepsIn-failed s s' e (err x) k = (λ e' h. k.0 e refl, k.1)

    KeepsIn-finish :
        (key : Text) (q : Request) (s : App R) (m : Outcome Value × App R)
        → IsReliable store
        → KeepsIn s m
        → KeepsIn s (finish fingerprint store key q m)
    KeepsIn-finish key q s (ok v, s') up k = rw (up.0 _ _ _ _ _, up.1 _ _) k
    KeepsIn-finish key q s (err e, s') up k = KeepsIn-failed s _ e _ k

    module _ (up : IsReliable store) (next : Step R) (q : Request) (c : RequestContext) (s : App R)
        (keeps : (s' : App R) → KeepsIn s' (next q c s')) where
      KeepsIn-under_lock :
          (key : Text) (l : Outcome Bool × R)
          → KeepsIn s (under_lock fingerprint store key next q c s l)
      KeepsIn-under_lock key (ok true, r) =
          KeepsIn-finish key q s (next q c (record s { redis = r })) up
            (keeps (record s { redis = r }))
      KeepsIn-under_lock key (ok false, r) = (λ e' h. refl, λ h. refl)
      KeepsIn-under_lock key (err e, r) = (λ e' h. refl, λ h. refl)

      KeepsIn-after_lookup :
          (key : Text) (r : Outcome (Option Json))
          → KeepsIn s (after_lookup fingerprint store key next q c s r)
      KeepsIn-after_lookup key (ok (some j)) = (λ e' h. refl, λ h. refl)
      KeepsIn-after_lookup key (ok none) =
          KeepsIn-under_lock key (store.try_acquire_lock key lock_ttl s.redis)
      KeepsIn-after_lookup key (err e) = KeepsIn-refused s e

      KeepsIn-by_key : (o : Option Text) → KeepsIn s (by_key fingerprint store o next q c s)
      KeepsIn-by_key none = keeps s
      KeepsIn-by_key (some key) =
          if_both (KeepsIn s) (not (is_command q)) (keeps s)
            (KeepsIn-after_lookup key (store.get_cached_result key (fingerprint q) s.redis))

Keeps-registered :
    (quiet : Bool) {h handler : TableHandler}
    → some h ≡ some handler
    → (t : Tables) → KeepsTables quiet (h t).0 t (h t).1
    → KeepsTables quiet (handler t).0 t (handler t).1
Keeps-registered quiet e t =
    subst (λ (h : TableHandler). KeepsTables quiet (h t).0 t (h t).1) (some_inj e)

module _ (rt : Runtime) (db : Database) (max_attempts : ℕ) (d : Draws) where
  -- A handler's result as a `Value`, and the tables after it.
  Keeps-returning :
      {A : Type 0} (f : A → Value) (m : Outcome A × Tables) (t : Tables)
      → ((e : Error) → m.0 ≡ err e → m.1 ≡ t)
      → (e : Error) → (returning f m).0 ≡ err e
      → (returning f m).1 ≡ t
  Keeps-returning f (ok a, t') t k e h = cc
  Keeps-returning f (err e', t') t k e h = k e' refl

  Keeps-handler :
      (q : Request) (handler : TableHandler)
      → handlers rt db max_attempts d q ≡ some handler
      → (t : Tables) → KeepsTables (not (is_command q)) (handler t).0 t (handler t).1
  unfolding handlers is_command
  Keeps-handler (register_user c) handler e t =
      Keeps-registered false e t (
        Keeps-returning user _ t (λ e'. handle_register-atomic rt db max_attempts d c t e'),
        λ h. cc,
      )
  Keeps-handler (rename_user c) handler e t =
      Keeps-registered false e t
        (Keeps-returning user _ t (λ e'. handle_rename-atomic rt db max_attempts d c t e'), λ h. cc)
  Keeps-handler (deactivate_user c) handler e t = Keeps-registered false e t (
    Keeps-returning user _ t (λ e'. handle_deactivate-atomic rt db max_attempts d c t e'),
    λ h. cc,
  )
  Keeps-handler (get_user q) handler e t =
      Keeps-registered true e t
        (λ e' h. handle_get-quiet rt db q t, λ h. handle_get-quiet rt db q t)
  Keeps-handler (list_users q) handler e t =
      Keeps-registered true e t
        (λ e' h. handle_list-quiet rt db q t, λ h. handle_list-quiet rt db q t)
  Keeps-handler (other name) handler e t = cc

module _ {R : Type 0} (fingerprint : Request → Text) (store : IdempotencyStore R)
    (elapsed_us : Request → RequestContext → ℕ) (up : IsReliable store) where
  module _ (quiet : Bool) (next : Step R) (q : Request) (c : RequestContext)
      (keeps : (s : App R) → KeepsIn quiet s (next q c s)) (s : App R) where
    Keeps-logging : KeepsIn quiet s (logging next q c s)
    unfolding logging
    Keeps-logging = KeepsIn-log_end quiet q c s _ (keeps _)

    Keeps-performance : (m : ℕ) → KeepsIn quiet s (performance m elapsed_us next q c s)
    unfolding performance
    Keeps-performance m =
        if_both (λ (s' : App R). KeepsTables quiet (next q c s).0 s.tables s'.tables)
          (ltb (m * 1000) (elapsed_us q c)) (keeps s) (keeps s)

    Keeps-validation : KeepsIn quiet s (validation_behavior next q c s)
    unfolding validation_behavior
    Keeps-validation = KeepsIn-refuse_or quiet (validate q) (next q c) s (keeps s)

    Keeps-authorization : KeepsIn quiet s (authorization_behavior next q c s)
    unfolding authorization_behavior
    Keeps-authorization = KeepsIn-permit quiet (required_permission q) c.auth (next q c) s (keeps s)

    Keeps-idempotency : KeepsIn quiet s (idempotency fingerprint store next q c s)
    unfolding idempotency
    Keeps-idempotency = KeepsIn-by_key quiet fingerprint store up next q c s keeps c.idempotency_key

  KeepsIn-dispatch :
      (quiet : Bool) (o : Option TableHandler) (q : Request) (c : RequestContext) (s : App R)
      → ((handler : TableHandler)
          → o ≡ some handler
          → (t : Tables) → KeepsTables quiet (handler t).0 t (handler t).1)
      → KeepsIn quiet s (dispatch o (behaviors fingerprint store elapsed_us) q c s)
  unfolding bind_all
  KeepsIn-dispatch quiet none q c s keeps = KeepsIn-refused quiet s _
  KeepsIn-dispatch quiet (some handler) q c s keeps =
      Keeps-logging quiet _ q c
        (λ s1.
          Keeps-performance quiet _ q c
            (Keeps-validation quiet _ q c (
              Keeps-authorization quiet _ q c
                (Keeps-idempotency quiet _ q c (λ s2. keeps handler refl s2.tables))))
            s1 slow_request_threshold_ms)
        s

module _ (rt : Runtime) (db : Database) (max_attempts : ℕ) {R : Type 0}
    (fingerprint : Request → Text) (store : IdempotencyStore R)
    (elapsed_us : Request → RequestContext → ℕ) (up : IsReliable store) where
  send_request-keeps :
      (d : Draws) (q : Request) (c : RequestContext) (s : App R)
      → KeepsIn
          (not (is_command q))
          s
          (send_request rt db max_attempts fingerprint store elapsed_us d q c s)
  unfolding send_request send
  send_request-keeps d q c s =
      KeepsIn-dispatch fingerprint store elapsed_us up _ (handlers rt db max_attempts d q) q c s
        (Keeps-handler rt db max_attempts d q)

  -- A request that `container.mediator.send` answers with an error has left both tables as they were,
  -- if the idempotency store raises nothing when it stores a result or releases a lock, which it does
  -- behind the handler and its commit.
  pub send_request-atomic :
      (d : Draws) (q : Request) (c : RequestContext) (s : App R) (e : Error)
      → (send_request rt db max_attempts fingerprint store elapsed_us d q c s).0 ≡ err e
      → (send_request rt db max_attempts fingerprint store elapsed_us d q c s).1.tables ≡ s.tables
  send_request-atomic d q c s = (send_request-keeps d q c s).0

  -- A query that is sent leaves both tables as they were, whether it returns or raises.
  pub send_request-quiet :
      (d : Draws) (q : Request) (c : RequestContext) (s : App R)
      → is_command q ≡ false
      → (send_request rt db max_attempts fingerprint store elapsed_us d q c s).1.tables ≡ s.tables
  send_request-quiet d q c s h = (send_request-keeps d q c s).1 (rw h refl)
