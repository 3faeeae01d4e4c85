-- ===== src/Application/Pipeline/Reachable.antt =====
-- The states that a sequence of requests reaches, each sent behind the one before.
use ndma_edit.Prelude.{
  ℕ, Text, List, [], ◌∷◌, Bool, true, false, Option, none, some, ◌≡◌, refl, sym, ltb, ◌*◌, subst,
  not, if_both,
}
use ndma_edit.Outcome.{Outcome, ok, err}
use ndma_edit.Runtime.{Runtime}
use ndma_edit.Infrastructure.Persistence.Models.{Tables}
use ndma_edit.Infrastructure.Persistence.Database.{Database}
use ndma_edit.Application.Messages.{
  Request, register_user, rename_user, deactivate_user, get_user, list_users, other, FieldErrors,
  is_command, required_permission, validate,
}
use ndma_edit.Application.Context.{AuthContext, RequestContext, has_permission}
use ndma_edit.Application.Pipeline.{Json, LogEntry, Value, App, Step, IdempotencyStore}
use ndma_edit.Application.Pipeline.Behaviors.{
  log_end, logging, performance, slow_request_threshold_ms, refuse_or, permit, validation_behavior,
  authorization_behavior, finish, released, under_lock, after_lookup, by_key, lock_ttl, idempotency,
}
use ndma_edit.Application.Pipeline.Mediator.{
  TableHandler, bind_all, dispatch, send, handlers, behaviors, send_request,
}
use ndma_edit.Application.Pipeline.Gate.{some_inj}
use ndma_edit.Application.Users.Handlers.{Draws}
use ndma_edit.Application.Users.Atomicity.{handle_get-quiet, handle_list-quiet}
use ndma_edit.Application.Users.Unique.{
  handle_register-IsUnique, handle_rename-IsUnique, handle_deactivate-IsUnique,
}
use ndma_edit.Infrastructure.Persistence.UnitOfWork.Unique.{IsUnique}

-- A part of a call keeps the keys unique from the state `s` on.
abbrev KeepsUniqueIn : {R : Type 0} → App R → Outcome Value × App R → Type 0
KeepsUniqueIn s m = IsUnique s.tables → IsUnique m.1.tables

module _ {R : Type 0} (fingerprint : Request → Text) (store : IdempotencyStore R)
    (elapsed_us : Request → RequestContext → ℕ) where
  KeepsUniqueIn-log_end :
      (q : Request) (c : RequestContext) (s : App R) (m : Outcome Value × App R)
      → KeepsUniqueIn s m
      → KeepsUniqueIn s (log_end q c m)
  KeepsUniqueIn-log_end q c s (ok v, s') k = k
  KeepsUniqueIn-log_end q c s (err e, s') k = k

  KeepsUniqueIn-refuse_or :
      (es : FieldErrors) (f : App R → Outcome Value × App R) (s : App R)
      → KeepsUniqueIn s (f s)
      → KeepsUniqueIn s (refuse_or es f s)
  KeepsUniqueIn-refuse_or [] f s k = k
  KeepsUniqueIn-refuse_or (e ∷ es) f s k = λ h. h

  KeepsUniqueIn-permit :
      (o : Option Text) (auth : AuthContext) (f : App R → Outcome Value × App R) (s : App R)
      → KeepsUniqueIn s (f s)
      → KeepsUniqueIn s (permit o auth f s)
  KeepsUniqueIn-permit none auth f s k = k
  KeepsUniqueIn-permit (some p) auth f s k =
      if_both (KeepsUniqueIn s) (not auth.is_authenticated) (λ h. h)
        (if_both (KeepsUniqueIn s) (not (has_permission auth p)) (λ h. h) k)

  module _ (next : Step R) (q : Request) (c : RequestContext)
      (keeps : (s : App R) → KeepsUniqueIn s (next q c s)) (s : App R) where
    KeepsUniqueIn-released :
        (r : Outcome Value) (o : Outcome (Unit {0})) (s' : App R)
        → KeepsUniqueIn s (r, s')
        → KeepsUniqueIn s (released fingerprint store r o s')
    KeepsUniqueIn-released r (ok _) s' k = k
    KeepsUniqueIn-released r (err e) s' k = k

    KeepsUniqueIn-finish :
        (key : Text) (m : Outcome Value × App R)
        → KeepsUniqueIn s m
        → KeepsUniqueIn s (finish fingerprint store key q m)
    KeepsUniqueIn-finish key (ok v, s') k = KeepsUniqueIn-released _ _ _ k
    KeepsUniqueIn-finish key (err e, s') k = KeepsUniqueIn-released _ _ _ k

    KeepsUniqueIn-under_lock :
        (key : Text) (l : Outcome Bool × R)
        → KeepsUniqueIn s (under_lock fingerprint store key next q c s l)
    KeepsUniqueIn-under_lock key (ok true, r) =
        KeepsUniqueIn-finish key (next q c (record s { redis = r }))
          (keeps (record s { redis = r }))
    KeepsUniqueIn-under_lock key (ok false, r) = λ h. h
    KeepsUniqueIn-under_lock key (err e, r) = λ h. h

    KeepsUniqueIn-after_lookup :
        (key : Text) (r : Outcome (Option Json))
        → KeepsUniqueIn s (after_lookup fingerprint store key next q c s r)
    KeepsUniqueIn-after_lookup key (ok (some j)) = λ h. h
    KeepsUniqueIn-after_lookup key (ok none) =
        KeepsUniqueIn-under_lock key (store.try_acquire_lock key lock_ttl s.redis)
    KeepsUniqueIn-after_lookup key (err e) = λ h. h

    KeepsUniqueIn-by_key :
        (o : Option Text) → KeepsUniqueIn s (by_key fingerprint store o next q c s)
    KeepsUniqueIn-by_key none = keeps s
    KeepsUniqueIn-by_key (some key) =
        if_both (KeepsUniqueIn s) (not (is_command q)) (keeps s)
          (KeepsUniqueIn-after_lookup key (store.get_cached_result key (fingerprint q) s.redis))

    KeepsUniqueIn-logging : KeepsUniqueIn s (logging next q c s)
    unfolding logging
    KeepsUniqueIn-logging = KeepsUniqueIn-log_end q c s _ (keeps _)

    KeepsUniqueIn-performance : (m : ℕ) → KeepsUniqueIn s (performance m elapsed_us next q c s)
    unfolding performance
    KeepsUniqueIn-performance m =
        if_both (λ (s' : App R). IsUnique s.tables → IsUnique s'.tables)
          (ltb (m * 1000) (elapsed_us q c)) (keeps s) (keeps s)

    KeepsUniqueIn-validation : KeepsUniqueIn s (validation_behavior next q c s)
    unfolding validation_behavior
    KeepsUniqueIn-validation = KeepsUniqueIn-refuse_or (validate q) (next q c) s (keeps s)

    KeepsUniqueIn-authorization : KeepsUniqueIn s (authorization_behavior next q c s)
    unfolding authorization_behavior
    KeepsUniqueIn-authorization =
        KeepsUniqueIn-permit (required_permission q) c.auth (next q c) s (keeps s)

    KeepsUniqueIn-idempotency : KeepsUniqueIn s (idempotency fingerprint store next q c s)
    unfolding idempotency
    KeepsUniqueIn-idempotency = KeepsUniqueIn-by_key c.idempotency_key

  KeepsUniqueIn-dispatch :
      (o : Option TableHandler) (q : Request) (c : RequestContext) (s : App R)
      → ((handler : TableHandler)
          → o ≡ some handler
          → (t : Tables) → IsUnique t
          → IsUnique (handler t).1)
      → KeepsUniqueIn s (dispatch o (behaviors fingerprint store elapsed_us) q c s)
  unfolding bind_all
  KeepsUniqueIn-dispatch none q c s keeps = λ h. h
  KeepsUniqueIn-dispatch (some handler) q c s keeps =
      KeepsUniqueIn-logging _ q c
        (λ s1.
          KeepsUniqueIn-performance _ q c
            (KeepsUniqueIn-validation _ q c (
              KeepsUniqueIn-authorization _ q c
                (KeepsUniqueIn-idempotency _ q c (λ s2. keeps handler refl s2.tables))))
            s1 slow_request_threshold_ms)
        s

module _ (rt : Runtime) (db : Database) (max_attempts : ℕ) (d : Draws) where
  IsUnique-registered :
      {h handler : TableHandler}
      → some h ≡ some handler
      → (t : Tables) → (IsUnique t → IsUnique (h t).1)
      → IsUnique t
      → IsUnique (handler t).1
  IsUnique-registered e t = subst (λ (h : TableHandler). IsUnique t → IsUnique (h t).1) (some_inj e)

  IsUnique-handler :
      (q : Request) (handler : TableHandler)
      → handlers rt db max_attempts d q ≡ some handler
      → (t : Tables) → IsUnique t
      → IsUnique (handler t).1
  unfolding handlers
  IsUnique-handler (register_user c) handler e t =
      IsUnique-registered e t (handle_register-IsUnique rt db max_attempts d c t)
  IsUnique-handler (rename_user c) handler e t =
      IsUnique-registered e t (handle_rename-IsUnique rt db max_attempts d c t)
  IsUnique-handler (deactivate_user c) handler e t =
      IsUnique-registered e t (handle_deactivate-IsUnique rt db max_attempts d c t)
  IsUnique-handler (get_user q) handler e t =
      IsUnique-registered e t (subst IsUnique (sym (handle_get-quiet rt db q t)))
  IsUnique-handler (list_users q) handler e t =
      IsUnique-registered e t (subst IsUnique (sym (handle_list-quiet rt db q t)))
  IsUnique-handler (other name) handler e t = cc

module _ (rt : Runtime) (db : Database) (max_attempts : ℕ) {R : Type 0}
    (fingerprint : Request → Text) (store : IdempotencyStore R)
    (elapsed_us : Request → RequestContext → ℕ) where
  -- The states that requests lead to from a first one. Between two requests the log may be rotated
  -- and keys of Redis may expire, so only the tables are carried over.
  pub data Reachable (start : Tables) : Tables → Type 0 where
    first : Reachable start start
    sent :
        {t : Tables}
        → Reachable start t
        → (d : Draws) (q : Request) (c : RequestContext) (redis : R) (log : List LogEntry)
        → Reachable start
            (send_request rt db max_attempts fingerprint store elapsed_us d q c
              (record { tables = t; redis = redis; log = log })).1.tables

  -- However many requests are sent, one behind the other, no two users ever have the same id or the
  -- same email address, if none had at first.
  pub Reachable-IsUnique : (start t : Tables) → Reachable start t → IsUnique start → IsUnique t
  unfolding send_request send
  Reachable-IsUnique start t first h = h
  Reachable-IsUnique start _ (sent {t = t} r d q c redis log) h =
      KeepsUniqueIn-dispatch fingerprint store elapsed_us (handlers rt db max_attempts d q) q c
        (record { tables = t; redis = redis; log = log }) (IsUnique-handler rt db max_attempts d q)
        (Reachable-IsUnique start t r h)
