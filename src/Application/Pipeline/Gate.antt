-- ===== src/Application/Pipeline/Gate.antt =====
-- What a request has passed when it comes back without an error.
use ndma_edit.Prelude.{
  ℕ, Text, List, [], ◌∷◌, Bool, true, false, Option, none, some, ◌≡◌, refl, ap, sym, not,
  if◌then◌else◌, ◌∙◌,
}
use ndma_edit.Outcome.{Outcome, ok, err, Error}
use ndma_edit.Runtime.{Runtime}
use ndma_edit.Infrastructure.Persistence.Database.{Database}
use ndma_edit.Application.Messages.{Request, FieldErrors, required_permission, validate}
use ndma_edit.Application.Context.{AuthContext, RequestContext, has_permission}
use ndma_edit.Application.Pipeline.{Value, App, Step, Behavior, IdempotencyStore}
use ndma_edit.Application.Pipeline.Behaviors.{
  log_end, logging, performance, slow_request_threshold_ms, refuse_or, validation_behavior,
  authorization_behavior, permit,
}
use ndma_edit.Application.Pipeline.Mediator.{
  TableHandler, bind_all, dispatch, on_tables, send, handlers, behaviors, send_request,
}
use ndma_edit.Application.Users.Handlers.{Draws}

-- The caller holds the permission that the request asks for, if it asks for one.
abbrev pub IsPermitted : Request → RequestContext → Type 0
IsPermitted q c =
    (permission : Text)
    → required_permission q ≡ some permission
    → (c.auth.is_authenticated ≡ true) × (has_permission c.auth permission ≡ true)

pub some_inj : {A : Type 0} {a b : A} → some a ≡ some b → a ≡ b
some_inj e = cc

module _ {R : Type 0} where
  pub log_end-result :
      (q : Request) (c : RequestContext) (r : Outcome Value) (s : App R)
      → (log_end q c (r, s)).0 ≡ r
  log_end-result q c (ok v) s = refl
  log_end-result q c (err e) s = refl

  refuse_or-ok :
      (es : FieldErrors) (k : App R → Outcome Value × App R) (s : App R) (v : Value)
      → (refuse_or es k s).0 ≡ ok v
      → (es ≡ []) × ((k s).0 ≡ ok v)
  refuse_or-ok [] k s v h = (refl, h)
  refuse_or-ok (e ∷ es) k s v h = cc

  refused_unless-ok :
      (b : Bool) (e : Error) (m : Outcome Value × App R) (s : App R) (v : Value)
      → (if not b then (err e, s) else m).0 ≡ ok v
      → (b ≡ true) × (m.0 ≡ ok v)
  refused_unless-ok true e m s v h = (refl, h)
  refused_unless-ok false e m s v h = cc

  permit-ok :
      (o : Option Text) (auth : AuthContext) (k : App R → Outcome Value × App R) (s : App R)
      (v : Value)
      → (permit o auth k s).0 ≡ ok v
      → ((p : Text) → o ≡ some p → (auth.is_authenticated ≡ true) × (has_permission auth p ≡ true))
        × ((k s).0 ≡ ok v)
  permit-ok none auth k s v h = (λ p e. cc, h)
  permit-ok (some p) auth k s v h =
      let (on, h1) = refused_unless-ok auth.is_authenticated _ _ s v h in
      let (has, h2) = refused_unless-ok (has_permission auth p) _ _ s v h1 in
      (λ p' e. (on, ap (has_permission auth) (sym (some_inj e)) ∙ has), h2)

  module _ (fingerprint : Request → Text) (store : IdempotencyStore R)
      (elapsed_us : Request → RequestContext → ℕ) where
    -- The behaviors before the last two, and those before a handler, at one request.
    bind_all-ok :
        (threshold_ms : ℕ) (bs : List (Behavior R)) (terminal : Step R) (q : Request)
        (c : RequestContext) (s : App R) (v : Value)
        → (bind_all
            (logging
              ∷ performance threshold_ms elapsed_us
              ∷ validation_behavior
              ∷ authorization_behavior
              ∷ bs)
            terminal
            q
            c
            s).0
          ≡ ok v
        → (validate q ≡ []) × IsPermitted q c
    unfolding bind_all logging performance validation_behavior authorization_behavior
    bind_all-ok m bs terminal q c s v h =
        let (valid, h1) = refuse_or-ok (validate q) _ _ v (sym (log_end-result q c _ _) ∙ h) in
        (valid, (permit-ok (required_permission q) c.auth _ _ v h1).0)

    dispatch-ok :
        (o : Option TableHandler) (q : Request) (c : RequestContext) (s : App R) (v : Value)
        → (dispatch o (behaviors fingerprint store elapsed_us) q c s).0 ≡ ok v
        → (validate q ≡ []) × IsPermitted q c
    dispatch-ok none q c s v h = cc
    dispatch-ok (some handler) q c s v h =
        bind_all-ok slow_request_threshold_ms _ (λ _ _. on_tables handler) q c s v h

module _ (rt : Runtime) (db : Database) (max_attempts : ℕ) {R : Type 0}
    (fingerprint : Request → Text) (store : IdempotencyStore R)
    (elapsed_us : Request → RequestContext → ℕ) where
  -- A request that `container.mediator.send` answers without an error passed its own validation, and
  -- if it asks for a permission, the caller is authenticated and holds it.
  pub send_request-ok-IsPermitted :
      (d : Draws) (q : Request) (c : RequestContext) (s : App R) (v : Value)
      → (send_request rt db max_attempts fingerprint store elapsed_us d q c s).0 ≡ ok v
      → (validate q ≡ []) × IsPermitted q c
  unfolding send_request send
  send_request-ok-IsPermitted d q =
      dispatch-ok fingerprint store elapsed_us (handlers rt db max_attempts d q) q
