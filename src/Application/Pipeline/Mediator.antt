-- ===== src/Application/Pipeline/Mediator.antt =====
-- backend/src/app/application/common/mediator.py, and the wiring of
-- backend/src/app/composition/container.py.
use ndma_edit.Prelude.{ℕ, Text, List, [], ◌∷◌, Option, none, some}
use ndma_edit.Outcome.{Outcome, err, handler_not_registered, map_outcome}
use ndma_edit.Runtime.{Runtime}
use ndma_edit.Infrastructure.Persistence.Models.{Tables}
use ndma_edit.Infrastructure.Persistence.Database.{Database}
use ndma_edit.Application.Messages.{
  Request, register_user, rename_user, deactivate_user, get_user, list_users, other, class_name,
}
use ndma_edit.Application.Context.{RequestContext}
use ndma_edit.Application.Pipeline.{Value, user, page, App, Step, Behavior, IdempotencyStore}
use ndma_edit.Application.Pipeline.Behaviors.{
  logging, performance, slow_request_threshold_ms, validation_behavior, authorization_behavior,
  idempotency,
}
use ndma_edit.Application.Users.Handlers.{
  Draws, handle_register, handle_rename, handle_deactivate, handle_get, handle_list,
}

-- `RequestHandler.handle` of a registered handler, on the tables.
abbrev pub TableHandler : Type 0
TableHandler = Tables → Outcome Value × Tables

module _ {R : Type 0} where
  abbrev pub on_tables : TableHandler → App R → Outcome Value × App R
  on_tables handler s = let (r, t) = handler s.tables in (r, record s { tables = t })

  -- `_bind`, once for each behavior, from the last to the first.
  unfoldable pub bind_all : List (Behavior R) → Step R → Step R
  bind_all [] terminal = terminal
  bind_all (b ∷ bs) terminal = b (bind_all bs terminal)

  abbrev pub dispatch : Option TableHandler → List (Behavior R) → Step R
  dispatch none behaviors q c s = (err (handler_not_registered (class_name q)), s)
  dispatch (some handler) behaviors q c s = bind_all behaviors (λ _ _. on_tables handler) q c s

  -- `Mediator.send`
  unfoldable pub send : (Request → Option TableHandler) → List (Behavior R) → Step R
  unfolding bind_all
  send handlers behaviors q = dispatch (handlers q) behaviors q

module _ {R : Type 0} (fingerprint : Request → Text) (store : IdempotencyStore R)
    (elapsed_us : Request → RequestContext → ℕ) where
  -- The behaviors of `build_container`, in their order.
  abbrev pub behaviors : List (Behavior R)
  behaviors =
      logging
      ∷ performance slow_request_threshold_ms elapsed_us
      ∷ validation_behavior
      ∷ authorization_behavior
      ∷ idempotency fingerprint store
      ∷ []

abbrev pub returning : {A : Type 0} → (A → Value) → Outcome A × Tables → Outcome Value × Tables
returning f (r, t) = (map_outcome f r, t)

module _ (rt : Runtime) (db : Database) (max_attempts : ℕ) where
  -- The handler map of `build_container`.
  unfoldable pub handlers : Draws → Request → Option TableHandler
  handlers d (register_user c) =
      some (λ t. returning user (handle_register rt db max_attempts d c t))
  handlers d (rename_user c) = some (λ t. returning user (handle_rename rt db max_attempts d c t))
  handlers d (deactivate_user c) =
      some (λ t. returning user (handle_deactivate rt db max_attempts d c t))
  handlers d (get_user q) = some (λ t. returning user (handle_get rt db q t))
  handlers d (list_users q) = some (λ t. returning page (handle_list rt db q t))
  handlers d (other name) = none

  -- `container.mediator.send`
  unfoldable pub send_request :
      {R : Type 0}
      → (Request → Text)
      → IdempotencyStore R
      → (Request → RequestContext → ℕ)
      → Draws
      → Step R
  unfolding send handlers
  send_request fingerprint store elapsed_us d =
      send (handlers d) (behaviors fingerprint store elapsed_us)
