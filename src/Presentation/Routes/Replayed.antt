-- ===== src/Presentation/Routes/Replayed.antt =====
-- What a client gets that repeats a registration with its idempotency key.
use ndma_edit.Prelude.{ℕ, Text, [], some, ◌≡◌, refl, ◌∙◌, codes}
use ndma_edit.Outcome.{ok, err, Error, value_error}
use ndma_edit.Runtime.{Runtime}
use ndma_edit.Infrastructure.Persistence.Database.{Database}
use ndma_edit.Application.Messages.{
  Request, register_user, RegisterUserCommand, is_command, required_permission, validate,
}
use ndma_edit.Application.Context.{RequestContext}
use ndma_edit.Application.Pipeline.{Json, json, App}
use ndma_edit.Application.Pipeline.Behaviors.{
  logging, performance, validation_behavior, authorization_behavior, idempotency,
}
use ndma_edit.Application.Pipeline.Mediator.{bind_all, send_request}
use ndma_edit.Application.Pipeline.Gate.{log_end-result}
use ndma_edit.Application.Users.Handlers.{Draws}
use ndma_edit.Infrastructure.Caching.Redis.{Redis, JsonCodec}
use ndma_edit.Infrastructure.Caching.Store.{get_cached_result, redis_store}
use ndma_edit.Presentation.Exceptions.Statuses.{expected_status}
use ndma_edit.Presentation.Routes.{register_user_route}

module _ (rt : Runtime) (db : Database) (max_attempts : ℕ) {R : Type 0} (client : Redis R)
    (js : JsonCodec) (fingerprint : Request → Text)
    (elapsed_us : Request → RequestContext → ℕ) where
  -- What the mediator answers to a registration with a key whose result is stored.
  send_request-replayed :
      (d : Draws) (c : RegisterUserCommand) (context : RequestContext) (key : Text) (s : App R)
      (j : Json)
      → validate (register_user c) ≡ []
      → context.idempotency_key ≡ some key
      → get_cached_result client js key (fingerprint (register_user c)) s.redis ≡ ok (some j)
      → (send_request rt db max_attempts fingerprint
          (redis_store client js)
          elapsed_us
          d
          (register_user c)
          context
          s).0
        ≡ ok (json j)
  unfolding send_request bind_all logging performance validation_behavior authorization_behavior
      idempotency required_permission is_command
  send_request-replayed d c context key s j valid keyed stored =
      log_end-result (register_user c) context _ _ ∙ rw (valid, keyed, stored) refl

  -- A client that repeats a registration with its idempotency key, while the result is stored, gets
  -- no user: the route raises what ends in a status 500.
  pub replayed_registration_fails :
      (d : Draws) (c : RegisterUserCommand) (context : RequestContext) (key : Text) (s : App R)
      (j : Json)
      → validate (register_user c) ≡ []
      → context.idempotency_key ≡ some key
      → get_cached_result client js key (fingerprint (register_user c)) s.redis ≡ ok (some j)
      → (e : Error) × ((register_user_route
            (send_request rt db max_attempts fingerprint (redis_store client js) elapsed_us d)
            context
            c.email
            c.display_name
            s).0
          ≡ err e)
        × (expected_status e ≡ 500)
  unfolding register_user_route expected_status
  replayed_registration_fails d c context key s j valid keyed stored = (
    value_error (codes "1 validation error for UserResponse"),
    rw (send_request-replayed d c context key s j valid keyed stored) refl,
    refl,
  )
