-- ===== src/Tests/Retries.antt =====
-- The theorems on idempotency keys at concrete inputs.
use ndma_edit.Infrastructure.Persistence.Repository.{add, get_by_email, get_by_id, save}
use ndma_edit.Domain.Email.Pattern.{email_pattern}
use ndma_edit.Infrastructure.Persistence.UnitOfWork.{commit, enter, transaction}
use ndma_edit.Prelude.{
  [], ◌∷◌, ◌++◌, none, some, codes, ◌≡◌, refl, text_eq, change, has_char, keep, member, strip,
}
use ndma_edit.Outcome.{Outcome, ok, err, Error}
use ndma_edit.Domain.Email.{new_email}
use ndma_edit.Domain.DisplayName.{ensure_allowed, new_display_name, reserved_names}
use ndma_edit.Domain.User.{rename, deactivate, register}
use ndma_edit.Infrastructure.Persistence.Mapper.{to_domain}
use ndma_edit.Application.Messages.{
  Request, register_user, class_name, is_command, required_permission, validate,
}
use ndma_edit.Application.Dto.{from_domain}
use ndma_edit.Application.Users.Handlers.{handle_register}
use ndma_edit.Application.Pipeline.{Value, user, json, Json, text, App, Step, replay}
use ndma_edit.Application.Pipeline.Behaviors.{
  idempotency, finish, lock_ttl, write_log, in_progress, authorization_behavior, logging,
  performance, validation_behavior,
}
use ndma_edit.Application.Pipeline.Mediator.{on_tables, returning, send_request, send}
use ndma_edit.Infrastructure.Caching.Redis.{StoredResult}
use ndma_edit.Infrastructure.Caching.Store.{
  redis_store, get_cached_result, result_key, lock_key, plain, try_acquire_lock, release_lock,
  store_result,
}
use ndma_edit.Infrastructure.Caching.Lock.{lock_is_released, held_lock_refuses}
use ndma_edit.Infrastructure.Caching.Replay.{second_send_replays, reused_key_runs_again}
use ndma_edit.Presentation.Exceptions.Statuses.{expected_status}
use ndma_edit.Presentation.Routes.{register_user_route}
use ndma_edit.Presentation.Routes.Replayed.{replayed_registration_fails}
use ndma_edit.Tests.Surroundings.{ascii, memory, commit_open}
use ndma_edit.Tests.Servers.{Memory, lookup, memory_redis, memory-IsUp, codec, quote, unquote}
use ndma_edit.Tests.Samples.{
  mark, store, in_no_time, ada_email, draws, no_tables, one_user, register_ada, ada_dto, keyed,
  retry_key, app_with,
}

-- The registering handler as the step behind the idempotency behavior.
abbrev registering : Step Memory
registering q c s =
    on_tables (λ t. returning user (handle_register ascii memory 5 draws register_ada t)) s

abbrev ada_json : Json
ada_json = text (codes "UserDTO(" ++ ada_email ++ codes ")")

abbrev ada_request : Request
ada_request = register_user register_ada

abbrev registered_once : Outcome Value × App Memory
registered_once =
    idempotency mark (redis_store memory_redis codec) registering ada_request keyed
      (app_with no_tables)

registers_keyed : registered_once.0 ≡ ok (user ada_dto)
unfolding codes new_email strip email_pattern new_display_name ensure_allowed member reserved_names
    text_eq keep change from_domain commit_open transaction enter commit get_by_email get_by_id add
    save to_domain register rename deactivate validate has_char logging performance
    validation_behavior authorization_behavior idempotency send required_permission handle_register
    get_cached_result try_acquire_lock release_lock store_result lookup is_command
registers_keyed = refl

second_send_replays_example :
    idempotency mark
      (redis_store memory_redis codec)
      registering
      ada_request
      keyed
      registered_once.1
    ≡ (ok (json ada_json), write_log (replay retry_key) registered_once.1)
unfolding is_command get_cached_result lookup codes
second_send_replays_example =
    second_send_replays memory_redis codec memory-IsUp mark registering ada_request keyed retry_key
      refl refl (app_with no_tables) (user ada_dto) ada_json refl registers_keyed refl registering
      registered_once.1 refl

lock_is_released_example :
    lookup
      (lock_key retry_key)
      (idempotency mark
        (redis_store memory_redis codec)
        registering
        ada_request
        keyed
        (app_with no_tables)).1.redis
    ≡ none
unfolding is_command lookup
lock_is_released_example =
    lock_is_released memory_redis codec memory-IsUp mark registering ada_request keyed retry_key
      refl refl (app_with no_tables) refl

-- A second registration comes while the first holds the lock.
abbrev busy_app : App Memory
busy_app = record (app_with no_tables) {
  redis = memory_redis.set (lock_key retry_key) (codes "1") (some lock_ttl) [];
}

held_lock_refuses_example :
    (idempotency mark store registering ada_request keyed (app_with no_tables)
      ≡ finish mark store retry_key ada_request (registering ada_request keyed busy_app))
    × (lookup (lock_key retry_key) busy_app.redis ≡ some (codes "1"))
    × (idempotency mark store registering ada_request keyed busy_app ≡ (err in_progress, busy_app))
unfolding is_command lookup get_cached_result text_eq codes
held_lock_refuses_example =
    held_lock_refuses memory_redis codec memory-IsUp mark registering registering ada_request
      ada_request keyed keyed retry_key (codes "1") refl refl refl refl (app_with no_tables)
      busy_app refl refl refl refl

abbrev other_result : StoredResult
other_result = record { fingerprint = codes "another request"; result = text (codes "old") }

abbrev reused_app : App Memory
reused_app = record {
  tables = no_tables;
  redis = (result_key retry_key, codec.dumps other_result) ∷ [];
  log = [];
}

reused_key_runs_again_example :
    let m =
      idempotency mark (redis_store memory_redis codec) registering ada_request keyed reused_app in
    let run = registering ada_request keyed (record reused_app {
      redis = memory_redis.set (lock_key retry_key) (codes "1") (some lock_ttl) reused_app.redis;
    }) in
    (m.0 ≡ run.0)
    × (m.1.tables ≡ run.1.tables)
    × ((v : Value)
        → m.0 ≡ ok v
        → lookup (result_key retry_key) m.1.redis
          ≡ some (codec.dumps (record { fingerprint = mark ada_request; result = plain codec v })))
unfolding is_command lookup text_eq codes class_name
reused_key_runs_again_example =
    reused_key_runs_again memory_redis codec memory-IsUp mark registering ada_request keyed
      retry_key refl refl reused_app other_result refl refl refl

abbrev replayed_app : App Memory
replayed_app = record {
  tables = one_user;
  redis =
      (
        result_key retry_key,
        codec.dumps (record { fingerprint = mark ada_request; result = ada_json }),
      )
      ∷ [];
  log = [];
}

valid_ada : validate ada_request ≡ []
unfolding validate codes strip has_char
valid_ada = refl

stored_ada :
    get_cached_result memory_redis codec retry_key (mark ada_request) replayed_app.redis
    ≡ ok (some ada_json)
unfolding get_cached_result lookup codes class_name text_eq quote unquote
stored_ada = refl

replayed_registration_fails_example :
    (e : Error) × ((register_user_route
        (send_request ascii memory 5 mark (redis_store memory_redis codec) in_no_time draws)
        keyed
        register_ada.email
        register_ada.display_name
        replayed_app).0
      ≡ err e)
    × (expected_status e ≡ 500)
replayed_registration_fails_example =
    replayed_registration_fails ascii memory 5 memory_redis codec mark in_no_time draws register_ada
      keyed retry_key replayed_app ada_json valid_ada refl stored_ada
