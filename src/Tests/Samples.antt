-- ===== src/Tests/Samples.antt =====
-- Sample users, commands, rows, tables and states for the tests.
use ndma_edit.Prelude.{ℕ, ◌+◌, Text, [], ◌∷◌, true, none, some, codes}
use ndma_edit.Domain.Aggregate.{EventStamp}
use ndma_edit.Domain.User.{User, active, deactivated}
use ndma_edit.Infrastructure.Persistence.Models.{UserModel, OutboxModel, Tables, pending}
use ndma_edit.Application.Messages.{
  Request, class_name, RegisterUserCommand, RenameUserCommand, DeactivateUserCommand, GetUserQuery,
}
use ndma_edit.Application.Context.{anonymous, RequestContext}
use ndma_edit.Application.Dto.{UserDto}
use ndma_edit.Application.Pipeline.{App, IdempotencyStore}
use ndma_edit.Application.Users.Handlers.{Draws}
use ndma_edit.Infrastructure.Caching.Store.{redis_store}
use ndma_edit.Tests.Servers.{Memory, memory_redis, codec}

abbrev pub ada_email : Text
ada_email = codes "ada@example.com"

abbrev pub ada_name : Text
ada_name = codes "Ada"

abbrev pub stamp : EventStamp
stamp = record { event_id = 900; occurred_at = 5000 }

abbrev pub draws : Draws
draws = record { user_id = 7; registered_at = 4000; stamp = stamp; now_at = λ i. 6000 + i }

-- The row of a user that was registered before.
abbrev pub ada_row : UserModel
ada_row = record {
  id = 7;
  email = ada_email;
  display_name = ada_name;
  status = codes "active";
  registered_at = 4000;
  version = 0;
}

abbrev pub ada : User
ada = record {
  root = record { id = 7; version = 0; domain_events = [] };
  email = record { value = ada_email };
  display_name = record { value = ada_name };
  status = active;
  registered_at = 4000;
}

abbrev pub gone_ada : User
gone_ada = record ada { status = deactivated }

abbrev pub no_tables : Tables
no_tables = record { users = []; outbox = [] }

abbrev pub one_user : Tables
one_user = record { users = ada_row ∷ []; outbox = [] }

abbrev pub register_ada : RegisterUserCommand
register_ada = record { email = codes " Ada@Example.com "; display_name = codes " Ada " }

abbrev pub rename_ada : RenameUserCommand
rename_ada = record { user_id = 7 ∷ []; new_display_name = codes "Ada Lovelace" }

abbrev pub deactivate_ada : DeactivateUserCommand
deactivate_ada = record { user_id = 7 ∷ []; reason = some (codes "left") }

abbrev pub ada_dto : UserDto
ada_dto = record {
  id = 7 ∷ [];
  email = ada_email;
  display_name = ada_name;
  status = codes "active";
  registered_at = 4000;
  version = 0;
}

abbrev pub anybody : RequestContext
anybody = record { correlation_id = 1; auth = anonymous; idempotency_key = none }

abbrev pub writer : RequestContext
writer = record {
  correlation_id = 2;
  auth = record {
    user_id = some 7;
    roles = codes "admin" ∷ [];
    permissions = codes "users:write" ∷ [];
    is_authenticated = true;
  };
  idempotency_key = none;
}

abbrev pub retry_key : Text
retry_key = codes "key-1"

abbrev pub keyed : RequestContext
keyed = record { correlation_id = 3; auth = anonymous; idempotency_key = some retry_key }

abbrev pub app_with : Tables → App Memory
app_with t = record { tables = t; redis = []; log = [] }

abbrev pub row : ℕ → OutboxModel
row k = record {
  id = k;
  aggregate_type = codes "users";
  aggregate_id = 7;
  event_type = codes "UserRegistered";
  payload = [];
  status = pending;
  attempt_count = 0;
  max_attempts = 5;
  last_error = none;
  created_at = 6000 + k;
  processed_at = none;
  available_at = 6000;
}

abbrev pub ada_query : GetUserQuery
ada_query = record { user_id = 7 ∷ [] }

-- A stand-in for the hash of a request.
abbrev pub mark : Request → Text
mark q = class_name q

abbrev pub store : IdempotencyStore Memory
store = redis_store memory_redis codec

abbrev pub in_no_time : Request → RequestContext → ℕ
in_no_time q c = 0
