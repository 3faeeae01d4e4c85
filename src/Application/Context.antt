-- ===== src/Application/Context.antt =====
-- backend/src/app/application/common/interfaces/identity.py and
-- backend/src/app/application/common/request_context.py.
use ndma_edit.Prelude.{Text, List, [], Bool, false, Option, none, member}
use ndma_edit.Runtime.{Uuid}

pub record AuthContext : Type 0 where
  pub user_id : Option Uuid
  pub roles : List Text
  pub permissions : List Text
  pub is_authenticated : Bool

-- `AuthContext.anonymous`
abbrev pub anonymous : AuthContext
anonymous = record { user_id = none; roles = []; permissions = []; is_authenticated = false }

unfoldable pub has_permission : AuthContext → Text → Bool
has_permission c permission = member permission c.permissions

unfoldable pub has_role : AuthContext → Text → Bool
has_role c role = member role c.roles

pub record RequestContext : Type 0 where
  pub correlation_id : Uuid
  pub auth : AuthContext
  pub idempotency_key : Option Text
