-- ===== src/Domain/User.antt =====
-- backend/src/app/domain/users/entities/user.py: the `User` aggregate. A method that raises gives no
-- new user.
pub mod History
use ndma_edit.Prelude.{ℕ, Text, List, Option, Bool, true, false, not, text_eq, codes, if◌then◌else◌}
use ndma_edit.Outcome.{Outcome, ok, user_already_deactivated, ◌>>=◌, ◌>>◌, raise_if}
use ndma_edit.Runtime.{Uuid}
use ndma_edit.Domain.Email.{Email}
use ndma_edit.Domain.DisplayName.{DisplayName}
use ndma_edit.Domain.Aggregate.{
  Time, AggregateRoot, EventStamp, new_root, register_event, new_event, user_registered,
  user_renamed, user_deactivated,
}

pub data UserStatus : Type 0 where
  active deactivated : UserStatus

-- The value of the `StrEnum` member.
unfoldable pub status_value : UserStatus → Text
status_value active = codes "active"
status_value deactivated = codes "deactivated"

pub record User : Type 0 where
  pub root : AggregateRoot
  pub open root use *
  pub email : Email
  pub display_name : DisplayName
  pub status : UserStatus
  pub registered_at : Time

-- `User.__init__`
unfoldable pub new_user : Uuid → Email → DisplayName → UserStatus → Time → ℕ → User
new_user user_id email display_name status registered_at version = record {
  root = new_root user_id version;
  email = email;
  display_name = display_name;
  status = status;
  registered_at = registered_at;
}

abbrev status_is_active : UserStatus → Bool
status_is_active active = true
status_is_active deactivated = false

-- `User.is_active`
unfoldable pub is_active : User → Bool
is_active u = status_is_active u.status

-- `User.register`: `user_id` and `registered_at` are what `UserId.new` and `datetime.now` return.
unfoldable pub register : Uuid → Time → EventStamp → Email → DisplayName → User
unfolding new_user register_event new_event new_root
register user_id registered_at stamp email display_name =
    let user = new_user user_id email display_name active registered_at 0 in
    record user {
      root =
          register_event (new_event user_id stamp (user_registered email.value display_name.value))
            user.root;
    }

-- `User._ensure_active`
unfoldable pub ensure_active : User → Outcome (Unit {0})
unfolding is_active
ensure_active u = raise_if (not (is_active u)) (user_already_deactivated u.id)

-- `User.rename`
unfoldable pub rename : EventStamp → DisplayName → User → Outcome User
unfolding ensure_active register_event new_event
rename stamp new_name u = do
  ensure_active u
  if text_eq new_name.value u.display_name.value
      then ok u
      else ok (record u {
        display_name = new_name;
        root =
            register_event (new_event u.id stamp (user_renamed u.display_name.value new_name.value))
              u.root;
      })

-- `User.deactivate`
unfoldable pub deactivate : EventStamp → Option Text → User → Outcome User
unfolding ensure_active register_event new_event
deactivate stamp reason u = do
  ensure_active u
  ok (record u {
    status = deactivated;
    root = register_event (new_event u.id stamp (user_deactivated reason)) u.root;
  })
