-- ===== src/Infrastructure/Persistence/Mapper.antt =====
-- backend/src/app/infrastructure/persistence/mappers/user_mapper.py
use ndma_edit.Prelude.{Text, text_eq, codes, ◌++◌, ◌≡◌, refl, if◌then◌else◌, []}
use ndma_edit.Outcome.{Outcome, ok, err, value_error, ◌>>=◌}
use ndma_edit.Runtime.{Runtime}
use ndma_edit.Domain.Email.{new_email}
use ndma_edit.Domain.DisplayName.{new_display_name}
use ndma_edit.Domain.Aggregate.{new_root}
use ndma_edit.Domain.User.{User, UserStatus, active, deactivated, status_value, new_user}
use ndma_edit.Infrastructure.Persistence.Models.{UserModel}

-- `UserStatus(text)`
unfoldable pub parse_status : Text → Outcome UserStatus
unfolding status_value
parse_status t =
    if text_eq t (status_value active)
    then ok active
    else if text_eq t (status_value deactivated)
    then ok deactivated
    else err (value_error (codes "'" ++ t ++ codes "' is not a valid UserStatus"))

unfoldable pub to_domain : Runtime → UserModel → Outcome User
unfolding new_user new_root parse_status
to_domain rt m = do
  email ← new_email rt m.email
  display_name ← new_display_name m.display_name
  status ← parse_status m.status
  ok (new_user m.id email display_name status m.registered_at m.version)

unfoldable pub to_model : User → UserModel
unfolding status_value
to_model u = record {
  id = u.id;
  email = u.email.value;
  display_name = u.display_name.value;
  status = status_value u.status;
  registered_at = u.registered_at;
  version = u.version;
}

-- A user whose email and name came from their constructors, as every user's do.
pub record IsWellFormed (rt : Runtime) (u : User) : Type 0 where
  pub email_ok : new_email rt u.email.value ≡ ok u.email
  pub name_ok : new_display_name u.display_name.value ≡ ok u.display_name

parse_status-value : (s : UserStatus) → parse_status (status_value s) ≡ ok s
unfolding parse_status text_eq codes
parse_status-value active = refl
parse_status-value deactivated = refl

-- The row of a well-formed user maps back to that user, with no pending events.
pub to_domain-to_model :
    (rt : Runtime) (u : User)
    → IsWellFormed rt u
    → to_domain rt (to_model u)
      ≡ ok (record u { root = record { id = u.id; version = u.version; domain_events = [] } })
unfolding to_domain to_model
to_domain-to_model rt u h = rw (h.email_ok, h.name_ok, parse_status-value u.status)
