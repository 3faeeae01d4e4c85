-- ===== src/Infrastructure/Persistence/Repository.antt =====
-- backend/src/app/infrastructure/persistence/repositories/sqlalchemy_user_repository.py, the port of
-- backend/src/app/domain/users/repositories/user_repository.py.
use ndma_edit.Prelude.{
  ℕ, ◌+◌, List, [], ◌∷◌, Bool, Option, none, some, ◌==◌, ◌&&◌, leb, text_eq, codes, if◌then◌else◌,
}
use ndma_edit.Outcome.{
  Outcome, ok, err, map_outcome, traverse, database_error, user_concurrency_conflict,
}
use ndma_edit.Runtime.{Runtime, Uuid}
use ndma_edit.Domain.Email.{Email}
use ndma_edit.Domain.Aggregate.{collect_events, mark_persisted}
use ndma_edit.Domain.User.{User, status_value}
use ndma_edit.Infrastructure.Persistence.Models.{UserModel}
use ndma_edit.Infrastructure.Persistence.Database.{Database, user_row}
use ndma_edit.Infrastructure.Persistence.Mapper.{to_domain, to_model}
use ndma_edit.Infrastructure.Persistence.Exec.{Exec, extend}

-- `ORDER BY registered_at DESC, id`
unfoldable pub newest_first : UserModel → UserModel → Bool
newest_first a b =
    if a.registered_at == b.registered_at
    then leb a.id b.id
    else leb b.registered_at a.registered_at

-- A row or no row to a user or none.
abbrev pub optional_user : Runtime → Option UserModel → Outcome (Option User)
optional_user rt none = ok none
optional_user rt (some m) = map_outcome some (to_domain rt m)

-- `scalar_one_or_none`: two rows raise.
abbrev pub one_or_none : List UserModel → Outcome (Option UserModel)
one_or_none [] = ok none
one_or_none (m ∷ []) = ok (some m)
one_or_none (m ∷ n ∷ ms) = err database_error

-- The WHERE of `save`.
unfoldable pub is_current : User → UserModel → Bool
is_current user m = m.id == user.id && m.version == user.version

-- The SET of `save`.
unfoldable pub updated : User → UserModel → UserModel
unfolding status_value
updated user m = record m {
  email = user.email.value;
  display_name = user.display_name.value;
  status = status_value user.status;
  registered_at = user.registered_at;
  version = user.version + 1;
}

-- The user after `mark_persisted` and `collect_events`.
unfoldable pub persisted : User → User
unfolding mark_persisted collect_events
persisted user = record user {
  root = (collect_events (mark_persisted (user.version + 1) user.root)).1;
}

-- The user after `collect_events`.
unfoldable pub drained : User → User
unfolding collect_events
drained user = record user { root = (collect_events user.root).1 }

module _ (rt : Runtime) (db : Database) where
  open db use {
    Session, get_user, select_users, select_page, count_users, update_users, add as add_row,
  }

  unfoldable pub get_by_id : Uuid → Exec Session (Option User)
  get_by_id user_id u = (optional_user rt (get_user user_id u.session), u)

  unfoldable pub get_by_email : Email → Exec Session (Option User)
  get_by_email email u =
      let found = one_or_none (select_users (λ m. text_eq m.email email.value) u.session) in
      (elim found [ ok o ↦ optional_user rt o | err e ↦ err e ], u)

  unfoldable pub list_page : ℕ → ℕ → Exec Session (List User × ℕ)
  unfolding newest_first traverse
  list_page offset limit u =
      let models = select_page newest_first offset limit u.session in
      let total = count_users u.session in
      (map_outcome (λ users. (users, total)) (traverse (to_domain rt) models), u)

  -- The user comes back without its events.
  unfoldable pub add : User → Exec Session User
  unfolding drained to_model collect_events
  add user u =
      let u' = record u { session = add_row (user_row (to_model user)) u.session } in
      (ok (drained user), extend u.event_sink (collect_events user.root).0 u')

  -- The user comes back with its new version and without its events.
  unfoldable pub save : User → Exec Session User
  unfolding is_current updated persisted collect_events
  save user u =
      let (rowcount, session) = update_users (is_current user) (updated user) u.session in
      let u' = record u { session = session } in
      if rowcount == 0
      then (err (user_concurrency_conflict (codes "User") user.id user.version), u')
      else (ok (persisted user), extend u.event_sink (collect_events user.root).0 u')
