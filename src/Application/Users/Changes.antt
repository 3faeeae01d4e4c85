-- ===== src/Application/Users/Changes.antt =====
-- What a renaming or a deactivation that returns has done to the tables.
use ndma_edit.Prelude.{
  ℕ, [], Option, none, some, ◌==◌, head?, keep, ◌≡◌, ◌≢◌, refl, sym, ap, ◌∙◌, subst,
}
use ndma_edit.Outcome.{Outcome, ok, err, map_outcome}
use ndma_edit.Runtime.{Runtime, Uuid}
use ndma_edit.Domain.DisplayName.{DisplayName}
use ndma_edit.Domain.User.{User, rename, deactivate}
use ndma_edit.Infrastructure.Persistence.Models.{UserModel, Tables}
use ndma_edit.Infrastructure.Persistence.Database.{Database, HasUniqueKeys}
use ndma_edit.Infrastructure.Persistence.Mapper.{to_domain}
use ndma_edit.Infrastructure.Persistence.Exec.{UnitOfWork, Exec, ◌>>=◌, lift}
use ndma_edit.Infrastructure.Persistence.Repository.{
  get_by_id, is_current, persisted, optional_user,
}
use ndma_edit.Infrastructure.Persistence.UnitOfWork.{enter, transaction}
use ndma_edit.Infrastructure.Persistence.UnitOfWork.Commit.{>>=-ok, transaction-durable}
use ndma_edit.Application.Messages.{RenameUserCommand, DeactivateUserCommand}
use ndma_edit.Application.Dto.{UserDto, from_domain}
use ndma_edit.Application.Users.Inputs.{user_id_from_string, rename_inputs}
use ndma_edit.Application.Users.Handlers.{
  Draws, or_not_found, save_and_commit, handle_rename, handle_deactivate,
}
use ndma_edit.Application.Users.Success.{then_run-ok, with_changed, save_and_commit-ok}

map_some-ok : (r : Outcome User) (u : User) → map_outcome some r ≡ ok (some u) → r ≡ ok u
map_some-ok (ok v) u h = cc
map_some-ok (err e) u h = cc

optional_user-some :
    (rt : Runtime) (o : Option UserModel) (u : User)
    → optional_user rt o ≡ ok (some u)
    → (m : UserModel) × (o ≡ some m) × (to_domain rt m ≡ ok u)
optional_user-some rt none u h = cc
optional_user-some rt (some m) u h = (m, refl, map_some-ok (to_domain rt m) u h)

or_not_found-ok :
    {S : Type 0} (k : Uuid) (o : Option User) (u : UnitOfWork S) (user : User)
    → (or_not_found k o u).0 ≡ ok user
    → (o ≡ some user) × ((or_not_found k o u).1 ≡ u)
or_not_found-ok k none u user h = cc
or_not_found-ok k (some v) u user h = (cc, refl)

module _ (rt : Runtime) (db : Database) (max_attempts : ℕ) (d : Draws) where
  -- What became of user `k` between the tables `t` and `t'`: its row was read as `before`, the method
  -- turned that into `after`, and the row of that id and version, with the events, was written.
  pub record IsChanged (method : User → Outcome User) (k : Uuid) (t t' : Tables) (dto : UserDto)
      : Type 0 where
    pub row : UserModel
    pub before : User
    pub after : User
    pub found : head? (keep (λ m. m.id == k) t.users) ≡ some row
    pub mapped : to_domain rt row ≡ ok before
    pub changed : method before ≡ ok after
    pub current : keep (is_current after) t.users ≢ []
    pub written : t' ≡ with_changed rt db max_attempts d after t
    pub unique : HasUniqueKeys t'.users
    pub reply : dto ≡ from_domain rt (persisted after)

  found_row :
      (k : Uuid) (t : Tables) (row : UserModel)
      → db.get_user k (enter db t).session ≡ some row
      → head? (keep (λ m. m.id == k) t.users) ≡ some row
  unfolding enter
  found_row k t row h =
      ap (λ (x : Tables). head? (keep (λ m. m.id == k) x.users)) (sym (db.view-connect t))
      ∙ (sym (db.get_user_lem k (db.connect t)) ∙ h)

  module _ (method : User → Outcome User) (k : Uuid) (t : Tables) (dto : UserDto) where
    -- The body that the two handlers share.
    abbrev changing : Exec db.Session UserDto
    changing = get_by_id rt db k >>= λ found. or_not_found k found >>= λ user.
        lift (method user) >>= λ user'. save_and_commit rt db max_attempts d user'

    changing-ok :
        (changing (enter db t)).0 ≡ ok dto
        → IsChanged method k t (changing (enter db t)).1.durable dto
    unfolding get_by_id
    changing-ok h =
        let (found, e₁, run₁) = >>=-ok (get_by_id rt db k) _ (enter db t) dto h in
        let h₁ = rw run₁ at h in
        let (user, e₂, run₂) = >>=-ok (or_not_found k found) _ (enter db t) dto h₁ in
        let (is_found, same) = or_not_found-ok k found (enter db t) user e₂ in
        let h₂ = rw (run₂, same) at h₁ in
        let (user', e₃, run₃) = >>=-ok (lift (method user)) _ (enter db t) dto h₂ in
        let h₃ = rw run₃ at h₂ in
        let (row, read, mapped) = optional_user-some rt _ user (e₁ ∙ rw is_found) in
        let (written, reply, current, unique) =
          save_and_commit-ok rt db max_attempts d user' t dto h₃ in
        record {
          row = row;
          before = user;
          after = user';
          found = found_row k t row read;
          mapped = mapped;
          changed = e₃;
          current = current;
          written = rw (run₁, run₂, same, run₃) written;
          unique =
              rw (run₁, run₂, same, run₃)
                (subst (λ (x : Tables). HasUniqueKeys x.users) (sym written) unique);
          reply = reply;
        }

  -- A renaming that returns has read the row of the given id as a user, renamed it, and written the
  -- row of that id and version back one version higher, with one outbox row for each event of the
  -- renaming and nothing else; it returns the user as written.
  pub handle_rename-ok :
      (c : RenameUserCommand) (t : Tables) (dto : UserDto)
      → (handle_rename rt db max_attempts d c t).0 ≡ ok dto
      → (k : Uuid) × (name : DisplayName) × (rename_inputs rt c ≡ ok (k, name))
        × IsChanged (rename d.stamp name) k t (handle_rename rt db max_attempts d c t).1 dto
  unfolding handle_rename transaction
  handle_rename-ok c t dto h =
      let ((k, name), inputs, run) = then_run-ok (rename_inputs rt c) _ t dto h in
      let changed = changing-ok (rename d.stamp name) k t dto (rw run at h) in
      let after = transaction-durable db (changing (rename d.stamp name) k t dto) t in
      (k, name, inputs, rw (run, after) changed)

  -- A deactivation that returns has read the row of the given id as a user, deactivated it, and
  -- written the row of that id and version back one version higher, with one outbox row for the event
  -- of the deactivation and nothing else; it returns the user as written.
  pub handle_deactivate-ok :
      (c : DeactivateUserCommand) (t : Tables) (dto : UserDto)
      → (handle_deactivate rt db max_attempts d c t).0 ≡ ok dto
      → (k : Uuid) × (user_id_from_string rt c.user_id ≡ ok k)
        × IsChanged
            (deactivate d.stamp c.reason)
            k
            t
            (handle_deactivate rt db max_attempts d c t).1
            dto
  unfolding handle_deactivate transaction
  handle_deactivate-ok c t dto h =
      let (k, inputs, run) = then_run-ok (user_id_from_string rt c.user_id) _ t dto h in
      let method = deactivate d.stamp c.reason in
      let changed = changing-ok method k t dto (rw run at h) in
      let after = transaction-durable db (changing method k t dto) t in
      (k, inputs, rw (run, after) changed)
