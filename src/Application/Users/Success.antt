-- ===== src/Application/Users/Success.antt =====
-- What a use case that returns has done: the exact tables after a registration, a renaming and a
-- deactivation.
use ndma_edit.Prelude.{
  ℕ, [], ◌∷◌, ◌++◌, is_some, ◌==◌, keep, change, ◌≡◌, ◌≢◌, refl, sym, ◌∙◌, subst, arith, Bool-cases,
  inl, inr,
}
use ndma_edit.Outcome.{Outcome, ok, err, email_already_registered}
use ndma_edit.Runtime.{Runtime}
use ndma_edit.Domain.Email.{Email}
use ndma_edit.Domain.DisplayName.{DisplayName}
use ndma_edit.Domain.Aggregate.{DomainEvent, collect_events, new_event, user_registered}
use ndma_edit.Domain.User.{User, register}
use ndma_edit.Infrastructure.Persistence.Models.{Tables}
use ndma_edit.Infrastructure.Persistence.Database.{Database, user_row, insert_rows, HasUniqueKeys}
use ndma_edit.Infrastructure.Persistence.Mapper.{to_model}
use ndma_edit.Infrastructure.Persistence.OutboxRow.{row_of, rows_of}
use ndma_edit.Infrastructure.Persistence.Exec.{UnitOfWork, extend, ◌>>=◌, ◌>>◌, pure, raise_if}
use ndma_edit.Infrastructure.Persistence.Repository.{
  get_by_email, add, save, is_current, updated, persisted, drained,
}
use ndma_edit.Infrastructure.Persistence.UnitOfWork.{enter, commit, transaction}
use ndma_edit.Infrastructure.Persistence.UnitOfWork.Commit.{
  >>=-ok, due_tables, commit-ok, transaction-durable,
}
use ndma_edit.Application.Messages.{RegisterUserCommand}
use ndma_edit.Application.Dto.{UserDto, from_domain}
use ndma_edit.Application.Users.Inputs.{register_inputs}
use ndma_edit.Application.Users.Handlers.{
  Draws, then_run, register_body, save_and_commit, handle_register,
}

pub then_run-ok :
    {A B : Type 0} (r : Outcome A) (k : A → Tables → Outcome B × Tables) (t : Tables) (b : B)
    → (then_run r k t).0 ≡ ok b
    → (a : A) × (r ≡ ok a) × (then_run r k t ≡ k a t)
then_run-ok (ok a) k t b h = (a, refl, refl)
then_run-ok (err e) k t b h = cc

module _ (rt : Runtime) (db : Database) (max_attempts : ℕ) (d : Draws) where
  open db use {Session}

  -- The tables with one new user and the rows of its events.
  abbrev pub with_user : User → Tables → Tables
  with_user user t = record {
    users = t.users ++ to_model user ∷ [];
    outbox = t.outbox ++ rows_of max_attempts d.now_at 0 user.domain_events;
  }

  -- A new user that was added in a fresh unit of work is due, with its events.
  due-add :
      (user : User) (t : Tables)
      → due_tables db max_attempts d.now_at (add rt db user (enter db t)).1 ≡ with_user user t
  unfolding add enter insert_rows collect_events
  due-add user t =
      let s = db.connect t in
      let r = user_row (to_model user) in
      rw (db.view-add r s, db.added-add r s, db.added-connect t, db.view-connect t)

  -- The end of a registration: the user is added, then all is committed.
  register_rest-ok :
      (user : User) (t : Tables) (dto : UserDto)
      → let run =
          (add rt db user >>= λ user'.
          commit db max_attempts d.now_at >> pure (from_domain rt user'))
            (enter db t) in
        run.0 ≡ ok dto
        → (run.1.durable ≡ with_user user t)
          × (dto ≡ from_domain rt (drained user))
          × HasUniqueKeys (with_user user t).users
  unfolding add enter
  register_rest-ok user t dto h =
      let v = (add rt db user (enter db t)).1 in
      let (written, same, unique) =
        commit-ok db max_attempts d.now_at v (from_domain rt (drained user)) dto refl h in
      let due = due-add user t in
      (written ∙ due, same, subst (λ (x : Tables). HasUniqueKeys x.users) due unique)

  -- The tables with one user changed and the rows of its events.
  abbrev pub with_changed : User → Tables → Tables
  with_changed user t = record {
    users = change (is_current user) (updated user) t.users;
    outbox = t.outbox ++ rows_of max_attempts d.now_at 0 user.domain_events;
  }

  due-update :
      (user : User) (t : Tables) (v : UnitOfWork Session)
      → v.session ≡ (db.update_users (is_current user) (updated user) (db.connect t)).1
      → v.lists v.pending_events ≡ user.domain_events
      → due_tables db max_attempts d.now_at v ≡ with_changed user t
  unfolding insert_rows
  due-update user t v e f =
      let s = db.connect t in
      let p = is_current user in
      let g = updated user in
      rw (e, f, db.view-update p g s, db.added-update p g s, db.added-connect t, db.view-connect t)

  -- The unit of work after a `save` that found its row.
  abbrev saved : User → Tables → UnitOfWork Session
  saved user t =
      let session = (db.update_users (is_current user) (updated user) (db.connect t)).1 in
      extend 0 user.domain_events (record (enter db t) { session = session })

  save-ok :
      (user user' : User) (t : Tables)
      → (save rt db user (enter db t)).0 ≡ ok user'
      → (save rt db user (enter db t) ≡ (ok (persisted user), saved user t))
        × (keep (is_current user) t.users ≢ [])
  unfolding save enter collect_events
  save-ok user user' t h =
      let s = db.connect t in
      let count = db.rowcount (is_current user) (updated user) s in
      elim (Bool-cases ((db.update_users (is_current user) (updated user) s).0 == 0)) [
        | inl lost ↦ cc (rw lost at h)
        | inr kept ↦ (
          rw kept,
          λ e.
              let none_found : (db.update_users (is_current user) (updated user) s).0 ≡ 0 =
                count ∙ rw (db.view-connect t, e) in
              ground arith,
        )
      ]

  -- The end of a handler that changes a user: the row is updated, then all is committed.
  pub save_and_commit-ok :
      (user : User) (t : Tables) (dto : UserDto)
      → let run = save_and_commit rt db max_attempts d user (enter db t) in
        run.0 ≡ ok dto
        → (run.1.durable ≡ with_changed user t)
          × (dto ≡ from_domain rt (persisted user))
          × (keep (is_current user) t.users ≢ [])
          × HasUniqueKeys (with_changed user t).users
  unfolding save_and_commit
  save_and_commit-ok user t dto h =
      let (user', e, chain) = >>=-ok (save rt db user) _ (enter db t) dto h in
      let (state, found) = save-ok user user' t e in
      let v = saved user t in
      let due : due_tables db max_attempts d.now_at v ≡ with_changed user t =
        due-update user t v refl (unfold enter in refl) in
      let (written, same, unique) =
        commit-ok db max_attempts d.now_at v (from_domain rt (persisted user)) dto
          (unfold enter in refl) (rw state at h) in
      (
        rw state (written ∙ due),
        same,
        found,
        subst (λ (x : Tables). HasUniqueKeys x.users) due unique,
      )

  -- The new user of a registration, and its event.
  abbrev pub registered : Email → DisplayName → User
  registered email name = register d.user_id d.registered_at d.stamp email name

  abbrev pub registered_event : Email → DisplayName → DomainEvent
  registered_event email name = new_event d.user_id d.stamp (user_registered email.value name.value)

  register_body-ok :
      (email : Email) (name : DisplayName) (t : Tables) (dto : UserDto)
      → let run = register_body rt db max_attempts d email name (enter db t) in
        run.0 ≡ ok dto
        → (run.1.durable ≡ record {
          users = t.users ++ to_model (registered email name) ∷ [];
          outbox = t.outbox ++ row_of (registered_event email name) max_attempts (d.now_at 0) ∷ [];
        })
          × (dto ≡ from_domain rt (registered email name))
          × HasUniqueKeys (t.users ++ to_model (registered email name) ∷ [])
  unfolding register_body get_by_email register to_model from_domain drained
  register_body-ok email name t dto h =
      let (existing, e₁, run₁) = >>=-ok (get_by_email rt db email) _ (enter db t) dto h in
      let h₁ = rw run₁ at h in
      let (free, e₂, run₂) =
        >>=-ok (raise_if (is_some existing) (email_already_registered email.value)) _ (enter db t)
          dto h₁ in
      let (tables, reply, unique) =
        register_rest-ok (registered email name) t dto (rw run₂ at h₁) in
      (rw (run₁, run₂) tables, reply, unique)

  -- A registration that returns has stored one row, that of the new active user at version 0 under the
  -- normalized email and name, and one outbox row, that of its event; it returns that user, and no
  -- two rows share an id or an email.
  pub handle_register-ok :
      (c : RegisterUserCommand) (t : Tables) (dto : UserDto)
      → (handle_register rt db max_attempts d c t).0 ≡ ok dto
      → (email : Email) × (name : DisplayName) × (register_inputs rt c ≡ ok (email, name))
        × (dto ≡ from_domain rt (registered email name))
        × ((handle_register rt db max_attempts d c t).1 ≡ record {
          users = t.users ++ to_model (registered email name) ∷ [];
          outbox = t.outbox ++ row_of (registered_event email name) max_attempts (d.now_at 0) ∷ [];
        })
        × HasUniqueKeys (handle_register rt db max_attempts d c t).1.users
  unfolding handle_register transaction
  handle_register-ok c t dto h =
      let ((email, name), inputs, run) = then_run-ok (register_inputs rt c) _ t dto h in
      let body = register_body rt db max_attempts d email name in
      let h₁ : (body (enter db t)).0 ≡ ok dto = rw run at h in
      let after : (handle_register rt db max_attempts d c t).1 ≡ (body (enter db t)).1.durable =
        rw run (transaction-durable db body t) in
      let (tables, reply, unique) = register_body-ok email name t dto h₁ in
      (
        email,
        name,
        inputs,
        reply,
        after ∙ tables,
        subst (λ (x : Tables). HasUniqueKeys x.users) (sym (after ∙ tables)) unique,
      )
