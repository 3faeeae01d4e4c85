-- ===== src/Application/Users/Written.antt =====
-- What a renaming or a deactivation writes, row by row.
use ndma_edit.Prelude.{
  ℕ, ◌+◌, Text, [], ◌∷◌, ◌++◌, Bool, true, false, ◌==◌, ◌&&◌, Option, some, text_eq, text_eq_iff,
  codes, head?, keep, change, ◌≡◌, refl, sym, ap, ◌∙◌, subst, Bool-cases, inl, inr, if◌then◌else◌,
}
use ndma_edit.Outcome.{ok, >>=-eq-ok, ok_inj}
use ndma_edit.Runtime.{Runtime, Uuid}
use ndma_edit.Domain.Email.{new_email}
use ndma_edit.Domain.DisplayName.{DisplayName, new_display_name}
use ndma_edit.Domain.Aggregate.{
  AggregateRoot, DomainEvent, EventStamp, EventBody, user_renamed, user_deactivated, register_event,
  new_event, mark_persisted, collect_events,
}
use ndma_edit.Domain.User.{User, status_value, deactivated, rename, deactivate, ensure_active}
use ndma_edit.Infrastructure.Persistence.Models.{UserModel, Tables}
use ndma_edit.Infrastructure.Persistence.Database.{Database, HasUniqueKeys}
use ndma_edit.Infrastructure.Persistence.Mapper.{to_domain, parse_status}
use ndma_edit.Infrastructure.Persistence.OutboxRow.{row_of}
use ndma_edit.Infrastructure.Persistence.Repository.{is_current, updated, persisted}
use ndma_edit.Application.Messages.{RenameUserCommand, DeactivateUserCommand}
use ndma_edit.Application.Dto.{UserDto, from_domain}
use ndma_edit.Application.Users.Inputs.{user_id_from_string, rename_inputs}
use ndma_edit.Application.Users.Handlers.{Draws, handle_rename, handle_deactivate}
use ndma_edit.Application.Users.Success.{with_changed}
use ndma_edit.Application.Users.Changes.{handle_rename-ok, handle_deactivate-ok}

-- A root that was read from a row.
abbrev pub root_of : Uuid → ℕ → AggregateRoot
root_of k version = record { id = k; version = version; domain_events = [] }

to_domain-root :
    (rt : Runtime) (m : UserModel) (u : User)
    → to_domain rt m ≡ ok u
    → u.root ≡ root_of m.id m.version
unfolding to_domain
to_domain-root rt m u h =
    let (email, _, h1) = >>=-eq-ok (new_email rt m.email) _ h in
    let (name, _, h2) = >>=-eq-ok (new_display_name m.display_name) _ h1 in
    let (status, _, h3) = >>=-eq-ok (parse_status m.status) _ h2 in
    ap (λ (v : User). v.root) (sym (ok_inj h3))

-- The user as it was read.
abbrev pub read_user : User → Uuid → ℕ → User
read_user before k version = record before { root = root_of k version }

-- The row of a user behind a write, with a name and a status.
abbrev pub written_row : User → Text → Text → ℕ → UserModel → UserModel
written_row before display_name status version m = record {
  id = m.id;
  email = before.email.value;
  display_name = display_name;
  status = status;
  registered_at = before.registered_at;
  version = version + 1;
}

-- Row `k` at a version.
abbrev pub is_row : Uuid → ℕ → UserModel → Bool
is_row k version m = m.id == k && m.version == version

-- The event of a method, written out.
abbrev pub event_of : Uuid → EventStamp → EventBody → DomainEvent
event_of k stamp body = record {
  aggregate_id = k;
  event_id = stamp.event_id;
  occurred_at = stamp.occurred_at;
  event_version = 1;
  body = body;
}

module _ (rt : Runtime) (db : Database) (max_attempts : ℕ) (d : Draws) where
  -- The tables behind a renaming.
  abbrev pub renamed_tables : User → Uuid → ℕ → Text → Tables → Tables
  renamed_tables before k version name t = record {
    users =
        change (is_row k version) (written_row before name (status_value before.status) version)
          t.users;
    outbox =
        t.outbox
        ++ (if text_eq name before.display_name.value
            then []
            else row_of (event_of k d.stamp (user_renamed before.display_name.value name))
                max_attempts (d.now_at 0)
              ∷ []);
  }

  -- The tables behind a deactivation.
  abbrev pub deactivated_tables : User → Uuid → ℕ → Option Text → Tables → Tables
  deactivated_tables before k version reason t = record {
    users =
        change (is_row k version)
          (written_row before before.display_name.value (codes "deactivated") version) t.users;
    outbox =
        t.outbox
        ++ row_of (event_of k d.stamp (user_deactivated reason)) max_attempts (d.now_at 0) ∷ [];
  }

  rename-tables :
      (before after : User) (k : Uuid) (version : ℕ) (name : DisplayName) (t : Tables)
      → rename d.stamp name (read_user before k version) ≡ ok after
      → (with_changed rt db max_attempts d after t ≡ renamed_tables before k version name.value t)
        × (persisted after ≡ record before { root = root_of k (version + 1); display_name = name })
  unfolding rename is_current updated persisted register_event new_event mark_persisted
      collect_events
  rename-tables before after k version name t h =
      let (_, _, made) = >>=-eq-ok (ensure_active (read_user before k version)) _ h in
      elim (Bool-cases (text_eq name.value before.display_name.value)) [
        | inl same ↦
            let made1 : ok (read_user before k version) ≡ ok after = rw same at made in
            let equal : name ≡ before.display_name =
              ap named ((text_eq_iff name.value before.display_name.value).0 same) in
            subst Written (ok_inj made1) (unchanged same equal)
        | inr other ↦
            let made2 : ok renamed ≡ ok after = rw other at made in
            subst Written (ok_inj made2) (changed other)
      ]
    where
      named : Text → DisplayName
      named x = record { value = x }

      renamed : User
      renamed = record before {
        root =
            register_event (new_event k d.stamp (user_renamed before.display_name.value name.value))
              (root_of k version);
        display_name = name;
      }

      Written : User → Type 0
      Written u =
          (with_changed rt db max_attempts d u t ≡ renamed_tables before k version name.value t)
          × (persisted u ≡ record before { root = root_of k (version + 1); display_name = name })

      unchanged :
          text_eq name.value before.display_name.value ≡ true
          → name ≡ before.display_name
          → (with_changed rt db max_attempts d (read_user before k version) t
              ≡ renamed_tables before k version name.value t)
            × (persisted (read_user before k version)
                ≡ record before { root = root_of k (version + 1); display_name = name })
      unchanged same equal = rw (same, equal) (refl, refl)

      changed :
          text_eq name.value before.display_name.value ≡ false
          → (with_changed rt db max_attempts d renamed t
              ≡ renamed_tables before k version name.value t)
            × (persisted renamed
                ≡ record before { root = root_of k (version + 1); display_name = name })
      changed other = rw other (refl, refl)

  deactivate-tables :
      (before after : User) (k : Uuid) (version : ℕ) (reason : Option Text) (t : Tables)
      → deactivate d.stamp reason (read_user before k version) ≡ ok after
      → (with_changed rt db max_attempts d after t ≡ deactivated_tables before k version reason t)
        × (persisted after ≡ record before { root = root_of k (version + 1); status = deactivated })
  unfolding deactivate is_current updated persisted register_event new_event mark_persisted
      collect_events status_value
  deactivate-tables before after k version reason t h =
      let (_, _, made) = >>=-eq-ok (ensure_active (read_user before k version)) _ h in
      subst
        (λ (u : User).
          (with_changed rt db max_attempts d u t ≡ deactivated_tables before k version reason t)
          × (persisted u ≡ record before { root = root_of k (version + 1); status = deactivated }))
        (ok_inj made) (refl, refl)

  as_read :
      (row : UserModel) (before : User)
      → to_domain rt row ≡ ok before
      → before ≡ read_user before row.id row.version
  as_read row before mapped =
      ap (λ (r : AggregateRoot). record before { root = r }) (to_domain-root rt row before mapped)

  -- A renaming that returns has read the first row of the given id as a user, and written exactly this:
  -- in the row of that id and version the email, the given name, the status and the date of
  -- registration of the user, and a version one higher; and behind the outbox one row, that of the
  -- event of the renaming, or none if the name was the same. It returns the user with that name and
  -- version, and no two rows share an id or an email.
  pub handle_rename-writes :
      (c : RenameUserCommand) (t : Tables) (dto : UserDto)
      → (handle_rename rt db max_attempts d c t).0 ≡ ok dto
      → (k : Uuid) × (name : DisplayName) × (row : UserModel) × (before : User) × (rename_inputs rt
            c
          ≡ ok (k, name))
        × (head? (keep (λ m. m.id == k) t.users) ≡ some row)
        × (to_domain rt row ≡ ok before)
        × ((handle_rename rt db max_attempts d c t).1
            ≡ renamed_tables before row.id row.version name.value t)
        × (dto
            ≡ from_domain rt
                (record before { root = root_of row.id (row.version + 1); display_name = name }))
        × HasUniqueKeys (handle_rename rt db max_attempts d c t).1.users
  handle_rename-writes c t dto h =
      let (k, name, inputs, changed) = handle_rename-ok rt db max_attempts d c t dto h in
      let row = changed.row in
      let before = changed.before in
      let method =
        subst (λ (u : User). rename d.stamp name u ≡ ok changed.after)
          (as_read row before changed.mapped) changed.changed in
      let (tables, reply) = rename-tables before changed.after row.id row.version name t method in
      (
        k,
        name,
        row,
        before,
        inputs,
        changed.found,
        changed.mapped,
        changed.written ∙ tables,
        changed.reply ∙ ap (from_domain rt) reply,
        changed.unique,
      )

  -- A deactivation that returns has read the first row of the given id as a user, and written exactly
  -- this: in the row of that id and version the status "deactivated", what else the user was read
  -- with, and a version one higher; and behind the outbox one row, that of the event of the
  -- deactivation with the reason. It returns the user with that status and version, and no two rows
  -- share an id or an email.
  pub handle_deactivate-writes :
      (c : DeactivateUserCommand) (t : Tables) (dto : UserDto)
      → (handle_deactivate rt db max_attempts d c t).0 ≡ ok dto
      → (k : Uuid) × (row : UserModel) × (before : User) × (user_id_from_string rt c.user_id ≡ ok k)
        × (head? (keep (λ m. m.id == k) t.users) ≡ some row)
        × (to_domain rt row ≡ ok before)
        × ((handle_deactivate rt db max_attempts d c t).1
            ≡ deactivated_tables before row.id row.version c.reason t)
        × (dto
            ≡ from_domain rt
                (record before { root = root_of row.id (row.version + 1); status = deactivated }))
        × HasUniqueKeys (handle_deactivate rt db max_attempts d c t).1.users
  handle_deactivate-writes c t dto h =
      let (k, inputs, changed) = handle_deactivate-ok rt db max_attempts d c t dto h in
      let row = changed.row in
      let before = changed.before in
      let method =
        subst (λ (u : User). deactivate d.stamp c.reason u ≡ ok changed.after)
          (as_read row before changed.mapped) changed.changed in
      let (tables, reply) =
        deactivate-tables before changed.after row.id row.version c.reason t method in
      (
        k,
        row,
        before,
        inputs,
        changed.found,
        changed.mapped,
        changed.written ∙ tables,
        changed.reply ∙ ap (from_domain rt) reply,
        changed.unique,
      )
