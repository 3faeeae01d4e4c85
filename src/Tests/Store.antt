-- ===== src/Tests/Store.antt =====
-- The theorems on the mapper, the unit of work and the relay at concrete inputs.
use ndma_edit.Prelude.{
  ℕ, ◌+◌, ◌≤◌, min, List, [], ◌∷◌, ◌++◌, true, false, not, none, some, codes, ◌≡◌, refl, arith,
  keep, length, All, inl, ◌<◌, ◌==◌, if◌then◌else◌, strip, text_eq, change,
}
use mathlib.Core.List.{Perm}
use ndma_edit.Outcome.{ok}
use ndma_edit.Domain.Email.{new_email}
use ndma_edit.Domain.Email.Pattern.{email_pattern}
use ndma_edit.Domain.DisplayName.{new_display_name}
use ndma_edit.Domain.Aggregate.{Time, user_renamed}
use ndma_edit.Domain.User.{User, register}
use ndma_edit.Infrastructure.Persistence.Models.{OutboxModel, published}
use ndma_edit.Infrastructure.Persistence.Database.{HasUniqueKeys, order_by}
use ndma_edit.Infrastructure.Persistence.Mapper.{
  to_domain, to_model, IsWellFormed, to_domain-to_model,
}
use ndma_edit.Infrastructure.Persistence.Exec.{UnitOfWork, ◌>>=◌, ◌>>◌, pure}
use ndma_edit.Infrastructure.Persistence.Repository.{add, save}
use ndma_edit.Infrastructure.Persistence.UnitOfWork.{enter, commit}
use ndma_edit.Infrastructure.Persistence.UnitOfWork.Commit.{due_tables, commit-ok}
use ndma_edit.Infrastructure.Persistence.UnitOfWork.Rebinding.{second_commit_loses_events}
use ndma_edit.Infrastructure.Persistence.Relay.{is_due, Round, batch, relay_once}
use ndma_edit.Infrastructure.Persistence.Relay.Rounds.{rounds, rounds-attempts-le}
use ndma_edit.Infrastructure.Persistence.Relay.Final.{ids, settled_is_final}
use ndma_edit.Infrastructure.Persistence.Relay.Order.{IsOldestFirst, batch_is_oldest}
use ndma_edit.Tests.Surroundings.{ascii, memory, Open, commit_open}
use ndma_edit.Tests.Samples.{ada, ada_email, ada_name, stamp, no_tables, one_user, row}

ada_email_ok : new_email ascii ada_email ≡ ok ada.email
unfolding new_email codes strip email_pattern
ada_email_ok = refl

ada_name_ok : new_display_name ada_name ≡ ok ada.display_name
unfolding new_display_name codes strip
ada_name_ok = refl

ada-IsWellFormed : IsWellFormed ascii ada
ada-IsWellFormed = record { email_ok = ada_email_ok; name_ok = ada_name_ok }

to_domain-to_model_example : to_domain ascii (to_model ada) ≡ ok ada
to_domain-to_model_example = to_domain-to_model ascii ada ada-IsWellFormed

abbrev clock : ℕ → Time
clock i = 6000 + i

abbrev new_ada : User
new_ada = register 7 4000 stamp ada.email ada.display_name

abbrev holding_ada : UnitOfWork Open
holding_ada = (add ascii memory new_ada (enter memory no_tables)).1

stays_open : holding_ada.is_open ≡ true
unfolding add enter
stays_open = refl

commits : ((commit memory 5 clock >> pure true) holding_ada).0 ≡ ok true
unfolding commit commit_open add enter codes text_eq register
commits = refl

commit-ok_example :
    (((commit memory 5 clock >> pure true) holding_ada).1.durable
      ≡ due_tables memory 5 clock holding_ada)
    × (true ≡ true)
    × HasUniqueKeys (due_tables memory 5 clock holding_ada).users
commit-ok_example = commit-ok memory 5 clock holding_ada true true stays_open commits

-- The user with a renaming that no commit has stored yet.
abbrev renamed_ada : User
renamed_ada = record ada {
  root = record {
    id = 7;
    version = 0;
    domain_events =
        record {
          aggregate_id = 7;
          event_id = 900;
          occurred_at = 5000;
          event_version = 1;
          body = user_renamed (codes "Augusta") ada_name;
        }
        ∷ [];
  };
}

abbrev started : UnitOfWork Open
started = enter memory one_user

started_open : started.is_open ≡ true
unfolding enter
started_open = refl

started_ordered : started.event_sink < started.next_ref
unfolding enter
started_ordered = omega arith

commits_twice :
    ((commit memory 5 clock
        >> (save ascii memory renamed_ada >>= λ saved. commit memory 5 clock >> pure saved.version))
      started).0
    ≡ ok 1
unfolding commit commit_open save enter codes text_eq keep change
commits_twice = refl

second_commit_loses_events_example :
    ((commit memory 5 clock
        >> (save ascii memory renamed_ada >>= λ saved. commit memory 5 clock >> pure saved.version))
      started).1.durable.outbox
    ≡ (commit memory 5 clock started).1.durable.outbox
second_commit_loses_events_example =
    second_commit_loses_events memory ℕ ascii 5 clock clock renamed_ada (λ saved. saved.version)
      started 1 started_open started_ordered commits_twice

-- A round in which the broker accepts the first message and refuses the others.
abbrev mixed : Round
mixed = record {
  now = 7000;
  now_at = λ i. 7001 + i;
  answer = λ i m. if i == 0 then none else some (codes "refused");
  is_locked = λ r. false;
  commits = true;
}

abbrev some_rows : List OutboxModel
some_rows = row 2 ∷ row 1 ∷ row 3 ∷ []

abbrev done_row : OutboxModel
done_row = record (row 4) { status = published; attempt_count = 1 }

settled_is_final_example :
    let outbox = done_row ∷ row 1 ∷ [] in
    (ids (rounds ascii 10 5 (mixed ∷ mixed ∷ []) outbox) ≡ ids outbox)
    × All
        (λ (r : OutboxModel). r.id ≡ done_row.id → r ≡ done_row)
        (rounds ascii 10 5 (mixed ∷ mixed ∷ []) outbox)
settled_is_final_example =
    settled_is_final ascii 10 5 done_row (mixed ∷ mixed ∷ []) (done_row ∷ row 1 ∷ []) (inl refl)
      (λ h. refl, (λ h. cc, tt))

rounds-attempts-le_example :
    All
      (λ (r : OutboxModel). r.attempt_count ≤ 5)
      (rounds ascii 10 5 (mixed ∷ mixed ∷ []) some_rows)
rounds-attempts-le_example =
    rounds-attempts-le ascii 10 5 (mixed ∷ mixed ∷ []) some_rows
      (omega arith, (omega arith, (omega arith, tt)))

takes_two : (relay_once ascii 2 5 mixed some_rows).0 ≡ ok 2
unfolding relay_once keep order_by
takes_two = refl

batch_is_oldest_example :
    let ready = keep (λ r. not (mixed.is_locked r)) (keep (is_due 5 mixed.now) some_rows) in
    let rows = batch 2 5 mixed some_rows in
    (rest : List OutboxModel) × Perm (rows ++ rest) ready
    × IsOldestFirst (rows ++ rest)
    × (length rows ≡ min 2 (length (rows ++ rest)))
batch_is_oldest_example = batch_is_oldest 2 5 mixed some_rows
