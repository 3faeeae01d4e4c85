-- ===== src/Infrastructure/Persistence/UnitOfWork/Rebinding.antt =====
-- `commit` binds `_pending_events` to a new list, and the repository's `_event_sink` keeps the old one.
use ndma_edit.Prelude.{
  ℕ, ◌<◌, List, [], true, Option, none, some, ◌≡◌, ap, ◌∙◌, arith, ◌==◌, subst, if_both, append-nil,
}
use ndma_edit.Outcome.{Outcome, ok}
use ndma_edit.Runtime.{Runtime}
use ndma_edit.Domain.Aggregate.{Time, DomainEvent, collect_events}
use ndma_edit.Domain.User.{User}
use ndma_edit.Infrastructure.Persistence.Models.{Tables}
use ndma_edit.Infrastructure.Persistence.Database.{Database, insert_rows}
use ndma_edit.Infrastructure.Persistence.Exec.{UnitOfWork, ◌>>=◌, ◌>>◌, pure, extend, fresh_pending}
use ndma_edit.Infrastructure.Persistence.Repository.{is_current, updated, save}
use ndma_edit.Infrastructure.Persistence.UnitOfWork.{committed, commit_rows, commit}
use ndma_edit.Infrastructure.Persistence.UnitOfWork.Atomic.{commit-open}
use ndma_edit.Infrastructure.Persistence.UnitOfWork.Commit.{>>=-ok, commit-ok}

module _ (db : Database) where
  open db use {Session, view, added, commit as commit_session}

  -- A unit of work behind a commit: the repository fills another list than the one that the next
  -- commit reads, which is empty, and the outbox that the session sees is that of `t`.
  pub record IsCutOff (t : Tables) (u : UnitOfWork Session) : Type 0 where
    pub on : u.is_open ≡ true
    pub apart : u.event_sink < u.pending_events
    pub empty : u.lists u.pending_events ≡ []
    pub nothing_added : added u.session ≡ []
    pub outbox : (view u.session).outbox ≡ t.outbox

  commit_rows-IsCutOff :
      (o : Option Tables) (u : UnitOfWork Session) (s : Session)
      → u.is_open ≡ true
      → u.event_sink < u.next_ref
      → (a : Unit {0}) → (committed db o (record (fresh_pending u) { session = s })).0 ≡ ok a
      → IsCutOff
          (committed db o (record (fresh_pending u) { session = s })).1.durable
          (committed db o (record (fresh_pending u) { session = s })).1
  commit_rows-IsCutOff none u s on fresh a h = cc
  commit_rows-IsCutOff (some t) u s on fresh a h = record {
    on = on;
    apart = fresh;
    empty = ground arith;
    nothing_added = db.added-connect t;
    outbox = ap (λ (x : Tables). x.outbox) (db.view-connect t);
  }

  commit-IsCutOff :
      (m : ℕ) (now_at : ℕ → Time) (u : UnitOfWork Session)
      → u.is_open ≡ true
      → u.event_sink < u.next_ref
      → (a : Unit {0}) → (commit db m now_at u).0 ≡ ok a
      → IsCutOff (commit db m now_at u).1.durable (commit db m now_at u).1
  unfolding commit_rows
  commit-IsCutOff m now_at u on fresh a =
      rw (commit-open db m now_at u on) (commit_rows-IsCutOff _ u _ on fresh a)

  extend-IsCutOff :
      (t : Tables) (u : UnitOfWork Session) (es : List DomainEvent)
      → IsCutOff t u
      → IsCutOff t (extend u.event_sink es u)
  extend-IsCutOff t u es cut = record {
    on = cut.on;
    apart = cut.apart;
    empty = (let apart = cut.apart in let empty = cut.empty in ground arith);
    nothing_added = cut.nothing_added;
    outbox = cut.outbox;
  }

  write-IsCutOff :
      (user : User) (t : Tables) (u : UnitOfWork Session)
      → IsCutOff t u
      → IsCutOff t
          (record u { session = (db.update_users (is_current user) (updated user) u.session).1 })
  write-IsCutOff user t u cut = record {
    on = cut.on;
    apart = cut.apart;
    empty = cut.empty;
    nothing_added = db.added-update (is_current user) (updated user) u.session ∙ cut.nothing_added;
    outbox =
        ap (λ (x : Tables). x.outbox) (db.view-update (is_current user) (updated user) u.session)
        ∙ cut.outbox;
  }

  save-IsCutOff :
      (rt : Runtime) (user : User) (t : Tables) (u : UnitOfWork Session)
      → IsCutOff t u
      → IsCutOff t (save rt db user u).1
  unfolding save
  save-IsCutOff rt user t u cut =
      let m = db.update_users (is_current user) (updated user) u.session in
      let cut' = write-IsCutOff user t u cut in
      if_both (λ (r : Outcome User × UnitOfWork Session). IsCutOff t r.1) (m.0 == 0) cut'
        (extend-IsCutOff t (record u { session = m.1 }) (collect_events user.root).0 cut')

  -- What a commit writes to the outbox in that state: nothing.
  commit-cut_off :
      {A : Type 0} (m : ℕ) (now_at : ℕ → Time) (t : Tables) (u : UnitOfWork Session) (a b : A)
      → IsCutOff t u
      → ((commit db m now_at >> pure a) u).0 ≡ ok b
      → ((commit db m now_at >> pure a) u).1.durable.outbox ≡ t.outbox
  unfolding insert_rows
  commit-cut_off m now_at t u a b cut h =
      ap (λ (x : Tables). x.outbox) (commit-ok db m now_at u a b cut.on h).0
      ∙ rw (cut.empty, cut.nothing_added) (append-nil (view u.session).outbox ∙ cut.outbox)

  -- A unit of work that commits, saves a user and commits again writes no row to the outbox in its
  -- second commit, whatever events the user has: `save` has put them into the list that the first
  -- commit left behind.
  pub second_commit_loses_events :
      (A : Type 0) (rt : Runtime) (m : ℕ) (now_at now_at' : ℕ → Time) (user : User) (a : User → A)
      (u : UnitOfWork Session) (b : A)
      → u.is_open ≡ true
      → u.event_sink < u.next_ref
      → ((commit db m now_at
            >> (save rt db user >>= λ user'. commit db m now_at' >> pure (a user')))
          u).0
        ≡ ok b
      → ((commit db m now_at
            >> (save rt db user >>= λ user'. commit db m now_at' >> pure (a user')))
          u).1.durable.outbox
        ≡ (commit db m now_at u).1.durable.outbox
  second_commit_loses_events A rt m now_at now_at' user a u b on fresh h =
      let rest = λ (user' : User). commit db m now_at' >> pure (a user') in
      let (x, committed_x, e1) =
        >>=-ok (commit db m now_at) (λ _. save rt db user >>= rest) u b h in
      let v = (commit db m now_at u).1 in
      let h1 = subst (λ (r : Outcome A × UnitOfWork Session). r.0 ≡ ok b) e1 h in
      let (user', saved, e2) = >>=-ok (save rt db user) rest v b h1 in
      let cut =
        save-IsCutOff rt user v.durable v (commit-IsCutOff m now_at u on fresh x committed_x) in
      ap (λ (r : Outcome A × UnitOfWork Session). r.1.durable.outbox) (e1 ∙ e2)
      ∙ commit-cut_off m now_at' v.durable (save rt db user v).1 (a user') b cut
          (subst (λ (r : Outcome A × UnitOfWork Session). r.0 ≡ ok b) e2 h1)
