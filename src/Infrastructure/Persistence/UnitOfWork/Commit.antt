-- ===== src/Infrastructure/Persistence/UnitOfWork/Commit.antt =====
-- What a commit that goes through has committed: the session's view, the objects that were added to
-- it, and one outbox row for each pending event, in order.
use ndma_edit.Prelude.{
  ℕ, true, Option, none, some, List, [], ◌∷◌, ◌++◌, map, ◌≡◌, refl, sym, subst, ap, ◌∙◌,
  append_assoc, append-nil,
}
use ndma_edit.Outcome.{Outcome, ok, err}
use ndma_edit.Domain.Aggregate.{Time}
use ndma_edit.Infrastructure.Persistence.Models.{Tables, OutboxModel}
use ndma_edit.Infrastructure.Persistence.Database.{
  Database, NewRow, outbox_row, insert_row, insert_rows, HasUniqueKeys,
}
use ndma_edit.Infrastructure.Persistence.OutboxRow.{rows_of}
use ndma_edit.Infrastructure.Persistence.Exec.{UnitOfWork, Exec, continue, ◌>>=◌, ◌>>◌, pure}
use ndma_edit.Infrastructure.Persistence.UnitOfWork.{
  enter, add_rows, committed, commit_rows, commit, transaction,
}
use ndma_edit.Infrastructure.Persistence.UnitOfWork.Atomic.{commit-open, durable-exit}

module _ {S A B : Type 0} where
  continue-ok :
      (f : A → Exec S B) (r : Outcome A) (v : UnitOfWork S) (b : B)
      → (continue f (r, v)).0 ≡ ok b
      → (a : A) × (r ≡ ok a) × (continue f (r, v) ≡ f a v)
  continue-ok f (ok a) v b h = (a, refl, refl)
  continue-ok f (err e) v b h = cc

  -- A chain that returns went through its first call.
  pub >>=-ok :
      (m : Exec S A) (f : A → Exec S B) (u : UnitOfWork S) (b : B)
      → ((m >>= f) u).0 ≡ ok b
      → (a : A) × ((m u).0 ≡ ok a) × ((m >>= f) u ≡ f a (m u).1)
  >>=-ok m f u b h = continue-ok f (m u).0 (m u).1 b h

insert_rows-append :
    (xs ys : List NewRow) (t : Tables)
    → insert_rows (xs ++ ys) t ≡ insert_rows ys (insert_rows xs t)
unfolding insert_rows
insert_rows-append [] ys t = refl
insert_rows-append (x ∷ xs) ys t = insert_rows-append xs ys (insert_row t x)

-- Rows behind the outbox.
abbrev pub with_outbox : List OutboxModel → Tables → Tables
with_outbox rows t = record t { outbox = t.outbox ++ rows }

insert_rows-outbox :
    (rs : List OutboxModel) (t : Tables) → insert_rows (map outbox_row rs) t ≡ with_outbox rs t
unfolding insert_rows
insert_rows-outbox [] t =
    ap (λ (o : List OutboxModel). record t { outbox = o }) (sym (append-nil t.outbox))
insert_rows-outbox (r ∷ rs) t =
    insert_rows-outbox rs (insert_row t (outbox_row r))
    ∙ ap (λ (o : List OutboxModel). record t { outbox = o }) (append_assoc t.outbox (r ∷ []) rs)

module _ (db : Database) where
  open db use {Session, view, added, commit as commit_session}

  view-add_rows : (rs : List OutboxModel) (s : Session) → view (add_rows db rs s) ≡ view s
  unfolding add_rows
  view-add_rows [] s = refl
  view-add_rows (r ∷ rs) s = rw (view-add_rows rs _) (db.view-add (outbox_row r) s)

  added-add_rows :
      (rs : List OutboxModel) (s : Session)
      → added (add_rows db rs s) ≡ added s ++ map outbox_row rs
  unfolding add_rows
  added-add_rows [] s = sym (append-nil (added s))
  added-add_rows (r ∷ rs) s =
      rw (added-add_rows rs _, db.added-add (outbox_row r) s)
        (append_assoc (added s) (outbox_row r ∷ []) (map outbox_row rs))

  module _ (max_attempts : ℕ) (now_at : ℕ → Time) (u : UnitOfWork Session) where
    -- What the next commit is to write.
    abbrev pub due_tables : Tables
    due_tables =
        with_outbox (rows_of max_attempts now_at 0 (u.lists u.pending_events))
          (insert_rows (added u.session) (view u.session))

    committed-eq-due :
        (t : Tables)
        → commit_session
            (add_rows db (rows_of max_attempts now_at 0 (u.lists u.pending_events)) u.session)
          ≡ some t
        → t ≡ due_tables
    committed-eq-due t h =
        let rows = rows_of max_attempts now_at 0 (u.lists u.pending_events) in
        db.commit_lem _ t h
        ∙ rw (added-add_rows rows u.session, view-add_rows rows u.session, insert_rows-append)
            (insert_rows-outbox rows _)

    committed-ok :
        {A : Type 0} (a b : A) (o : Option Tables) (v : UnitOfWork Session)
        → (continue (λ _. pure a) (committed db o v)).0 ≡ ok b
        → (t : Tables) × (o ≡ some t)
          × ((continue (λ _. pure a) (committed db o v)).1.durable ≡ t)
          × (b ≡ a)
    committed-ok a b none v h = cc
    committed-ok a b (some t) v h = (t, refl, refl, cc)

    -- A commit that goes through has written exactly what was due, and the keys are unique.
    pub commit-ok :
        {A : Type 0} (a b : A)
        → u.is_open ≡ true
        → ((commit db max_attempts now_at >> pure a) u).0 ≡ ok b
        → (((commit db max_attempts now_at >> pure a) u).1.durable ≡ due_tables)
          × (b ≡ a)
          × HasUniqueKeys due_tables.users
    unfolding commit_rows
    commit-ok a b on = rw (commit-open db max_attempts now_at u on) λ h.
        let (t, e, written, same) = committed-ok a b _ _ h in
        let due = committed-eq-due t e in
        (
          written ∙ due,
          same,
          subst (λ (x : Tables). HasUniqueKeys x.users) due (db.commit_unique _ t e),
        )

  -- The tables after a unit of work are what its body has committed.
  pub transaction-durable :
      {A : Type 0} (body : Exec Session A) (t : Tables)
      → (transaction db body t).1 ≡ (body (enter db t)).1.durable
  unfolding transaction
  transaction-durable body t = durable-exit db (body (enter db t)).0 (body (enter db t)).1
