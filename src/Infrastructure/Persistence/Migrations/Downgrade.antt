-- ===== src/Infrastructure/Persistence/Migrations/Downgrade.antt =====
-- That the downgrade of backend/migrations takes back what the upgrade has made.
use ndma_edit.Prelude.{
  Text, List, [], ◌∷◌, ◌++◌, Bool, true, false, not, keep, codes, text_eq, ◌≡◌, refl, ap, ◌∙◌, All,
  All-map, All-append,
}
use ndma_edit.Infrastructure.Persistence.Migrations.{
  Table, Index, Schema, outbox_name, users_name, outbox_columns, users_columns, upgrade, downgrade,
}

keep-snoc_dropped :
    {A : Type 0} (p : A → Bool) (x : A) (xs : List A)
    → All (λ y. p y ≡ true) xs
    → p x ≡ false
    → keep p (xs ++ x ∷ []) ≡ xs
unfolding keep
keep-snoc_dropped p x [] h e = rw e refl
keep-snoc_dropped p x (y ∷ ys) h e = rw (h.0, keep-snoc_dropped p x ys h.1 e) refl

-- A schema without the names that the migration takes.
pub record IsFresh (s : Schema) : Type 0 where
  pub tables_fresh :
      All
        (λ (t : Table). (text_eq t.name outbox_name ≡ false) × (text_eq t.name users_name ≡ false))
        s.tables
  pub indexes_fresh :
      All
        (λ (i : Index).
          (text_eq i.name (codes "ix_outbox_aggregate_id") ≡ false)
          × (text_eq i.name (codes "ix_outbox_status_created_at") ≡ false)
          × (text_eq i.name (codes "ix_users_email") ≡ false))
        s.indexes

abbrev outbox_table : Table
outbox_table = record {
  name = outbox_name;
  columns = outbox_columns;
  primary_key = codes "id" ∷ [];
}

abbrev users_table : Table
users_table = record { name = users_name; columns = users_columns; primary_key = codes "id" ∷ [] }

abbrev is_not_table : Text → Table → Bool
is_not_table name t = not (text_eq t.name name)

abbrev is_not_index : Text → Index → Bool
is_not_index name i = not (text_eq i.name name)

tables_back :
    (ts : List Table)
    → All
        (λ (t : Table). (text_eq t.name outbox_name ≡ false) × (text_eq t.name users_name ≡ false))
        ts
    → keep
        (is_not_table outbox_name)
        (keep (is_not_table users_name) ((ts ++ outbox_table ∷ []) ++ users_table ∷ []))
      ≡ ts
unfolding text_eq codes
tables_back ts fresh =
    ap (keep (is_not_table outbox_name)) (
      keep-snoc_dropped (is_not_table users_name) users_table (ts ++ outbox_table ∷ [])
        (All-append (λ t. is_not_table users_name t ≡ true) ts (outbox_table ∷ [])
          (All-map (λ (t : Table) h. ap not h.1) ts fresh) (refl, tt))
        refl)
    ∙ keep-snoc_dropped (is_not_table outbox_name) outbox_table ts
        (All-map (λ (t : Table) h. ap not h.0) ts fresh) refl

abbrev index_on : Text → Text → List Text → Bool → Index
index_on name table_name columns unique = record {
  name = name;
  table_name = table_name;
  columns = columns;
  unique = unique;
}

abbrev index_a : Index
index_a = index_on (codes "ix_outbox_aggregate_id") outbox_name (codes "aggregate_id" ∷ []) false

abbrev index_b : Index
index_b =
    index_on (codes "ix_outbox_status_created_at") outbox_name
      (codes "status" ∷ codes "created_at" ∷ []) false

abbrev index_c : Index
index_c = index_on (codes "ix_users_email") users_name (codes "email" ∷ []) true

indexes_back :
    (is : List Index)
    → All
        (λ (i : Index).
          (text_eq i.name index_a.name ≡ false)
          × (text_eq i.name index_b.name ≡ false)
          × (text_eq i.name index_c.name ≡ false))
        is
    → keep (is_not_index index_a.name) (
        keep (is_not_index index_b.name) (
          keep
            (is_not_index index_c.name)
            (((is ++ index_a ∷ []) ++ index_b ∷ []) ++ index_c ∷ [])))
      ≡ is
unfolding text_eq codes
indexes_back is fresh =
    let p_b = λ (i : Index). is_not_index index_b.name i ≡ true in
    let p_c = λ (i : Index). is_not_index index_c.name i ≡ true in
    ap (λ l. keep (is_not_index index_a.name) (keep (is_not_index index_b.name) l))
      (keep-snoc_dropped (is_not_index index_c.name) index_c ((is ++ index_a ∷ []) ++ index_b ∷ [])
        (All-append p_c (is ++ index_a ∷ []) (index_b ∷ [])
          (All-append p_c is (index_a ∷ []) (All-map (λ (i : Index) h. ap not h.2) is fresh)
            (refl, tt))
          (refl, tt))
        refl)
    ∙ ap (keep (is_not_index index_a.name)) (
        keep-snoc_dropped (is_not_index index_b.name) index_b (is ++ index_a ∷ [])
          (All-append p_b is (index_a ∷ []) (All-map (λ (i : Index) h. ap not h.1) is fresh)
            (refl, tt))
          refl)
    ∙ keep-snoc_dropped (is_not_index index_a.name) index_a is
        (All-map (λ (i : Index) h. ap not h.0) is fresh) refl

-- The downgrade takes back the upgrade: a schema without the names of the migration is afterwards
-- exactly what it was.
pub downgrade-upgrade : (s : Schema) → IsFresh s → downgrade (upgrade s) ≡ s
unfolding downgrade upgrade
downgrade-upgrade s fresh = λ i. record {
  tables = (tables_back s.tables fresh.tables_fresh) i;
  indexes = (indexes_back s.indexes fresh.indexes_fresh) i;
}
