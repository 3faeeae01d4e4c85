-- ===== src/Infrastructure/Persistence/Migrations.antt =====
-- backend/migrations/versions/85f96d30c06b_initial_schema_users_and_outbox_messages.py, over a schema
-- as alembic's operations see it.
pub mod Environment
pub mod Downgrade
pub mod Fits
use ndma_edit.Prelude.{
  ℕ, Text, List, [], ◌∷◌, ◌++◌, Bool, true, false, not, ◌&&◌, keep, codes, text_eq, ◌≡◌, refl, ap,
  ◌∙◌, All, All-map, All-append,
}

pub data ColumnType : Type 0 where
  uuid jsonb integer unbounded_text timestamp : ColumnType
  string : ℕ → ColumnType

pub record Column : Type 0 where
  pub name : Text
  pub type : ColumnType
  pub nullable : Bool

pub record Table : Type 0 where
  pub name : Text
  pub columns : List Column
  pub primary_key : List Text

pub record Index : Type 0 where
  pub name : Text
  pub table_name : Text
  pub columns : List Text
  pub unique : Bool

pub record Schema : Type 0 where
  pub tables : List Table
  pub indexes : List Index

-- `sa.Column(name, type, nullable=False)`
abbrev pub column : Text → ColumnType → Column
column name type = record { name = name; type = type; nullable = false }

-- `sa.Column(name, type, nullable=True)`
abbrev pub nullable_column : Text → ColumnType → Column
nullable_column name type = record { name = name; type = type; nullable = true }

abbrev pub outbox_name : Text
outbox_name = codes "outbox_messages"

abbrev pub users_name : Text
users_name = codes "users"

abbrev pub outbox_columns : List Column
outbox_columns =
    column (codes "id") uuid
    ∷ column (codes "aggregate_type") (string 100)
    ∷ column (codes "aggregate_id") uuid
    ∷ column (codes "event_type") (string 200)
    ∷ column (codes "payload") jsonb
    ∷ column (codes "status") (string 20)
    ∷ column (codes "attempt_count") integer
    ∷ column (codes "max_attempts") integer
    ∷ nullable_column (codes "last_error") unbounded_text
    ∷ column (codes "created_at") timestamp
    ∷ nullable_column (codes "processed_at") timestamp
    ∷ column (codes "available_at") timestamp
    ∷ []

abbrev pub users_columns : List Column
users_columns =
    column (codes "id") uuid
    ∷ column (codes "email") (string 254)
    ∷ column (codes "display_name") (string 120)
    ∷ column (codes "status") (string 20)
    ∷ column (codes "registered_at") timestamp
    ∷ column (codes "version") integer
    ∷ []

-- `op.create_table`
abbrev pub create_table : Text → List Column → List Text → Schema → Schema
create_table name columns primary_key s = record s {
  tables = s.tables ++ record { name = name; columns = columns; primary_key = primary_key } ∷ [];
}

-- `op.create_index`
abbrev pub create_index : Text → Text → List Text → Bool → Schema → Schema
create_index name table_name columns unique s = record s {
  indexes =
      s.indexes
      ++ record { name = name; table_name = table_name; columns = columns; unique = unique } ∷ [];
}

-- `op.drop_index`
abbrev pub drop_index : Text → Schema → Schema
drop_index name s = record s { indexes = keep (λ i. not (text_eq i.name name)) s.indexes }

-- `op.drop_table`
abbrev pub drop_table : Text → Schema → Schema
drop_table name s = record s { tables = keep (λ t. not (text_eq t.name name)) s.tables }

unfoldable pub upgrade : Schema → Schema
upgrade s =
    let s1 = create_table outbox_name outbox_columns (codes "id" ∷ []) s in
    let s2 =
      create_index (codes "ix_outbox_aggregate_id") outbox_name (codes "aggregate_id" ∷ []) false
        s1 in
    let s3 =
      create_index (codes "ix_outbox_status_created_at") outbox_name
        (codes "status" ∷ codes "created_at" ∷ []) false s2 in
    let s4 = create_table users_name users_columns (codes "id" ∷ []) s3 in
    create_index (codes "ix_users_email") users_name (codes "email" ∷ []) true s4

unfoldable pub downgrade : Schema → Schema
downgrade s =
    let s1 = drop_index (codes "ix_users_email") s in
    let s2 = drop_table users_name s1 in
    let s3 = drop_index (codes "ix_outbox_status_created_at") s2 in
    let s4 = drop_index (codes "ix_outbox_aggregate_id") s3 in drop_table outbox_name s4
