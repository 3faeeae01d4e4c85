-- ===== src/Infrastructure/Persistence/Migrations/Fits.antt =====
-- That the rows which the application writes fit into the columns of the migration.
use ndma_edit.Prelude.{
  ℕ, ◌<◌, Text, List, [], ◌∷◌, Bool, true, false, ◌&&◌, Option, none, some, leb, ltb, le→leb,
  lt→ltb, length, codes, ◌≡◌, refl,
}
use ndma_edit.Runtime.{Runtime}
use ndma_edit.Domain.Aggregate.{
  Time, DomainEvent, EventBody, user_registered, user_renamed, user_deactivated, body_type,
}
use ndma_edit.Domain.Email.Normal.{new_email_iff}
use ndma_edit.Domain.DisplayName.Normal.{new_display_name_iff}
use ndma_edit.Domain.User.{User, UserStatus, active, deactivated, status_value}
use ndma_edit.Infrastructure.Persistence.Models.{
  UserModel, OutboxModel, OutboxStatus, pending, processing, published, failed,
}
use ndma_edit.Infrastructure.Persistence.Mapper.{to_model, IsWellFormed}
use ndma_edit.Infrastructure.Persistence.OutboxRow.{row_of}
use ndma_edit.Infrastructure.Persistence.Migrations.{
  Column, ColumnType, uuid, jsonb, integer, unbounded_text, timestamp, string, outbox_columns,
  users_columns,
}

-- A value of a row.
pub data Datum : Type 0 where
  uuid_value json_value time_value null : Datum
  text_value : Text → Datum
  number : ℕ → Datum

-- An INTEGER of PostgreSQL has 32 bits with a sign.
abbrev pub integer_end : ℕ
integer_end = 2_147_483_648

abbrev pub fits_type : ColumnType → Bool → Datum → Bool
fits_type t nullable null = nullable
fits_type uuid nullable uuid_value = true
fits_type jsonb nullable json_value = true
fits_type timestamp nullable time_value = true
fits_type integer nullable (number n) = ltb n integer_end
fits_type unbounded_text nullable (text_value s) = true
fits_type (string size) nullable (text_value s) = leb (length s) size
fits_type _ nullable _ = false

abbrev pub all_fit : List Column → List Datum → Bool
all_fit [] [] = true
all_fit (c ∷ cs) (d ∷ ds) = fits_type c.type c.nullable d && all_fit cs ds
all_fit _ _ = false

abbrev pub user_data : UserModel → List Datum
user_data m =
    uuid_value
    ∷ text_value m.email
    ∷ text_value m.display_name
    ∷ text_value m.status
    ∷ time_value
    ∷ number m.version
    ∷ []

abbrev optional : Option Text → Datum
optional none = null
optional (some s) = text_value s

abbrev optional_time : Option Time → Datum
optional_time none = null
optional_time (some t) = time_value

-- The value of a member of the `OutboxStatus` enumeration.
abbrev pub outbox_status_value : OutboxStatus → Text
outbox_status_value pending = codes "pending"
outbox_status_value processing = codes "processing"
outbox_status_value published = codes "published"
outbox_status_value failed = codes "failed"

abbrev pub outbox_data : OutboxModel → List Datum
outbox_data r =
    uuid_value
    ∷ text_value r.aggregate_type
    ∷ uuid_value
    ∷ text_value r.event_type
    ∷ json_value
    ∷ text_value (outbox_status_value r.status)
    ∷ number r.attempt_count
    ∷ number r.max_attempts
    ∷ optional r.last_error
    ∷ time_value
    ∷ optional_time r.processed_at
    ∷ time_value
    ∷ []

status-short : (s : UserStatus) → leb (length (status_value s)) 20 ≡ true
unfolding status_value codes
status-short active = refl
status-short deactivated = refl

-- The row of a user whose values came from their constructors fits into the table, as long as the
-- version is below the bound of an INTEGER: the bounds of the value objects are those of the columns.
pub to_model-fits :
    (rt : Runtime) (u : User)
    → IsWellFormed rt u
    → u.version < integer_end
    → all_fit users_columns (user_data (to_model u)) ≡ true
unfolding to_model
to_model-fits rt u h small =
    let email_short = ((new_email_iff rt u.email.value u.email).0 h.email_ok).1.short in
    let name_short =
      ((new_display_name_iff u.display_name.value u.display_name).0 h.name_ok).1.short in
    rw
      (
        le→leb (length u.email.value) 254 email_short,
        le→leb (length u.display_name.value) 120 name_short,
        status-short u.status,
        lt→ltb u.version integer_end small,
      )
      refl

class-short : (b : EventBody) → leb (length (body_type b)) 200 ≡ true
unfolding body_type codes
class-short (user_registered email name) = refl
class-short (user_renamed old new) = refl
class-short (user_deactivated reason) = refl

-- The outbox row of every event fits into its table, if the bound of attempts is one of an INTEGER.
pub row_of-fits :
    (e : DomainEvent) (max_attempts : ℕ) (now : Time)
    → max_attempts < integer_end
    → all_fit outbox_columns (outbox_data (row_of e max_attempts now)) ≡ true
unfolding codes
row_of-fits e max_attempts now small =
    rw (class-short e.body, lt→ltb max_attempts integer_end small) refl
