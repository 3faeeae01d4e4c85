-- ===== src/Infrastructure/Persistence/Models.antt =====
-- The rows of backend/src/app/infrastructure/persistence/models/user_model.py and
-- backend/src/app/infrastructure/persistence/outbox/model.py.
use ndma_edit.Prelude.{ℕ, Text, List, Option}
use ndma_edit.Runtime.{Uuid}
use ndma_edit.Domain.Aggregate.{Time}

pub record UserModel : Type 0 where
  pub id : Uuid
  pub email : Text
  pub display_name : Text
  pub status : Text
  pub registered_at : Time
  pub version : ℕ

pub data OutboxStatus : Type 0 where
  pending processing published failed : OutboxStatus

-- A value of the `payload` column: JSON text or null.
abbrev pub Payload : Type 0
Payload = List (Text × Option Text)

pub record OutboxModel : Type 0 where
  pub id : Uuid
  pub aggregate_type : Text
  pub aggregate_id : Uuid
  pub event_type : Text
  pub payload : Payload
  pub status : OutboxStatus
  pub attempt_count : ℕ
  pub max_attempts : ℕ
  pub last_error : Option Text
  pub created_at : Time
  pub processed_at : Option Time
  pub available_at : Time

-- The two tables of the schema, each in the order of insertion.
pub record Tables : Type 0 where
  pub users : List UserModel
  pub outbox : List OutboxModel
