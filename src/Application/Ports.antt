-- ===== src/Application/Ports.antt =====
-- The messages of backend/src/app/application/common/interfaces/publisher.py.
use ndma_edit.Prelude.{Text, List, Option}

pub record OutboundMessage : Type 0 where
  pub topic : Text
  pub key : Text
  pub event_type : Text
  pub payload : List (Text × Option Text)
  pub headers : List (Text × Text)
