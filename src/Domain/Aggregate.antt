-- ===== src/Domain/Aggregate.antt =====
-- backend/src/app/domain/shared/aggregate_root.py, entity.py and domain_event.py, with the events of
-- backend/src/app/domain/users/events/user_events.py. A timestamp is a number of microseconds; the
-- values that `new_id` and `datetime.now` return are arguments.
use ndma_edit.Prelude.{ℕ, Text, List, [], ◌∷◌, ◌++◌, Option, Bool, ◌==◌, codes}
use ndma_edit.Runtime.{Uuid}

-- A point in time, UTC.
abbrev pub Time : Type 0
Time = ℕ

-- The fields that `UserRegistered`, `UserRenamed` and `UserDeactivated` add to `DomainEvent`.
pub data EventBody : Type 0 where
  -- email, display name
  user_registered : Text → Text → EventBody
  -- old and new display name
  user_renamed : Text → Text → EventBody
  -- reason
  user_deactivated : Option Text → EventBody

pub record DomainEvent : Type 0 where
  pub aggregate_id : Uuid
  pub event_id : Uuid
  pub occurred_at : Time
  pub event_version : ℕ
  pub body : EventBody

-- What `new_id` and `datetime.now` return for one new event.
pub record EventStamp : Type 0 where
  pub event_id : Uuid
  pub occurred_at : Time

-- The constructor of an event, with the defaults of `DomainEvent`.
unfoldable pub new_event : Uuid → EventStamp → EventBody → DomainEvent
new_event aggregate_id stamp body = record {
  aggregate_id = aggregate_id;
  event_id = stamp.event_id;
  occurred_at = stamp.occurred_at;
  event_version = 1;
  body = body;
}

-- The name of an event's class.
unfoldable pub body_type : EventBody → Text
body_type (user_registered _ _) = codes "UserRegistered"
body_type (user_renamed _ _) = codes "UserRenamed"
body_type (user_deactivated _) = codes "UserDeactivated"

-- `DomainEvent.event_type`
unfoldable pub event_type : DomainEvent → Text
unfolding body_type
event_type e = body_type e.body

-- `Entity` and `AggregateRoot`: identity, the version counter and the buffer of events.
pub record AggregateRoot : Type 0 where
  pub id : Uuid
  pub version : ℕ
  pub domain_events : List DomainEvent

-- `AggregateRoot.__init__`
unfoldable pub new_root : Uuid → ℕ → AggregateRoot
new_root entity_id version = record { id = entity_id; version = version; domain_events = [] }

-- `Entity.__eq__`, for two entities of one class.
unfoldable pub same_entity : AggregateRoot → AggregateRoot → Bool
same_entity a b = a.id == b.id

unfoldable pub mark_persisted : ℕ → AggregateRoot → AggregateRoot
mark_persisted version r = record r { version = version }

unfoldable pub register_event : DomainEvent → AggregateRoot → AggregateRoot
register_event e r = record r { domain_events = r.domain_events ++ e ∷ [] }

-- The pending events, and the aggregate without them.
unfoldable pub collect_events : AggregateRoot → List DomainEvent × AggregateRoot
collect_events r = (r.domain_events, record r { domain_events = [] })

unfoldable pub clear_events : AggregateRoot → AggregateRoot
clear_events r = record r { domain_events = [] }
