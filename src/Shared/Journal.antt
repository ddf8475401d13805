-- ===== src/Shared/Journal.antt =====
-- The rows that tenancy/infrastructure/persistence and auth/infrastructure/persistence both have: the
-- journal of domain events and the tracker of their local dispatch. `P` is the module's type of
-- payloads; the columns that the database fills in by itself are left out.
use flatrent.Base.{ℕ, String, Option, Uuid, Date}

pub record DomainEventJournalEntity (P : Type 0) : Type 0 where
  pub event_id : Uuid
  pub event_type : String
  pub event_version : ℕ
  pub module_name : String
  pub aggregate_type : String
  pub aggregate_id : Uuid
  pub aggregate_version : ℕ
  pub event_index : ℕ
  pub occurred_at : Date
  pub actor_id : Option Uuid
  pub command_id : Uuid
  pub correlation_id : Uuid
  pub causation_id : Option Uuid
  pub payload_json : P

-- The statuses of dispatches, outbox rows and reaction deliveries.
pub data DeliveryStatus : Type 0 where
  pending processing dispatched published succeeded retry dead : DeliveryStatus

pub record LocalEventDispatchEntity : Type 0 where
  pub event_id : Uuid
  pub status : DeliveryStatus
  pub attempt_count : ℕ
  pub available_at : Date
  pub dispatched_at : Option Date
  pub last_error : Option String
