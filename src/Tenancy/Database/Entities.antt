-- ===== src/Tenancy/Database/Entities.antt =====
-- The rows of the tenancy database, tenancy/infrastructure/persistence/*.entity.ts. A status column
-- holds a member of its enumeration, and `payload_json` holds the payload that the text encodes.
-- Columns that the database fills in by itself (commit position, commit and receipt times) are left
-- out.
use flatrent.Shared.Journal
pub use flatrent.Shared.Journal.{
  LocalEventDispatchEntity, DeliveryStatus, pending, processing, dispatched, published, succeeded,
  retry, dead,
}
use flatrent.Base.{ℕ, String, Bool, Option, Uuid, Date}
use flatrent.Base.Int.{ℤ}
use flatrent.Tenancy.Errors.{TenancyStatus, InvitationStatus}
use flatrent.Tenancy.Handover.{Dict}
use flatrent.Tenancy.Lease.{TenancyActivatedPayload}

pub record RentalUnitEntity : Type 0 where
  pub id : Uuid
  pub owner_id : Uuid
  pub address : String
  pub version : ℕ

pub record TenancyInvitationEntity : Type 0 where
  pub id : Uuid
  pub rental_unit_id : Uuid
  pub tenant_email : String
  pub expires_at : Date
  pub status : InvitationStatus
  pub version : ℕ

pub record HandoverProtocolEntity : Type 0 where
  pub id : Uuid
  pub tenancy_id : Uuid
  pub meter_readings : Dict ℤ
  pub checklist : Dict Bool
  pub is_closed : Bool
  pub version : ℕ

pub record TenancyEntity : Type 0 where
  pub id : Uuid
  pub rental_unit_id : Uuid
  pub tenant_id : Uuid
  pub start_date : Date
  pub end_date : Date
  pub status : TenancyStatus
  pub notice_date : Option Date
  pub version : ℕ

abbrev pub DomainEventJournalEntity : Type 0
DomainEventJournalEntity = Journal.DomainEventJournalEntity TenancyActivatedPayload

-- The payload of `TenancyActivated.v1`.
pub record TenancyActivatedMessage : Type 0 where
  pub tenancy_id : Uuid
  pub rental_unit_id : Uuid
  pub tenant_id : Uuid
  pub start_date : Date
  pub end_date : Date

pub record IntegrationOutboxEntity : Type 0 where
  pub message_id : Uuid
  pub event_type : String
  pub event_version : ℕ
  pub producer : String
  pub source_domain_event_id : Uuid
  pub aggregate_type : String
  pub aggregate_id : Uuid
  pub aggregate_version : ℕ
  pub occurred_at : Date
  pub payload_json : TenancyActivatedMessage
  pub status : DeliveryStatus
  pub attempt_count : ℕ
  pub last_error : Option String

-- rental-unit-readiness-projection.entity.ts; the last version is -1 before the first message.
pub data ProjectionStatus : Type 0 where
  active gap_detected : ProjectionStatus

pub record RentalUnitReadinessProjectionEntity : Type 0 where
  pub rental_unit_id : Uuid
  pub is_ready : Bool
  pub last_processed_version : ℤ
  pub status : ProjectionStatus

-- inbox.entity.ts. The primary key also has the consumer's name, which is one and the same text in
-- every row that this code writes and reads.
pub record InboxEntity : Type 0 where
  pub consumer_name : String
  pub message_id : Uuid
  pub event_type : String
  pub event_version : ℕ
  pub payload_hash : String
  pub source_aggregate_id : Uuid
  pub source_aggregate_version : ℤ
  pub status : String
  pub processed_at : Date
