-- ===== src/Auth/Database/Entities.antt =====
-- The rows of the auth database, auth/infrastructure/persistence/*.entity.ts, with the conventions of
-- the tenancy database's.
use flatrent.Shared.Journal
pub use flatrent.Shared.Journal.{
  LocalEventDispatchEntity, DeliveryStatus, pending, processing, dispatched, published, succeeded,
  retry, dead,
}
use text.Mathlib.Text.{◌==◌ as str_eq}
use flatrent.Base.{ℕ, String, Bool, ◌&&◌, List, Option, Uuid, Date, ◌==◌}
use flatrent.Auth.Errors.{UserStatus, UserRole}
use flatrent.Auth.Account.{AuthPayload}

pub record UserAccountEntity : Type 0 where
  pub id : Uuid
  pub email : List ℕ
  pub password_hash : String
  pub role : UserRole
  pub status : UserStatus
  pub version : ℕ

pub record RefreshSessionEntity : Type 0 where
  pub id : Uuid
  pub user_id : Uuid
  pub token_hash : String
  pub expires_at : Date
  pub is_revoked : Bool
  pub version : ℕ

abbrev pub AuthJournalEntity : Type 0
AuthJournalEntity = Journal.DomainEventJournalEntity AuthPayload

-- The payload of `UserRegistered.v1`.
pub record UserRegisteredMessage : Type 0 where
  pub user_id : Uuid
  pub email : List ℕ
  pub role : UserRole

pub record AuthOutboxEntity : Type 0 where
  pub message_id : Uuid
  pub event_type : String
  pub event_version : ℕ
  pub producer : String
  pub source_domain_event_id : Uuid
  pub aggregate_type : String
  pub aggregate_id : Uuid
  pub aggregate_version : ℕ
  pub occurred_at : Date
  pub payload_json : UserRegisteredMessage
  pub status : DeliveryStatus
  pub attempt_count : ℕ
  pub last_error : Option String

-- domain-reaction-delivery.entity.ts, whose primary key has three columns.
pub record DeliveryKey : Type 0 where
  pub event_id : Uuid
  pub reaction_id : String
  pub reaction_version : ℕ

pub record DomainReactionDeliveryEntity : Type 0 where
  pub key : DeliveryKey
  pub open key use *
  pub status : DeliveryStatus
  pub attempt_count : ℕ
  pub available_at : Date
  pub processed_at : Option Date
  pub last_error : Option String

abbrev pub delivery_key_eq : DeliveryKey → DeliveryKey → Bool
delivery_key_eq a b =
    a.event_id == b.event_id
    && str_eq a.reaction_id b.reaction_id
    && a.reaction_version == b.reaction_version
