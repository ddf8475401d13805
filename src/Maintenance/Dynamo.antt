-- ===== src/Maintenance/Dynamo.antt =====
-- The items of the maintenance table in DynamoDB, as maintenance/infrastructure and
-- maintenance/interfaces write them, and the database itself, which is a parameter: `Dynamo` states
-- the documented behaviour of `GetItem`, `PutItem` and `TransactWriteItems`.
pub mod Memory
use flatrent.Base.{
  ℕ, ◌≡◌, String, Bool, true, false, not, ◌&&◌, Option, none, some, List, [], ◌∷◌, Uuid, Date, All,
  some_of, ◌==◌, if◌then◌else◌,
}
use flatrent.Maintenance.Request.{MaintenanceStatus}

-- The keys `REQUEST#id`, `OUTBOX#id`, `INBOX#id` and `ACCESS#user` with `UNIT#unit`.
pub data Key : Type 0 where
  request outbox inbox : Uuid → Key
  access : Uuid → Uuid → Key

abbrev pub key_eq : Key → Key → Bool
key_eq (request a) (request b) = a == b
key_eq (outbox a) (outbox b) = a == b
key_eq (inbox a) (inbox b) = a == b
key_eq (access a u) (access b v) = a == b && u == v
key_eq _ _ = false

pub record RequestItem : Type 0 where
  pub id : Uuid
  pub rental_unit_id : Uuid
  pub reporter_id : Uuid
  pub description : String
  pub status : MaintenanceStatus
  pub is_emergency : Bool
  pub is_closed : Bool
  pub version : ℕ
  pub assigned_handyman_id : Option String
  pub visit_date : Option Date
  pub resolution_description : Option String

-- `payloadJson` of an outbox item, as the value that the text encodes.
pub record MaintenanceMessage : Type 0 where
  pub request_id : Uuid
  pub rental_unit_id : Uuid
  pub is_blocking : Bool
  pub version : ℕ

pub data OutboxStatus : Type 0 where
  pending processing published retry dead : OutboxStatus

pub record OutboxItem : Type 0 where
  pub message_id : Uuid
  pub event_type : String
  pub event_version : ℕ
  pub producer : String
  pub source_domain_event_id : Uuid
  pub aggregate_type : String
  pub aggregate_id : Uuid
  pub aggregate_version : ℕ
  pub occurred_at : Date
  pub status : OutboxStatus
  pub attempt_count : ℕ
  pub payload_json : MaintenanceMessage
  pub last_error : Option String

pub record InboxItem : Type 0 where
  pub message_id : Uuid
  pub payload_hash : String
  pub processed_at : Date

pub record AccessItem : Type 0 where
  pub tenant_id : Uuid
  pub rental_unit_id : Uuid
  pub tenancy_id : Uuid
  pub is_active : Bool

pub data Item : Type 0 where
  request : RequestItem → Item
  outbox : OutboxItem → Item
  inbox : InboxItem → Item
  access : AccessItem → Item

abbrev pub key_of : Item → Key
key_of (Item.request i) = Key.request i.id
key_of (Item.outbox i) = Key.outbox i.message_id
key_of (Item.inbox i) = Key.inbox i.message_id
key_of (Item.access i) = Key.access i.tenant_id i.rental_unit_id

-- The condition expressions of the code.
pub data Condition : Type 0 where
  always not_exists : Condition
  version_is : ℕ → Condition

abbrev pub holds : Condition → Option Item → Bool
holds always _ = true
holds not_exists none = true
holds not_exists (some _) = false
holds (version_is v) (some (Item.request i)) = i.version == v
holds (version_is v) _ = false

pub record Put : Type 0 where
  pub item : Item
  pub condition : Condition

-- What stands under a key after the puts of one transaction.
abbrev pub after : List Put → Key → Option Item → Option Item
after [] k old = old
after (p ∷ ps) k old = if key_eq (key_of p.item) k then some p.item else after ps k old

pub data Outcome (S : Type 0) : Type 0 where
  written : S → Outcome S
  -- `TransactionCanceledException` with `ConditionalCheckFailed`
  condition_failed : Outcome S
  -- any other error
  rejected : Outcome S

pub record Dynamo (S : Type 0) : Type 0 where
  pub item : S → Key → Option Item
  -- Whether a read of the key goes through, and sees what was written last. The code asks for no
  -- consistent read, so it cannot count on either.
  pub reads : S → Key → Bool
  pub transact_write : S → List Put → Outcome S
  pub transact_write-written :
      (s s' : S) (ps : List Put)
      → transact_write s ps ≡ written s'
      → All (λ p. holds p.condition (item s (key_of p.item)) ≡ true) ps
        × ((k : Key) → item s' k ≡ after ps k (item s k))
  pub transact_write-condition_failed :
      (s : S) (ps : List Put)
      → transact_write s ps ≡ condition_failed
      → some_of (λ p. not (holds p.condition (item s (key_of p.item)))) ps ≡ true
