-- ===== src/Tenancy/Relay.antt =====
-- The relay of integration events, tenancy/infrastructure/messaging/outbox-relay.service.ts. The
-- topic is a parameter: `publish` gives the text of the error with which it refuses an item, if any.
pub mod Settling
pub mod Attempts
pub mod Tries
pub mod Completion
use flatrent.Base.{
  ℕ, ◌+◌, ◌≡◌, ◌≤◌, String, Bool, true, false, ◌&&◌, ◌||◌, Option, none, some, List, [], ◌∷◌, ◌++◌,
  All, Uuid, Date, Result, ok, err, Action, pure, transaction, length, ltb, leb, ◌==◌,
  if◌then◌else◌, ◌>>=◌, ◌>>◌,
}
use flatrent.Tenancy.Errors.{Error, database_failure, message}
use flatrent.Tenancy.Database.{
  Schema, Db, IntegrationOutboxEntity, TenancyActivatedMessage, DeliveryStatus, pending, processing,
  published, retry, dead, save_outbox_row,
}

-- The message that the topic receives.
pub record OutboxMessage : Type 0 where
  pub message_id : Uuid
  pub event_type : String
  pub event_version : ℕ
  pub producer : String
  pub source_domain_event_id : Uuid
  pub aggregate_type : String
  pub aggregate_id : Uuid
  pub aggregate_version : ℕ
  pub occurred_at : Date
  pub payload : TenancyActivatedMessage

abbrev pub outbox_message : IntegrationOutboxEntity → OutboxMessage
outbox_message item = record {
  message_id = item.message_id;
  event_type = item.event_type;
  event_version = item.event_version;
  producer = item.producer;
  source_domain_event_id = item.source_domain_event_id;
  aggregate_type = item.aggregate_type;
  aggregate_id = item.aggregate_id;
  aggregate_version = item.aggregate_version;
  occurred_at = item.occurred_at;
  payload = item.payload_json;
}

abbrev pub max_attempts : ℕ
max_attempts = 5

abbrev pub is_open : DeliveryStatus → Bool
is_open pending = true
is_open retry = true
is_open _ = false

-- The condition of the query that claims a batch.
abbrev pub is_due : IntegrationOutboxEntity → Bool
is_due item = is_open item.status && ltb item.attempt_count max_attempts

abbrev pub claimed : IntegrationOutboxEntity → IntegrationOutboxEntity
claimed item = record item { status = processing; attempt_count = item.attempt_count + 1 }

abbrev pub marked :
    DeliveryStatus → Option String → Option IntegrationOutboxEntity → Option IntegrationOutboxEntity
marked status last_error none = none
marked status last_error (some r) = some (record r { status = status; last_error = last_error })

-- The two further operations on the table of outbox rows: `getMany()` of a query with a condition
-- and a limit, and `update` of the two columns of the row with a key.
pub record OutboxTable (M : Schema) : Type 0 where
  pub get_many : M.Outbox → (IntegrationOutboxEntity → Bool) → ℕ → List IntegrationOutboxEntity
  pub update : M.Outbox → Uuid → DeliveryStatus → Option String → Option M.Outbox
  pub get_many-stored :
      (s : M.Outbox) (p : IntegrationOutboxEntity → Bool) (n : ℕ)
      → All (λ r. (p r ≡ true) × (M.outbox.find_one s r.message_id ≡ some r)) (get_many s p n)
  pub get_many-length :
      (s : M.Outbox) (p : IntegrationOutboxEntity → Bool) (n : ℕ) → length (get_many s p n) ≤ n
  pub find_one-update :
      (s s' : M.Outbox) (j k : Uuid) (status : DeliveryStatus) (last_error : Option String)
      → update s j status last_error ≡ some s'
      → M.outbox.find_one s' k ≡ (
          if j == k
          then marked status last_error (M.outbox.find_one s k)
          else M.outbox.find_one s k)

-- The database, what the topic has received, and the metric.
pub record Relay (M : Schema) : Type 0 where
  pub db : Db M
  pub topic : List OutboxMessage
  pub outbox_retries : ℕ

module _ (M : Schema) (Q : OutboxTable M) (driver : String)
    (publish : IntegrationOutboxEntity → Option String) where
  unfoldable pub claim_rows :
      List IntegrationOutboxEntity → Action (Db M) Error (List IntegrationOutboxEntity)
  claim_rows [] = pure []
  claim_rows (item ∷ items) = do
    save_outbox_row M (claimed item)
    rest ← claim_rows items
    pure (claimed item ∷ rest)

  -- The short transaction.
  abbrev pub claim_batch : Action (Db M) Error (List IntegrationOutboxEntity)
  claim_batch = transaction (λ db. claim_rows (Q.get_many db.outbox is_due 10) db)

  abbrev pub set_status : Uuid → DeliveryStatus → Option String → Action (Relay M) Error (Unit {0})
  set_status id status last_error w = elim (Q.update w.db.outbox id status last_error) [
    | none ↦ (err database_failure, w)
    | some rows ↦ (ok tt, record w { db = record w.db { outbox = rows } })
  ]

  -- The `catch` of an item.
  abbrev pub fail_item : IntegrationOutboxEntity → String → Action (Relay M) Error (Unit {0})
  fail_item item text w =
      if leb max_attempts item.attempt_count
      then set_status item.message_id dead (some text) w
      else set_status item.message_id retry (some text)
          (record w { outbox_retries = w.outbox_retries + 1 })

  abbrev pub publish_item : IntegrationOutboxEntity → Action (Relay M) Error (Unit {0})
  publish_item item w = elim (publish item) [
    | some text ↦ fail_item item text w
    | none ↦
        let (r, w') =
          set_status item.message_id published none
            (record w { topic = w.topic ++ outbox_message item ∷ [] }) in
        elim r [ ok _ ↦ (ok tt, w') | err e ↦ fail_item item (message driver e) w' ]
  ]

  unfoldable pub publish_items : List IntegrationOutboxEntity → Action (Relay M) Error (Unit {0})
  publish_items [] = pure tt
  publish_items (item ∷ items) = publish_item item >> publish_items items

  -- `relayPendingMessages`
  unfoldable pub relay_pending_messages : Action (Relay M) Error ℕ
  relay_pending_messages w =
      let (r, db') = claim_batch w.db in
      elim r [
        | err e ↦ (err e, record w { db = db' })
        | ok batch ↦ (publish_items batch >> pure (length batch)) (record w { db = db' })
      ]
