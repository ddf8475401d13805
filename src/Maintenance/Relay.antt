-- ===== src/Maintenance/Relay.antt =====
-- The relay of the outbox items, maintenance/infrastructure/messaging/dynamodb-outbox-relay.service.ts.
-- The topic is a parameter: `publish` gives, from what the topic has received so far, the text of the
-- error with which it refuses a message, if any. `driver` is the text of the error of a failed write.
pub mod Keeping
pub mod Returning
pub mod Settling
pub mod Stale
pub mod Tries
use flatrent.Base.{
  ℕ, ◌+◌, ◌≡◌, String, Bool, true, false, Option, none, some, List, [], ◌∷◌, ◌++◌, All, Uuid, Date,
  Result, ok, err, Action, pure, raise, length, leb, if◌then◌else◌, ◌>>=◌, ◌>>◌,
}
use flatrent.Maintenance.Request.{Error, client_failure}
use flatrent.Maintenance.Dynamo.{
  Dynamo, Key, key_eq, key_of, MaintenanceMessage, OutboxStatus, pending, processing, published,
  retry, dead, OutboxItem, Item,
}

-- The message that the topic receives; its producer and event type are its attributes too.
pub record OutboxMessage : Type 0 where
  pub message_id : Uuid
  pub event_type : String
  pub event_version : ℕ
  pub producer : String
  pub source_domain_event_id : Uuid
  pub aggregate_type : String
  pub aggregate_id : Uuid
  pub aggregate_version : ℕ
  pub occurred_at : Date
  pub payload : MaintenanceMessage

abbrev pub outbox_message : OutboxItem → OutboxMessage
outbox_message item = record {
  message_id = item.message_id;
  event_type = item.event_type;
  event_version = item.event_version;
  producer = item.producer;
  source_domain_event_id = item.source_domain_event_id;
  aggregate_type = item.aggregate_type;
  aggregate_id = item.aggregate_id;
  aggregate_version = item.aggregate_version;
  occurred_at = item.occurred_at;
  payload = item.payload_json;
}

abbrev pub max_attempts : ℕ
max_attempts = 5

abbrev pub is_open_status : OutboxStatus → Bool
is_open_status pending = true
is_open_status retry = true
is_open_status _ = false

-- The filter expression of the scan: the prefix of the key and the status.
abbrev pub is_open : Item → Bool
is_open (Item.outbox item) = is_open_status item.status
is_open _ = false

abbrev pub claimed : OutboxItem → OutboxItem
claimed item = record item { status = processing; attempt_count = item.attempt_count + 1 }

abbrev pub marked_published : OutboxItem → OutboxItem
marked_published item = record (claimed item) { status = published; last_error = none }

-- What the `catch` of an item writes; `item` is the item as it was scanned.
abbrev pub marked_failed : OutboxItem → String → OutboxItem
marked_failed item text = record (claimed item) {
  status = if leb max_attempts (item.attempt_count + 1) then dead else retry;
  last_error = some text;
}

-- The two further operations on the table: `Scan` with a filter, where `none` is a failed call, and
-- `PutItem` with no condition.
pub record OutboxTable {S : Type 0} (D : Dynamo S) : Type 0 where
  pub scan : S → (Item → Bool) → Option (List Item)
  pub put : S → Item → Option S
  pub scan-stored :
      (s : S) (p : Item → Bool) (items : List Item)
      → scan s p ≡ some items
      → All (λ i. (p i ≡ true) × (D.item s (key_of i) ≡ some i)) items
  pub item-put :
      (s s' : S) (i : Item) (k : Key)
      → put s i ≡ some s'
      → D.item s' k ≡ (if key_eq (key_of i) k then some i else D.item s k)

-- The table and what the topic has received.
pub record Relay (S : Type 0) : Type 0 where
  pub table : S
  pub topic : List OutboxMessage

module _ {S : Type 0} (D : Dynamo S) (Q : OutboxTable D) (driver : String)
    (publish : List OutboxMessage → OutboxMessage → Option String) where
  abbrev pub put_item : OutboxItem → Action (Relay S) Error (Unit {0})
  put_item item w = elim (Q.put w.table (Item.outbox item)) [
    | none ↦ (err client_failure, w)
    | some table ↦ (ok tt, record w { table = table })
  ]

  -- From the publication to the end of the `try`.
  abbrev pub publish_item : OutboxItem → Action (Relay S) Error (Unit {0})
  publish_item item w = elim (publish w.topic (outbox_message item)) [
    | some text ↦ put_item (marked_failed item text) w
    | none ↦
        let (r, w') =
          put_item (marked_published item)
            (record w { topic = w.topic ++ outbox_message item ∷ [] }) in
        elim r [ ok _ ↦ (ok tt, w') | err e ↦ put_item (marked_failed item driver) w' ]
  ]

  -- One round of the loop, on an item of the outbox.
  unfoldable pub relay_outbox_item : OutboxItem → Action (Relay S) Error (Unit {0})
  relay_outbox_item item w =
      let (r, w') = put_item (claimed item) w in
      elim r [ ok _ ↦ publish_item item w' | err e ↦ put_item (marked_failed item driver) w' ]

  -- An item that is no outbox item has no `messageId.S`, so reading it throws.
  abbrev pub relay_item : Item → Action (Relay S) Error (Unit {0})
  relay_item (Item.outbox item) = relay_outbox_item item
  relay_item _ = raise client_failure

  unfoldable pub relay_items : List Item → Action (Relay S) Error (Unit {0})
  relay_items [] = pure tt
  relay_items (item ∷ items) = relay_item item >> relay_items items

  -- `relayPendingMessages`: the outer `catch` answers 0.
  unfoldable pub relay_pending_messages : Relay S → ℕ × Relay S
  relay_pending_messages w = elim (Q.scan w.table is_open) [
    | none ↦ (0, w)
    | some items ↦
        let (r, w') = relay_items items w in elim r [ ok _ ↦ (length items, w') | err e ↦ (0, w') ]
  ]
