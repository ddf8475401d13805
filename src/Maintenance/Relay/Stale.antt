-- ===== src/Maintenance/Relay/Stale.antt =====
-- Two runs of the relay at once.
use mathlib.Core.List.{append-nil, append_assoc}
use flatrent.Base.{◌≡◌, String, Option, none, some, List, [], ◌∷◌, ◌++◌, map, ok, arith}
use flatrent.Maintenance.Dynamo.{Dynamo, OutboxItem, Item}
use flatrent.Maintenance.Relay.{
  OutboxMessage, OutboxTable, Relay, outbox_message, relay_outbox_item, relay_items,
  marked_published, claimed, relay_pending_messages, is_open,
}

module _ {S : Type 0} (D : Dynamo S) (Q : OutboxTable D) (driver : String)
    (publish : List OutboxMessage → OutboxMessage → Option String)
    (writes : (s : S) (i : Item) → (s' : S) × (Q.put s i ≡ some s'))
    (receives : (topic : List OutboxMessage) (m : OutboxMessage) → publish topic m ≡ none) where
  relay_outbox_item-topic :
      (item : OutboxItem) (w : Relay S)
      → (s : S) × (relay_outbox_item D Q driver publish item w
          ≡ (ok tt, record { table = s; topic = w.topic ++ outbox_message item ∷ [] }))
  unfolding relay_outbox_item
  relay_outbox_item-topic item w =
      let (s1, first) = writes w.table (Item.outbox (claimed item)) in
      let (s2, second) = writes s1 (Item.outbox (marked_published item)) in
      (s2, ground (arith, first, second, receives w.topic (outbox_message item)))

  relay_items-topic :
      (items : List OutboxItem) (w : Relay S)
      → (s : S) × (relay_items D Q driver publish (map Item.outbox items) w
          ≡ (ok tt, record { table = s; topic = w.topic ++ map outbox_message items }))
  unfolding relay_items
  relay_items-topic [] w = (w.table, ground (arith, append-nil w.topic))
  relay_items-topic (item ∷ items) w =
      let (s1, first) = relay_outbox_item-topic item w in
      let (s2, later) =
        relay_items-topic items
          (record { table = s1; topic = w.topic ++ outbox_message item ∷ [] }) in
      (
        s2,
        ground (
          arith,
          first,
          later,
          append_assoc w.topic (outbox_message item ∷ []) (map outbox_message items),
        ),
      )

  -- If every write and every publication goes through, a run of the relay that has scanned the table
  -- before another run took place publishes all that it scanned once more: the claim of an item as
  -- processing is a write without a condition and keeps nobody out.
  pub relay_items-republishes :
      (items : List OutboxItem) (w : Relay S)
      → Q.scan w.table is_open ≡ some (map Item.outbox items)
      → (relay_items D Q driver publish
          (map Item.outbox items)
          (relay_pending_messages D Q driver publish w).1).1.topic
        ≡ (w.topic ++ map outbox_message items) ++ map outbox_message items
  unfolding relay_pending_messages
  relay_items-republishes items w scanned =
      let (s1, first) = relay_items-topic items w in
      let (s2, second) =
        relay_items-topic items
          (record { table = s1; topic = w.topic ++ map outbox_message items }) in
      ground (arith, scanned, first, second)
