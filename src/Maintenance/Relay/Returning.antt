-- ===== src/Maintenance/Relay/Returning.antt =====
-- What stands under a key after a part of the relay that returns: a mark of the end, or what stood
-- there before.
use mathlib.Core.Path.{subst}
use flatrent.Base.{
  ℕ, ◌≡◌, ◌<◌, String, true, false, Option, some, List, [], ◌∷◌, ok, arith, Option-cases,
  Result-cases, Bool-cases, inl, inr,
}
use flatrent.Maintenance.Dynamo.{Dynamo, Key, key_eq, OutboxItem, Item}
use flatrent.Maintenance.Relay.{
  OutboxMessage, is_open, OutboxTable, Relay, claimed, marked_published, marked_failed,
  outbox_message, put_item, publish_item, relay_outbox_item, relay_items, relay_pending_messages,
}
use flatrent.Maintenance.Relay.Keeping.{put_item-cases, accepted, Ends}

module _ {S : Type 0} (D : Dynamo S) (Q : OutboxTable D) (driver : String)
    (publish : List OutboxMessage → OutboxMessage → Option String) where
  module _ (P : Option Item → Type 0) (k : Key) where
    -- A put that returns has written.
    put_item-ok :
        (item : OutboxItem) (w : Relay S) {u : Unit {0}}
        → (put_item D Q driver publish item w).0 ≡ ok u
        → (key_eq (Key.outbox item.message_id) k ≡ true → P (some (Item.outbox item)))
        → (key_eq (Key.outbox item.message_id) k ≡ false → P (D.item w.table k))
        → P (D.item (put_item D Q driver publish item w).1.table k)
    put_item-ok item w done mark old = elim (put_item-cases D Q driver publish item w) [
      | inl rejected ↦ absurd (ground (arith, rejected))
      | inr (s, written, rows) ↦ elim (Bool-cases (key_eq (Key.outbox item.message_id) k)) [
        | inl here ↦ subst P (ground (arith, written, rows k)) (mark here)
        | inr there ↦ subst P (ground (arith, written, rows k)) (old there)
      ]
    ]

    publish_item-ok :
        (item : OutboxItem) (w : Relay S) {u : Unit {0}}
        → (publish_item D Q driver publish item w).0 ≡ ok u
        → Ends D Q driver publish P k item
        → (key_eq (Key.outbox item.message_id) k ≡ false → P (D.item w.table k))
        → P (D.item (publish_item D Q driver publish item w).1.table k)
    publish_item-ok item w done ends old =
        elim (Option-cases (publish w.topic (outbox_message item))) [
          | inr (text, refused) ↦ subst P (ground (arith, refused)) (
              put_item-ok (marked_failed item text) w (ground (arith, refused))
                (λ h. (ends h).1 text) old)
          | inl fine ↦
              let w1 = accepted D Q driver publish item w in
              elim (put_item-cases D Q driver publish (marked_published item) w1) [
                | inl rejected ↦ subst P (ground (arith, rejected)) (
                    put_item-ok (marked_failed item driver) w1 (ground (arith, rejected))
                      (λ h. (ends h).1 driver) old)
                | inr (s, written, rows) ↦ subst P (ground (arith, written)) (
                    put_item-ok (marked_published item) w1 (ground (arith, written))
                      (λ h. (ends h).0) old)
              ]
        ]

    relay_outbox_item-ok :
        (item : OutboxItem) (w : Relay S) {u : Unit {0}}
        → (relay_outbox_item D Q driver publish item w).0 ≡ ok u
        → Ends D Q driver publish P k item
        → P (D.item w.table k)
        → P (D.item (relay_outbox_item D Q driver publish item w).1.table k)
    unfolding relay_outbox_item
    relay_outbox_item-ok item w done ends old =
        elim (put_item-cases D Q driver publish (claimed item) w) [
          | inl rejected ↦ subst P (ground (arith, rejected)) (
              put_item-ok (marked_failed item driver) w (ground (arith, rejected))
                (λ h. (ends h).1 driver) (λ _. old))
          | inr (s, written, rows) ↦ subst P (ground (arith, written)) (
              publish_item-ok item (record w { table = s }) (ground (arith, written)) ends
                (λ h. subst P (ground (arith, rows k)) old))
        ]

    relay_items-ok :
        (items : List Item) (w : Relay S) {u : Unit {0}}
        → (relay_items D Q driver publish items w).0 ≡ ok u
        → ((item : OutboxItem) → Ends D Q driver publish P k item)
        → P (D.item w.table k)
        → P (D.item (relay_items D Q driver publish items w).1.table k)
    unfolding relay_items
    relay_items-ok [] w done ends old = old
    relay_items-ok (Item.outbox item ∷ items) w done ends old =
        elim (Result-cases (relay_outbox_item D Q driver publish item w).0) [
          | inr (e, thrown) ↦ absurd (ground (arith, thrown))
          | inl (_, returned) ↦
              let w1 = (relay_outbox_item D Q driver publish item w).1 in
              subst P (ground (arith, returned)) (
                relay_items-ok items w1 (ground (arith, returned)) ends
                  (relay_outbox_item-ok item w returned (ends item) old))
        ]
    relay_items-ok (Item.request _ ∷ items) w done ends old = absurd (ground arith)
    relay_items-ok (Item.inbox _ ∷ items) w done ends old = absurd (ground arith)
    relay_items-ok (Item.access _ ∷ items) w done ends old = absurd (ground arith)

    -- A run that reports work has left a mark of the end under every key that it wrote.
    pub relay_pending_messages-ok :
        (w w' : Relay S) (n : ℕ)
        → relay_pending_messages D Q driver publish w ≡ (n, w')
        → 0 < n
        → ((item : OutboxItem) → Ends D Q driver publish P k item)
        → P (D.item w.table k)
        → P (D.item w'.table k)
    unfolding relay_pending_messages
    relay_pending_messages-ok w w' n e worked ends old =
        elim (Option-cases (Q.scan w.table is_open)) [
          | inl failed ↦ absurd (ground (arith, failed))
          | inr (items, scanned) ↦ elim (Result-cases (relay_items D Q driver publish items w).0) [
            | inr (x, thrown) ↦ absurd (ground (arith, scanned, thrown))
            | inl (_, returned) ↦
                subst P (ground (arith, scanned, returned))
                  (relay_items-ok items w returned ends old)
          ]
        ]
