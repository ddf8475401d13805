-- ===== src/Maintenance/Relay/Keeping.antt =====
-- What may stand under a key after a part of the relay, whatever comes of it: a property that the
-- marks of a round have, and that the item had, is kept.
use mathlib.Core.Path.{subst}
use flatrent.Base.{
  ◌≡◌, ◌⊎◌, String, true, Option, some, List, [], ◌∷◌, ◌++◌, All, ok, err, arith, if◌then◌else◌,
  Option-cases, Result-cases, Bool-cases, inl, inr,
}
use flatrent.Maintenance.Request.{client_failure}
use flatrent.Maintenance.Dynamo.{Dynamo, Key, key_eq, key_of, OutboxItem, Item}
use flatrent.Maintenance.Relay.{
  OutboxMessage, is_open, OutboxTable, Relay, claimed, marked_published, marked_failed,
  outbox_message, put_item, publish_item, relay_outbox_item, relay_items, relay_pending_messages,
}

module _ {S : Type 0} (D : Dynamo S) (Q : OutboxTable D) (driver : String)
    (publish : List OutboxMessage → OutboxMessage → Option String) where
  -- A put is rejected, or it writes its item.
  pub put_item-cases :
      (item : OutboxItem) (w : Relay S)
      → (put_item D Q driver publish item w ≡ (err client_failure, w))
        ⊎ ((s : S) × (put_item D Q driver publish item w ≡ (ok tt, record w { table = s }))
            × ((k : Key)
                → D.item s k ≡ (
                    if key_eq (Key.outbox item.message_id) k
                    then some (Item.outbox item)
                    else D.item w.table k)))
  put_item-cases item w = elim (Option-cases (Q.put w.table (Item.outbox item))) [
    | inl rejected ↦ inl (ground arith)
    | inr (s, written) ↦
        inr (s, ground arith, λ k. Q.item-put w.table s (Item.outbox item) k written)
  ]

  -- The relay after the topic has received the item.
  abbrev pub accepted : OutboxItem → Relay S → Relay S
  accepted item w = record w { topic = w.topic ++ outbox_message item ∷ [] }

  module _ (P : Option Item → Type 0) (k : Key) where
    -- The marks that a round may leave under `k` have the property.
    abbrev pub Ends : OutboxItem → Type 0
    Ends item =
        key_eq (Key.outbox item.message_id) k ≡ true
        → P (some (Item.outbox (marked_published item)))
          × ((text : String) → P (some (Item.outbox (marked_failed item text))))

    abbrev pub Starts : OutboxItem → Type 0
    Starts item =
        key_eq (Key.outbox item.message_id) k ≡ true → P (some (Item.outbox (claimed item)))

    put_item-keeps :
        (item : OutboxItem) (w : Relay S)
        → (key_eq (Key.outbox item.message_id) k ≡ true → P (some (Item.outbox item)))
        → P (D.item w.table k)
        → P (D.item (put_item D Q driver publish item w).1.table k)
    put_item-keeps item w mark old = elim (put_item-cases item w) [
      | inl rejected ↦ subst P (ground (arith, rejected)) old
      | inr (s, written, rows) ↦ elim (Bool-cases (key_eq (Key.outbox item.message_id) k)) [
        | inl here ↦ subst P (ground (arith, written, rows k)) (mark here)
        | inr there ↦ subst P (ground (arith, written, rows k)) old
      ]
    ]

    pub publish_item-keeps :
        (item : OutboxItem) (w : Relay S)
        → Ends item
        → P (D.item w.table k)
        → P (D.item (publish_item D Q driver publish item w).1.table k)
    publish_item-keeps item w ends old =
        elim (Option-cases (publish w.topic (outbox_message item))) [
          | inr (text, refused) ↦
              subst P (ground (arith, refused))
                (put_item-keeps (marked_failed item text) w (λ h. (ends h).1 text) old)
          | inl fine ↦
              let w1 = accepted item w in
              let kept = put_item-keeps (marked_published item) w1 (λ h. (ends h).0) old in
              elim (put_item-cases (marked_published item) w1) [
                | inl rejected ↦
                    subst P (ground (arith, rejected))
                      (put_item-keeps (marked_failed item driver) w1 (λ h. (ends h).1 driver) old)
                | inr (s, written, rows) ↦ subst P (ground (arith, written)) kept
              ]
        ]

    -- One round of the loop, whatever comes of it.
    relay_outbox_item-keeps :
        (item : OutboxItem) (w : Relay S)
        → Starts item
        → Ends item
        → P (D.item w.table k)
        → P (D.item (relay_outbox_item D Q driver publish item w).1.table k)
    unfolding relay_outbox_item
    relay_outbox_item-keeps item w starts ends old =
        let kept = put_item-keeps (claimed item) w starts old in
        elim (put_item-cases (claimed item) w) [
          | inl rejected ↦
              subst P (ground (arith, rejected))
                (put_item-keeps (marked_failed item driver) w (λ h. (ends h).1 driver) old)
          | inr (s, written, rows) ↦
              let w1 : Relay S = record w { table = s } in
              let kept1 : P (D.item w1.table k) = subst P (ground (arith, written)) kept in
              subst P (ground (arith, written)) (publish_item-keeps item w1 ends kept1)
        ]

    abbrev pub Rounds : Item → Type 0
    Rounds (Item.outbox item) = Starts item × Ends item
    Rounds _ = Unit

    pub relay_items-keeps :
        (items : List Item) (w : Relay S)
        → All Rounds items
        → P (D.item w.table k)
        → P (D.item (relay_items D Q driver publish items w).1.table k)
    unfolding relay_items
    relay_items-keeps [] w rounds old = old
    relay_items-keeps (Item.outbox item ∷ items) w rounds old =
        let w1 = (relay_outbox_item D Q driver publish item w).1 in
        let kept = relay_outbox_item-keeps item w rounds.0.0 rounds.0.1 old in
        elim (Result-cases (relay_outbox_item D Q driver publish item w).0) [
          | inr (e, thrown) ↦ subst P (ground (arith, thrown)) kept
          | inl (_, returned) ↦
              subst P (ground (arith, returned)) (relay_items-keeps items w1 rounds.1 kept)
        ]
    relay_items-keeps (_ ∷ items) w rounds old = old

    All-Rounds :
        (items : List Item) (w : Relay S)
        → ((item : Item)
            → is_open item ≡ true
            → D.item w.table (key_of item) ≡ some item
            → Rounds item)
        → All (λ i. (is_open i ≡ true) × (D.item w.table (key_of i) ≡ some i)) items
        → All Rounds items
    All-Rounds [] w rounds stored = tt
    All-Rounds (item ∷ items) w rounds stored =
        (rounds item stored.0.0 stored.0.1, All-Rounds items w rounds stored.1)

    -- A property of the item under a key stays in every run of the relay if each open item of the
    -- table gives its marks the property.
    pub relay_pending_messages-keeps :
        (w : Relay S)
        → ((item : Item)
            → is_open item ≡ true
            → D.item w.table (key_of item) ≡ some item
            → Rounds item)
        → P (D.item w.table k)
        → P (D.item (relay_pending_messages D Q driver publish w).1.table k)
    unfolding relay_pending_messages
    relay_pending_messages-keeps w rounds old = elim (Option-cases (Q.scan w.table is_open)) [
      | inl failed ↦ subst P (ground (arith, failed)) old
      | inr (items, scanned) ↦
          let kept =
            relay_items-keeps items w
              (All-Rounds items w rounds (Q.scan-stored w.table is_open items scanned)) old in
          elim (Result-cases (relay_items D Q driver publish items w).0) [
            | inl (_, returned) ↦ subst P (ground (arith, scanned, returned)) kept
            | inr (e, thrown) ↦ subst P (ground (arith, scanned, thrown)) kept
          ]
    ]
