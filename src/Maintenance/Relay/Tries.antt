-- ===== src/Maintenance/Relay/Tries.antt =====
-- How often the relay takes an item to the topic, over any number of runs.
use flatrent.Base.{
  ℕ, ◌+◌, ◌≡◌, ◌≤◌, sym, ap, ◌∙◌, String, Bool, true, false, ◌&&◌, ◌||◌, Option, none, some, List,
  [], ◌∷◌, All, ok, err, arith, Option-cases, Result-cases, Bool-cases, inl, inr, if◌then◌else◌,
}
use flatrent.Maintenance.Dynamo.{Dynamo, Key, key_eq, key_of, OutboxItem, Item}
use flatrent.Maintenance.Relay.{
  OutboxMessage, OutboxTable, Relay, max_attempts, is_open, claimed, put_item, relay_item,
  relay_outbox_item, relay_items, relay_pending_messages,
}
use flatrent.Maintenance.Relay.Keeping.{
  put_item-cases, Rounds, publish_item-keeps, relay_items-keeps, relay_pending_messages-keeps,
}
use flatrent.Maintenance.Relay.Settling.{IsBounded, outbox-eq, relay_pending_messages_within_five}

abbrev pub attempts_of : Option Item → ℕ
attempts_of (some (Item.outbox item)) = item.attempt_count
attempts_of _ = 0

IsBounded-attempts_of : (o : Option Item) → IsBounded o → attempts_of o ≤ max_attempts
IsBounded-attempts_of none b = omega arith
IsBounded-attempts_of (some (Item.outbox item)) b = b.0
IsBounded-attempts_of (some (Item.request i)) b = omega arith
IsBounded-attempts_of (some (Item.inbox i)) b = omega arith
IsBounded-attempts_of (some (Item.access i)) b = omega arith

module _ {S : Type 0} (D : Dynamo S) (Q : OutboxTable D) (driver : String) where
  abbrev pub Topic : Type 0
  Topic = List OutboxMessage → OutboxMessage → Option String

  -- A round takes its item to the topic once the claim of the item is written.
  abbrev pub takes : Topic → Item → Relay S → Bool
  takes publish (Item.outbox item) w = elim ((put_item D Q driver publish (claimed item) w).0) [
    | err _ ↦ false
    | ok _ ↦ true
  ]
  takes publish _ w = false

  -- Some round of the loop takes the item under the key to the topic.
  unfoldable pub offers : Topic → List Item → Relay S → Key → Bool
  offers publish [] w k = false
  offers publish (i ∷ items) w k =
      let (r, w') = relay_item D Q driver publish i w in
      let rest = offers publish items w' k in
      (takes publish i w && key_eq (key_of i) k) || elim r [ err _ ↦ false | ok _ ↦ rest ]

  abbrev pub tries_once : Topic → Relay S → Key → ℕ
  tries_once publish w k = elim (Q.scan w.table is_open) [
    | none ↦ 0
    | some items ↦ if offers publish items w k then 1 else 0
  ]

  -- The number of runs that take the item under the key to the topic, among runs one after another,
  -- each with the topic as it is then.
  unfoldable pub tries : List Topic → Relay S → Key → ℕ
  tries [] w k = 0
  tries (publish ∷ later) w k =
      tries_once publish w k + tries later (relay_pending_messages D Q driver publish w).1 k

  module _ (publish : Topic) (k : Key) (a : ℕ) where
    -- An item under the key counts `a` attempts.
    abbrev Counts : Item → Type 0
    Counts (Item.outbox item) =
        key_eq (Key.outbox item.message_id) k ≡ true → item.attempt_count ≡ a
    Counts _ = Unit

    abbrev One : Option Item → Type 0
    One o = attempts_of o ≡ a + 1

    Counts-Rounds : (i : Item) → Counts i → Rounds D Q driver publish One k i
    Counts-Rounds (Item.outbox item) c =
        (λ h. ground (arith, c h), λ h. (ground (arith, c h), λ text. ground (arith, c h)))
    Counts-Rounds (Item.request _) c = tt
    Counts-Rounds (Item.inbox _) c = tt
    Counts-Rounds (Item.access _) c = tt

    All-Counts :
        (items : List Item) → All Counts items → All (Rounds D Q driver publish One k) items
    All-Counts [] c = tt
    All-Counts (i ∷ items) c = (Counts-Rounds i c.0, All-Counts items c.1)

    -- A round that takes the item under the key to the topic leaves it with one attempt more.
    relay_outbox_item-takes :
        (item : OutboxItem) (w : Relay S)
        → Counts (Item.outbox item)
        → takes publish (Item.outbox item) w ≡ true
        → key_eq (Key.outbox item.message_id) k ≡ true
        → One (D.item (relay_outbox_item D Q driver publish item w).1.table k)
    unfolding relay_outbox_item
    relay_outbox_item-takes item w c taken here =
        elim (put_item-cases D Q driver publish (claimed item) w) [
          | inl rejected ↦ absurd (ground (arith, rejected, taken))
          | inr (s, written, rows) ↦
              let claimed_one : One (D.item s k) = ground (arith, rows k, here, c here) in
              let left =
                publish_item-keeps D Q driver publish One k item (record w { table = s })
                  (Counts-Rounds (Item.outbox item) c).1 claimed_one in
              ground (arith, written, left)
        ]

    relay_items-offers :
        (items : List Item) (w : Relay S)
        → All Counts items
        → offers publish items w k ≡ true
        → One (D.item (relay_items D Q driver publish items w).1.table k)
    unfolding offers relay_items
    relay_items-offers [] w c h = absurd (ground arith)
    relay_items-offers (Item.outbox item ∷ items) w c h =
        let w1 = (relay_outbox_item D Q driver publish item w).1 in
        let here = takes publish (Item.outbox item) w && key_eq (Key.outbox item.message_id) k in
        elim (Result-cases (relay_outbox_item D Q driver publish item w).0) [
          | inr (e, thrown) ↦
              let left =
                relay_outbox_item-takes item w c.0 (ground (arith, thrown, h))
                  (ground (arith, thrown, h)) in
              ground (arith, thrown, left)
          | inl (_, returned) ↦ elim (Bool-cases here) [
            | inr elsewhere ↦
                let left =
                  relay_items-offers items w1 c.1 (ground (arith, returned, elsewhere, h)) in
                ground (arith, returned, left)
            | inl taken ↦
                let left =
                  relay_items-keeps D Q driver publish One k items w1 (All-Counts items c.1) (
                    relay_outbox_item-takes item w c.0 (ground (arith, taken))
                      (ground (arith, taken))) in
                ground (arith, returned, left)
          ]
        ]
    relay_items-offers (Item.request _ ∷ items) w c h = absurd (ground arith)
    relay_items-offers (Item.inbox _ ∷ items) w c h = absurd (ground arith)
    relay_items-offers (Item.access _ ∷ items) w c h = absurd (ground arith)

  -- The item that is stored under the key counts the attempts that are counted under it.
  stored-Counts :
      (publish : Topic) (k : Key) (w : Relay S) (i : Item)
      → D.item w.table (key_of i) ≡ some i
      → Counts publish k (attempts_of (D.item w.table k)) i
  stored-Counts publish k w (Item.outbox item) stored =
      λ h. ap attempts_of (sym stored ∙ ap (D.item w.table) (outbox-eq item.message_id k h))
  stored-Counts publish k w (Item.request _) stored = tt
  stored-Counts publish k w (Item.inbox _) stored = tt
  stored-Counts publish k w (Item.access _) stored = tt

  All-stored :
      (publish : Topic) (k : Key) (w : Relay S) (items : List Item)
      → All (λ i. (is_open i ≡ true) × (D.item w.table (key_of i) ≡ some i)) items
      → All (Counts publish k (attempts_of (D.item w.table k))) items
  All-stored publish k w [] stored = tt
  All-stored publish k w (i ∷ items) stored =
      (stored-Counts publish k w i stored.0.1, All-stored publish k w items stored.1)

  -- The attempts of an item never fall.
  relay_pending_messages-counts :
      (publish : Topic) (w : Relay S) (k : Key)
      → attempts_of (D.item w.table k)
        ≤ attempts_of (D.item (relay_pending_messages D Q driver publish w).1.table k)
  relay_pending_messages-counts publish w k =
      let a = attempts_of (D.item w.table k) in
      relay_pending_messages-keeps D Q driver publish (λ o. a ≤ attempts_of o) k w
        (λ i opens stored. rounds i (stored-Counts publish k w i stored)) (omega arith)
    where
      rounds :
          (i : Item)
          → Counts publish k (attempts_of (D.item w.table k)) i
          → Rounds D Q driver publish (λ o. attempts_of (D.item w.table k) ≤ attempts_of o) k i
      rounds (Item.outbox item) c =
          (λ h. ground (arith, c h), λ h. (ground (arith, c h), λ text. ground (arith, c h)))
      rounds (Item.request _) c = tt
      rounds (Item.inbox _) c = tt
      rounds (Item.access _) c = tt

  tries_once-counts :
      (publish : Topic) (w : Relay S) (k : Key)
      → tries_once publish w k + attempts_of (D.item w.table k)
        ≤ attempts_of (D.item (relay_pending_messages D Q driver publish w).1.table k)
  unfolding relay_pending_messages
  tries_once-counts publish w k =
      let never_falls = relay_pending_messages-counts publish w k in
      elim (Option-cases (Q.scan w.table is_open)) [
        | inl failed ↦ ground (arith, failed, never_falls)
        | inr (items, scanned) ↦ elim (Bool-cases (offers publish items w k)) [
          | inr idle ↦ ground (arith, scanned, idle, never_falls)
          | inl taken ↦
              let counts =
                All-stored publish k w items (Q.scan-stored w.table is_open items scanned) in
              let counted =
                relay_items-offers publish k (attempts_of (D.item w.table k)) items w counts
                  taken in
              elim (Result-cases (relay_items D Q driver publish items w).0) [
                | inl (_, returned) ↦ ground (arith, scanned, taken, returned, counted)
                | inr (e, thrown) ↦ ground (arith, scanned, taken, thrown, counted)
              ]
        ]
      ]

  -- No item is tried in more than five runs: over any number of runs one after another, whatever
  -- the topic answers and whatever comes of them, the runs that take an item to the topic and the
  -- attempts that it counted before are five at most, if every item of the outbox counted at most
  -- five attempts, and fewer while it was pending or to be retried.
  pub tries_within_five :
      (topics : List Topic) (w : Relay S) (k : Key)
      → ((j : Key) → IsBounded (D.item w.table j))
      → tries topics w k + attempts_of (D.item w.table k) ≤ max_attempts
  unfolding tries
  tries_within_five [] w k b = ground (arith, IsBounded-attempts_of (D.item w.table k) (b k))
  tries_within_five (publish ∷ later) w k b =
      let w' = (relay_pending_messages D Q driver publish w).1 in
      let rest =
        tries_within_five later w' k (relay_pending_messages_within_five D Q driver publish w b) in
      ground (arith, rest, tries_once-counts publish w k)
