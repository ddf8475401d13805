-- ===== src/Maintenance/Tests/Relaying.antt =====
-- The theorems on the relay of the maintenance module at concrete inputs.
use mathlib.Core.Path.{subst}
use flatrent.Base.{
  ◌==◌, ◌+◌, ◌≤◌, ◌≡◌, ap, refl, String, Bool, true, Option, none, some, List, [], ◌∷◌, All, sym,
  Bool-cases, Option-cases, inl, inr, arith, if◌then◌else◌, map,
}
use flatrent.Maintenance.Dynamo.{
  Put, Key, key_eq, key_of, Item, OutboxItem, pending, processing, always,
}
use flatrent.Maintenance.Dynamo.Memory.{stored}
use flatrent.Maintenance.Relay.{
  OutboxMessage, OutboxTable, Relay, relay_pending_messages, relay_items, relay_outbox_item,
  max_attempts, outbox_message, is_open,
}
use flatrent.Maintenance.Relay.Settling.{IsBounded}
use flatrent.Maintenance.Relay.Tries.{attempts_of, offers, tries, tries_within_five}
use flatrent.Maintenance.Relay.Stale.{relay_items-republishes}
use flatrent.Maintenance.Tests.{table}

-- The items that are visible under the keys of `ks` and fit.
scan_keys : List Put → (Item → Bool) → List Put → List Item
scan_keys s p [] = []
scan_keys s p (q ∷ ks) = elim (stored s (key_of q.item)) [
  | none ↦ scan_keys s p ks
  | some i ↦ if p i then i ∷ scan_keys s p ks else scan_keys s p ks
]

key_eq-eq : (a b : Key) → key_eq a b ≡ true → a ≡ b
key_eq-eq (Key.request a) b h = ground arith
key_eq-eq (Key.outbox a) b h = ground arith
key_eq-eq (Key.inbox a) b h = ground arith
key_eq-eq (Key.access a u) b h = ground arith

stored-key : (s : List Put) (k : Key) (i : Item) → stored s k ≡ some i → key_of i ≡ k
stored-key [] k i e = absurd (ground arith)
stored-key (p ∷ s) k i e = elim (Bool-cases (key_eq (key_of p.item) k)) [
  | inl here ↦ key_eq-eq (key_of i) k (ground arith)
  | inr there ↦ stored-key s k i (ground arith)
]

scan_keys-stored :
    (s : List Put) (p : Item → Bool) (ks : List Put)
    → All (λ i. (p i ≡ true) × (stored s (key_of i) ≡ some i)) (scan_keys s p ks)
unfolding scan_keys
scan_keys-stored s p [] = tt
scan_keys-stored s p (q ∷ ks) =
    let Stored : List Item → Type 0 = All (λ i. (p i ≡ true) × (stored s (key_of i) ≡ some i)) in
    let rest = scan_keys-stored s p ks in
    elim (Option-cases (stored s (key_of q.item))) [
      | inl missing ↦ subst Stored (ground (arith, missing)) rest
      | inr (i, found) ↦ elim (Bool-cases (p i)) [
        | inr unfit ↦ subst Stored (ground (arith, found, unfit)) rest
        | inl fits ↦
            let here =
              subst (λ k. stored s k ≡ some i) (sym (stored-key s (key_of q.item) i found)) found in
            subst Stored {x = i ∷ scan_keys s p ks} (ground (arith, found, fits))
              ((fits, here), rest)
      ]
    ]

abbrev scan_table : List Put → (Item → Bool) → Option (List Item)
scan_table s p = some (scan_keys s p s)

abbrev put_always : List Put → Item → Option (List Put)
put_always s i = some (record { item = i; condition = always } ∷ s)

scan_table-stored :
    (s : List Put) (p : Item → Bool) (items : List Item)
    → scan_table s p ≡ some items
    → All (λ i. (p i ≡ true) × (stored s (key_of i) ≡ some i)) items
scan_table-stored s p items e =
    subst (All (λ i. (p i ≡ true) × (stored s (key_of i) ≡ some i))) (ground (arith, e))
      (scan_keys-stored s p s)

stored-put_always :
    (s s' : List Put) (i : Item) (k : Key)
    → put_always s i ≡ some s'
    → stored s' k ≡ (if key_eq (key_of i) k then some i else stored s k)
stored-put_always s s' i k e = ground (arith, e)

abbrev outbox_table : OutboxTable table
outbox_table = record {
  scan = scan_table;
  put = put_always;
  scan-stored = scan_table-stored;
  item-put = stored-put_always;
}

abbrev opening : OutboxItem
opening = record {
  message_id = 90;
  event_type = "BlockingMaintenanceRequestOpened.v1";
  event_version = 1;
  producer = "maintenance";
  source_domain_event_id = 90;
  aggregate_type = "MaintenanceRequest";
  aggregate_id = 8;
  aggregate_version = 0;
  occurred_at = 40;
  status = pending;
  attempt_count = 0;
  payload_json = record { request_id = 8; rental_unit_id = 2; is_blocking = true; version = 0 };
  last_error = none;
}

abbrev stuck : OutboxItem
stuck = record opening { message_id = 91; status = processing; attempt_count = 5 }

abbrev puts : List Put
puts =
    record { item = Item.outbox opening; condition = always }
    ∷ record { item = Item.outbox stuck; condition = always }
    ∷ []

-- A topic that refuses every message, and one that takes all.
abbrev refuse : List OutboxMessage → OutboxMessage → Option String
refuse topic m = some "Service Unavailable"

abbrev receive : List OutboxMessage → OutboxMessage → Option String
receive topic m = none

abbrev world : Relay (List Put)
world = record { table = puts; topic = [] }

puts-IsBounded : (k : Key) → IsBounded (stored puts k)
puts-IsBounded (Key.request j) = tt
puts-IsBounded (Key.outbox j) = elim (Bool-cases (90 == j)) [
  | inl first ↦ rw first (omega arith, λ p. omega arith)
  | inr other ↦ elim (Bool-cases (91 == j)) [
    | inl second ↦ rw (other, second) (omega arith, λ p. absurd (ground arith))
    | inr none_left ↦ rw (other, none_left) tt
  ]
]
puts-IsBounded (Key.inbox j) = tt
puts-IsBounded (Key.access j u) = tt

abbrev six_refusals : List (List OutboxMessage → OutboxMessage → Option String)
six_refusals = refuse ∷ refuse ∷ refuse ∷ refuse ∷ refuse ∷ refuse ∷ []

tries_within_five_example :
    tries table outbox_table "driver" six_refusals world (Key.outbox 90)
      + attempts_of (stored puts (Key.outbox 90))
    ≤ max_attempts
tries_within_five_example =
    tries_within_five table outbox_table "driver" six_refusals world (Key.outbox 90) puts-IsBounded

-- Five of the six runs take the item to the topic.
tries_five : tries table outbox_table "driver" six_refusals world (Key.outbox 90) ≡ 5
unfolding tries offers relay_pending_messages relay_items relay_outbox_item scan_keys
tries_five = refl

scanned : scan_keys puts is_open puts ≡ map Item.outbox (opening ∷ [])
unfolding scan_keys
scanned = refl

relay_items-republishes_example :
    (relay_items table outbox_table "driver" receive
      (map Item.outbox (opening ∷ []))
      (relay_pending_messages table outbox_table "driver" receive world).1).1.topic
    ≡ outbox_message opening ∷ outbox_message opening ∷ []
relay_items-republishes_example =
    relay_items-republishes table outbox_table "driver" receive
      (λ s i. (record { item = i; condition = always } ∷ s, refl)) (λ topic m. refl) (opening ∷ [])
      world (ap some scanned)
