-- ===== src/Tenancy/Tests/Relaying.antt =====
-- The theorems on the relay at concrete inputs.
use flatrent.Base.{
  ℕ, zero, suc, ◌+◌, ◌≡◌, ◌≤◌, refl, String, Bool, true, Option, none, some, List, [], ◌∷◌, All,
  Uuid, ok, arith, length, take, Option-cases, inl, inr, ◌==◌, if◌then◌else◌,
}
use flatrent.Base.Memory.{find_row, find_row-key}
use flatrent.Tenancy.Database.{
  IntegrationOutboxEntity, DeliveryStatus, pending, processing, published, retry,
}
use flatrent.Tenancy.Relay.{
  OutboxTable, Relay, marked, claim_rows, publish_items, relay_pending_messages, max_attempts,
}
use flatrent.Tenancy.Relay.Settling.{relay_pending_messages-other}
use flatrent.Tenancy.Relay.Attempts.{attempts_of, IsBounded}
use flatrent.Tenancy.Relay.Tries.{tries, tries_at_most_five}
use flatrent.Tenancy.Relay.Completion.{relay_pending_messages-settled}
use flatrent.Tenancy.Tests.{sql, with_tenancy}

abbrev find : List IntegrationOutboxEntity → Uuid → Option IntegrationOutboxEntity
find = find_row (λ r. r.message_id)

abbrev keep :
    (IntegrationOutboxEntity → Bool)
    → Option IntegrationOutboxEntity
    → List IntegrationOutboxEntity
    → List IntegrationOutboxEntity
keep p none rs = rs
keep p (some r) rs = if p r then r ∷ rs else rs

abbrev select :
    List IntegrationOutboxEntity
    → (IntegrationOutboxEntity → Bool)
    → List IntegrationOutboxEntity
    → List IntegrationOutboxEntity
select s p [] = []
select s p (r ∷ rs) = keep p (find s r.message_id) (select s p rs)

abbrev mark :
    List IntegrationOutboxEntity
    → DeliveryStatus
    → Option String
    → Option IntegrationOutboxEntity
    → Option (List IntegrationOutboxEntity)
mark s status e none = some s
mark s status e (some r) = some (record r { status = status; last_error = e } ∷ s)

select-stored :
    (s : List IntegrationOutboxEntity) (p : IntegrationOutboxEntity → Bool)
    (ks : List IntegrationOutboxEntity)
    → All (λ r. (p r ≡ true) × (find s r.message_id ≡ some r)) (select s p ks)
select-stored s p [] = tt
select-stored s p (k ∷ ks) = elim (Option-cases (find s k.message_id)) [
  | inl gone ↦ ground (arith, select-stored s p ks)
  | inr (r, found) ↦
      ground (arith, select-stored s p ks, find_row-key (λ r. r.message_id) s k.message_id r found)
]

All-take : {A : Type 0} (P : A → Type 0) (n : ℕ) (xs : List A) → All P xs → All P (take n xs)
All-take P zero xs a = tt
All-take P (suc n) [] a = tt
All-take P (suc n) (x ∷ xs) a = (a.0, All-take P n xs a.1)

length-take_le : {A : Type 0} (n : ℕ) (xs : List A) → length (take n xs) ≤ n
length-take_le zero xs = ground arith
length-take_le (suc n) [] = ground arith
length-take_le (suc n) (x ∷ xs) = ground (arith, length-take_le n xs)

find-mark :
    (s s' : List IntegrationOutboxEntity) (j k : Uuid) (status : DeliveryStatus) (e : Option String)
    → mark s status e (find s j) ≡ some s'
    → find s' k ≡ (if j == k then marked status e (find s k) else find s k)
find-mark s s' j k status e w = elim (Option-cases (find s j)) [
  | inl gone ↦ ground arith
  | inr (r, found) ↦ ground (arith, find_row-key (λ r. r.message_id) s j r found)
]

abbrev rows : OutboxTable sql
rows = record {
  get_many = λ s p n. take n (select s p s);
  update = λ s j status e. mark s status e (find s j);
  get_many-stored = λ s p n.
      All-take (λ r. (p r ≡ true) × (find s r.message_id ≡ some r)) n (select s p s)
        (select-stored s p s);
  get_many-length = λ s p n. length-take_le n (select s p s);
  find_one-update = find-mark;
}

abbrev waiting : IntegrationOutboxEntity
waiting = record {
  message_id = 70;
  event_type = "TenancyActivated.v1";
  event_version = 1;
  producer = "tenancy";
  source_domain_event_id = 70;
  aggregate_type = "Tenancy";
  aggregate_id = 5;
  aggregate_version = 1;
  occurred_at = 150;
  payload_json = record {
    tenancy_id = 5;
    rental_unit_id = 2;
    tenant_id = 3;
    start_date = 200;
    end_date = 300;
  };
  status = pending;
  attempt_count = 4;
  last_error = none;
}

-- Left behind by a run that was interrupted after its claim.
abbrev interrupted : IntegrationOutboxEntity
interrupted = record waiting { message_id = 71; status = processing; attempt_count = 1 }

abbrev refused : IntegrationOutboxEntity
refused = record waiting { message_id = 72; status = retry; attempt_count = 2 }

abbrev relay : Relay sql
relay = record {
  db = record with_tenancy { outbox = waiting ∷ interrupted ∷ refused ∷ [] };
  topic = [];
  outbox_retries = 0;
}

-- The topic takes every item but the third.
abbrev publish : IntegrationOutboxEntity → Option String
publish item = if item.message_id == 72 then some "timeout" else none

abbrev relayed : Relay sql
relayed = (relay_pending_messages sql rows "" publish relay).1

returns : relay_pending_messages sql rows "" publish relay ≡ (ok 2, relayed)
unfolding relay_pending_messages claim_rows publish_items
returns = refl

waiting_published :
    find relayed.db.outbox 70 ≡ some (record waiting { status = published; attempt_count = 5 })
unfolding relay_pending_messages claim_rows publish_items
waiting_published = refl

still_interrupted : find relayed.db.outbox 71 ≡ some interrupted
unfolding relay_pending_messages claim_rows publish_items
still_interrupted = refl

bounded : IsBounded sql rows "" publish relay.db.outbox
bounded k = ground arith

relay_pending_messages-other_example : find relayed.db.outbox 71 ≡ some interrupted
relay_pending_messages-other_example =
    relay_pending_messages-other sql rows "" publish relay 71 interrupted refl refl

-- The third item, with two attempts behind it, over four runs in which the topic refuses it.
tries_at_most_five_example :
    tries sql rows "" (publish ∷ publish ∷ publish ∷ publish ∷ []) relay 72
      + attempts_of (find relay.db.outbox 72)
    ≤ max_attempts
tries_at_most_five_example =
    tries_at_most_five sql rows "" (publish ∷ publish ∷ publish ∷ publish ∷ []) relay publish 72
      bounded

-- Three of the four runs take it up.
tries_three : tries sql rows "" (publish ∷ publish ∷ publish ∷ publish ∷ []) relay 72 ≡ 3
unfolding tries relay_pending_messages claim_rows publish_items
tries_three = refl

relay_pending_messages-settled_example : find relay.db.outbox 71 ≡ some interrupted
relay_pending_messages-settled_example =
    relay_pending_messages-settled sql rows "" publish relay relayed 2 71 interrupted returns
      still_interrupted refl
