-- ===== src/Maintenance/Repository.antt =====
-- maintenance/infrastructure/persistence/dynamodb-maintenance.repository.ts and
-- dynamodb-tenancy-access.adapter.ts. `size` is the length in bytes of an item's JSON text.
pub mod Saving
use flatrent.Base.{
  ℕ, ◌-◌, ◌*◌, String, Bool, true, false, ◌&&◌, Option, none, some, List, [], ◌∷◌, ◌++◌, Uuid, Date,
  Result, ok, err, Action, length, ltb, ◌==◌, if◌then◌else◌,
}
use flatrent.Base.Text.{codes}
use flatrent.Shared.{set_version}
use flatrent.Maintenance.Request.{
  Error, budget_exceeded, lock_conflict, client_failure, MaintenanceRequest, restore_request,
  MaintenanceStatus, opened, resolved,
}
use flatrent.Maintenance.Dynamo.{
  Dynamo, Key, RequestItem, MaintenanceMessage, OutboxItem, pending, Item, Condition, not_exists,
  version_is, always, Put, Outcome, written, condition_failed, rejected,
}

-- `value || null` and `if (value)`: the empty text counts as absent.
abbrev pub if_present : Option String → Option String
if_present none = none
if_present (some s) = if length (codes s) == 0 then none else some s

-- Lines 71 to 92.
abbrev pub request_item : MaintenanceRequest → RequestItem
request_item q = record {
  id = q.id;
  rental_unit_id = q.rental_unit_id;
  reporter_id = q.reporter_id;
  description = q.description;
  status = q.status;
  is_emergency = q.emergency;
  is_closed = q.is_closed;
  version = q.aggregate_version;
  assigned_handyman_id = if_present q.assigned_handyman_id;
  visit_date = q.visit_date;
  resolution_description = if_present q.resolution_description;
}

-- Lines 40 to 58.
abbrev pub restored : RequestItem → MaintenanceRequest
restored i =
    let q : MaintenanceRequest =
      restore_request i.id i.rental_unit_id i.reporter_id i.description i.status
        (if_present i.assigned_handyman_id) i.visit_date (if_present i.resolution_description)
        i.is_closed in
    record q { root = set_version i.version q.root }

abbrev pub is_opened : MaintenanceStatus → Bool
is_opened opened = true
is_opened _ = false

abbrev pub is_resolved : MaintenanceStatus → Bool
is_resolved resolved = true
is_resolved _ = false

-- Lines 109 to 131 and 134 to 156.
abbrev pub outbox_item : MaintenanceRequest → Uuid → Date → String → Bool → OutboxItem
outbox_item q message_id now event_type is_blocking = record {
  message_id = message_id;
  event_type = event_type;
  event_version = 1;
  producer = "maintenance";
  source_domain_event_id = message_id;
  aggregate_type = "MaintenanceRequest";
  aggregate_id = q.id;
  aggregate_version = q.aggregate_version;
  occurred_at = now;
  status = pending;
  attempt_count = 0;
  payload_json = record {
    request_id = q.id;
    rental_unit_id = q.rental_unit_id;
    is_blocking = is_blocking;
    version = q.aggregate_version;
  };
  last_error = none;
}

-- Lines 103 to 157: the integration event of a save, if there is one.
unfoldable pub outbox_of : MaintenanceRequest → Uuid → Date → Option OutboxItem
outbox_of q message_id now =
    if q.aggregate_version == 0 && is_opened q.status
    then some (outbox_item q message_id now "BlockingMaintenanceRequestOpened.v1" q.emergency)
    else if is_resolved q.status
    then some (outbox_item q message_id now "MaintenanceRequestResolved.v1" false)
    else none

abbrev pub outbox_puts : Option OutboxItem → List Put
outbox_puts none = []
outbox_puts (some o) = record { item = Item.outbox o; condition = always } ∷ []

abbrev pub lock : ℕ → Condition
lock version = if version == 0 then not_exists else version_is (version - 1)

abbrev pub transact_items : MaintenanceRequest → Uuid → Date → List Put
transact_items q message_id now =
    record { item = Item.request (request_item q); condition = lock q.aggregate_version }
    ∷ outbox_puts (outbox_of q message_id now)

-- 4 MB
abbrev pub max_transaction_size : ℕ
max_transaction_size = 4194304

module _ {S : Type 0} (D : Dynamo S) where
  abbrev pub request_of : Option Item → Option MaintenanceRequest
  request_of (some (Item.request i)) = some (restored i)
  request_of _ = none

  -- `findById`: a read that fails is answered like a missing item.
  unfoldable pub find_by_id : Uuid → S → Option MaintenanceRequest
  find_by_id id s =
      if D.reads s (Key.request id) then request_of (D.item s (Key.request id)) else none

  abbrev pub committed : Outcome S → S → Result Error (Unit {0}) × S
  committed (written s') s = (ok tt, s')
  committed condition_failed s = (err lock_conflict, s)
  committed rejected s = (err client_failure, s)

  -- `save`
  unfoldable pub save :
      (RequestItem → ℕ) → MaintenanceRequest → Uuid → Date → Action S Error (Unit {0})
  unfolding outbox_of
  save size q message_id now s =
      if ltb max_transaction_size (size (request_item q))
      then (err (budget_exceeded (size (request_item q))), s)
      else committed (D.transact_write s (transact_items q message_id now)) s

  abbrev pub is_active_of : Option Item → Bool
  is_active_of (some (Item.access a)) = a.is_active
  is_active_of _ = false

  -- `verifyActiveAccess`: a read that fails denies the access.
  unfoldable pub verify_active_access : Uuid → Uuid → S → Bool
  verify_active_access user_id rental_unit_id s =
      if D.reads s (Key.access user_id rental_unit_id)
      then is_active_of (D.item s (Key.access user_id rental_unit_id))
      else false
