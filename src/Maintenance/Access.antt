-- ===== src/Maintenance/Access.antt =====
-- The tenants' access to units, which maintenance/interfaces/sqs/tenancy-events.consumer.ts projects
-- from the messages of the tenancy module into the maintenance table.
pub mod Granting
use flatrent.Base.{
  ℕ, String, Bool, true, false, Option, List, [], ◌∷◌, ◌++◌, none, some, Uuid, Date, length,
  if◌then◌else◌,
}
use flatrent.Maintenance.Dynamo.{
  Dynamo, InboxItem, AccessItem, Item, always, not_exists, Put, Outcome, written, condition_failed,
  rejected,
}

-- What `TenancyActivatedEnvelopeSchema` lets through, less the texts of the dates, which nothing reads.
pub record ActivatedPayload : Type 0 where
  pub tenancy_id : Uuid
  pub rental_unit_id : Uuid
  pub tenant_id : Uuid

pub record ActivatedEnvelope : Type 0 where
  pub message_id : Uuid
  pub payload : ActivatedPayload

-- No JSON, JSON that the schema refuses, or an envelope.
pub data Body : Type 0 where
  malformed refused : Body
  envelope : ActivatedEnvelope → Body

pub record Message : Type 0 where
  pub body : Body
  pub receipt_handle : ℕ

-- The table, and the messages that have been deleted from the queue.
pub record Receiver (S : Type 0) : Type 0 where
  pub table : S
  pub deleted : List ℕ

abbrev pub access_item : ActivatedPayload → AccessItem
access_item p = record {
  tenant_id = p.tenant_id;
  rental_unit_id = p.rental_unit_id;
  tenancy_id = p.tenancy_id;
  is_active = true;
}

module _ {S : Type 0} (D : Dynamo S) (sha256 : ActivatedPayload → String) (now : Date)
    (delete_ok : ℕ → Bool) where
  abbrev pub inbox_item : ActivatedEnvelope → InboxItem
  inbox_item e = record {
    message_id = e.message_id;
    payload_hash = sha256 e.payload;
    processed_at = now;
  }

  -- The inbox marker, which blocks duplicates, and the snapshot.
  abbrev pub access_puts : ActivatedEnvelope → List Put
  access_puts e =
      record { item = Item.inbox (inbox_item e); condition = not_exists }
      ∷ record { item = Item.access (access_item e.payload); condition = always }
      ∷ []

  abbrev pub delete_message : ℕ → Receiver S → Receiver S
  delete_message receipt w = record w { deleted = w.deleted ++ receipt ∷ [] }

  -- After the transaction; `false` is a throw out of the loop. A deletion that fails after the
  -- snapshot was written is logged; one that fails for a duplicate is not caught.
  abbrev pub settle_access : ℕ → Outcome S → Receiver S → Bool × Receiver S
  settle_access receipt (written s') w =
      let w' : Receiver S = record w { table = s' } in
      (true, if delete_ok receipt then delete_message receipt w' else w')
  settle_access receipt condition_failed w =
      if delete_ok receipt then (true, delete_message receipt w) else (false, w)
  settle_access receipt rejected w = (true, w)

  -- One round of the loop.
  unfoldable pub handle : Message → Receiver S → Bool × Receiver S
  handle m w = elim (m.body) [
    | malformed ↦ (false, w)
    | refused ↦ (true, w)
    | envelope e ↦ settle_access m.receipt_handle (D.transact_write w.table (access_puts e)) w
  ]

  unfoldable pub handle_all : List Message → Receiver S → Bool × Receiver S
  handle_all [] w = (true, w)
  handle_all (m ∷ ms) w =
      let (go_on, w') = handle m w in
      let rest = handle_all ms w' in if go_on then rest else (false, w')

  -- `pollAndProcess`; `none` is a failed receive call.
  unfoldable pub poll_and_process : Option (List Message) → Receiver S → ℕ × Receiver S
  poll_and_process none w = (0, w)
  poll_and_process (some ms) w =
      let (completed, w') = handle_all ms w in if completed then (length ms, w') else (0, w')
