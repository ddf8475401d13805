-- ===== src/Tenancy/Readiness.antt =====
-- The readiness of rental units: the projection that tenancy/interfaces/sqs/
-- maintenance-events.consumer.ts keeps from the messages of the maintenance module, and the check
-- of tenancy/infrastructure/persistence/typeorm-rental-unit-readiness.adapter.ts.
pub mod Projection
pub mod Consumer
use flatrent.Base.{
  ℕ, ◌+◌, String, Bool, true, false, not, Option, none, some, List, [], ◌∷◌, ◌++◌, Uuid, Date,
  Result, ok, err, Action, transaction, length, ◌==◌, if◌then◌else◌, ◌>>=◌, ◌>>◌, pure,
}
use flatrent.Base.Int.{ℤ, pos, negsuc, ◌+ℤ◌, leb_ℤ, eqb_ℤ, sub_ℕ}
use flatrent.Tenancy.Errors.{Error, readiness_stale, unit_not_ready}
use flatrent.Tenancy.Database.{
  Schema, Db, RentalUnitReadinessProjectionEntity, ProjectionStatus, active, gap_detected,
  InboxEntity, save_projection_row, save_inbox_row,
}

-- What `MaintenanceEventEnvelopeSchema` lets through. The version is a whole number.
pub record Payload : Type 0 where
  pub request_id : Uuid
  pub rental_unit_id : Uuid
  pub is_blocking : Bool
  pub version : ℤ

pub record Envelope : Type 0 where
  pub message_id : Uuid
  pub event_type : String
  pub event_version : ℕ
  pub payload : Payload

abbrev pub new_projection : Uuid → RentalUnitReadinessProjectionEntity
new_projection rental_unit_id = record {
  rental_unit_id = rental_unit_id;
  is_ready = true;
  last_processed_version = negsuc 0;
  status = active;
}

abbrev pub or_new :
    Uuid → Option RentalUnitReadinessProjectionEntity → RentalUnitReadinessProjectionEntity
or_new rental_unit_id none = new_projection rental_unit_id
or_new rental_unit_id (some p) = p

-- Lines 106 to 126: the new projection, or `none` for the early return on a stale message.
unfoldable pub advance :
    Payload → RentalUnitReadinessProjectionEntity → Option RentalUnitReadinessProjectionEntity
advance payload p =
    if leb_ℤ payload.version p.last_processed_version
    then none
    else if eqb_ℤ payload.version (p.last_processed_version +ℤ pos 1)
    then some (record p {
      is_ready = not payload.is_blocking;
      last_processed_version = payload.version;
      status = active;
    })
    else some (record p { status = gap_detected })

-- `throw new Error('DUPLICATE_MESSAGE_SKIP')`, or a rejected statement.
pub data ProcessingError : Type 0 where
  duplicate_message_skip : ProcessingError
  failed : Error → ProcessingError

module _ (M : Schema) (sha256 : Payload → String) (now : Date) where
  abbrev pub inbox_marker : Envelope → InboxEntity
  inbox_marker envelope = record {
    consumer_name = "tenancy.readiness-consumer";
    message_id = envelope.message_id;
    event_type = envelope.event_type;
    event_version = (if envelope.event_version == 0 then 1 else envelope.event_version);
    payload_hash = sha256 envelope.payload;
    source_aggregate_id = envelope.payload.request_id;
    source_aggregate_version = envelope.payload.version;
    status = "PROCESSED";
    processed_at = now;
  }

  abbrev pub save_advanced :
      Option RentalUnitReadinessProjectionEntity → Action (Db M) Error (Unit {0})
  save_advanced none db = (ok tt, db)
  save_advanced (some p) db = save_projection_row M p db

  abbrev pub project : Payload → Action (Db M) Error (Unit {0})
  project payload db =
      save_advanced
        (advance payload (
          or_new payload.rental_unit_id
            (M.projections.find_one db.projections payload.rental_unit_id)))
        db

  abbrev pub failing : {A : Type 0} → Action (Db M) Error A → Action (Db M) ProcessingError A
  failing m db =
      let (r, db') = m db in elim r [ ok a ↦ (ok a, db') | err e ↦ (err (failed e), db') ]

  -- Lines 71 to 128, without the transaction around them.
  abbrev pub process_in_transaction : Envelope → Action (Db M) ProcessingError (Unit {0})
  process_in_transaction envelope db = elim (M.inbox.find_one db.inbox envelope.message_id) [
    | some _ ↦ (err duplicate_message_skip, db)
    | none ↦ failing (save_inbox_row M (inbox_marker envelope) >> project envelope.payload) db
  ]

  unfoldable pub process : Envelope → Action (Db M) ProcessingError (Unit {0})
  process envelope = transaction (process_in_transaction envelope)

-- What a message body turns out to be: no JSON, JSON that the schema refuses, or an envelope.
pub data Body : Type 0 where
  malformed refused : Body
  envelope : Option Date → Envelope → Body

pub record Message : Type 0 where
  pub body : Body
  pub receipt_handle : ℕ

-- The state that the consumer works on: the database, the messages it has deleted from the queue,
-- and the two metrics that it writes.
pub record Worker (M : Schema) : Type 0 where
  pub db : Db M
  pub deleted : List ℕ
  pub inbox_retries : ℕ
  pub queue_lag : Option ℤ

-- `delete_ok` says which deletions the queue carries out; any other is a rejected promise.
module _ (M : Schema) (sha256 : Payload → String) (now : Date) (delete_ok : ℕ → Bool) where
  abbrev pub set_queue_lag : Option Date → Worker M → Worker M
  set_queue_lag none w = w
  set_queue_lag (some at) w = record w { queue_lag = some (sub_ℕ now at) }

  abbrev pub delete : ℕ → Worker M → Worker M
  delete receipt w = record w { deleted = w.deleted ++ receipt ∷ [] }

  abbrev pub count_retry : Worker M → Worker M
  count_retry w = record w { inbox_retries = w.inbox_retries + 1 }

  -- Lines 131 to 152, after the transaction; `false` is a throw out of the loop.
  abbrev pub settle : ℕ → Result ProcessingError (Unit {0}) → Worker M → Bool × Worker M
  settle receipt (ok _) w =
      if delete_ok receipt then (true, delete receipt w) else (true, count_retry w)
  settle receipt (err duplicate_message_skip) w =
      if delete_ok receipt then (true, delete receipt w) else (false, w)
  settle receipt (err (failed e)) w = (true, count_retry w)

  -- One round of the loop.
  pub handle : Message → Worker M → Bool × Worker M
  handle m w = elim (m.body) [
    | malformed ↦ (false, w)
    | refused ↦ (true, count_retry w)
    | envelope at e ↦
        let (r, db') = process M sha256 now e w.db in
        settle m.receipt_handle r (set_queue_lag at (record w { db = db' }))
  ]

  pub handle_all : List Message → Worker M → Bool × Worker M
  handle_all [] w = (true, w)
  handle_all (m ∷ ms) w =
      let (go_on, w') = handle m w in
      let rest = handle_all ms w' in if go_on then rest else (false, w')

  -- `pollAndProcess`; `none` is a failed receive call.
  unfoldable pub poll_and_process : Option (List Message) → Worker M → ℕ × Worker M
  unfolding handle handle_all
  poll_and_process none w = (0, w)
  poll_and_process (some ms) w =
      let (completed, w') = handle_all ms w in if completed then (length ms, w') else (0, w')

-- `assertReadyToLease`
module _ (M : Schema) where
  unfoldable pub assert_ready_to_lease : Uuid → Action (Db M) Error (Unit {0})
  assert_ready_to_lease rental_unit_id db =
      elim (M.projections.find_one db.projections rental_unit_id) [
        | none ↦ (ok tt, db)
        | some p ↦ elim (p.status) [
          | gap_detected ↦ (err readiness_stale, db)
          | active ↦ if not p.is_ready then (err unit_not_ready, db) else (ok tt, db)
        ]
      ]
