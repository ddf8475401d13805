-- ===== src/Shared/Dispatch.antt =====
-- The local dispatch of domain events, tenancy/infrastructure/messaging/local-event-dispatcher.ts and
-- auth/infrastructure/messaging/local-event-dispatcher.ts, which differ in a log line only. The tables
-- and the event bus are parameters: `publish` gives the text of the error with which the bus refuses
-- an event, if any. What is thrown is its text.
pub mod Writing
pub mod Delivery
pub mod Progress
use flatrent.Base.{
  ℕ, ◌+◌, ◌≡◌, ◌≤◌, String, Bool, true, false, Option, none, some, List, [], ◌∷◌, ◌++◌, All, Uuid,
  Date, Result, ok, err, Action, Table, length, pure, ◌>>=◌, ◌>>◌,
}
use flatrent.Shared.{DomainEvent}
use flatrent.Shared.Journal.{
  DomainEventJournalEntity, LocalEventDispatchEntity, DeliveryStatus, pending, processing,
  dispatched, dead,
}

-- The query for the oldest pending rows, with its limit.
pub record DispatchTable (S : Type 0) : Type 1 where
  pub rows : Table S LocalEventDispatchEntity (λ r. r.event_id)
  pub find_pending : S → ℕ → List LocalEventDispatchEntity
  pub find_pending-stored :
      (s : S) (n : ℕ)
      → All (λ r. (r.status ≡ pending) × (rows.find_one s r.event_id ≡ some r)) (find_pending s n)
  pub find_pending-length : (s : S) (n : ℕ) → length (find_pending s n) ≤ n

-- The rows, and what the bus has received.
pub record Dispatching (P S : Type 0) : Type 0 where
  pub rows : S
  pub received : List (DomainEvent P)

abbrev pub batch_size : ℕ
batch_size = 10

abbrev pub event_of : {P : Type 0} → DomainEventJournalEntity P → DomainEvent P
event_of e = record {
  event_id = e.event_id;
  event_type = e.event_type;
  event_version = e.event_version;
  occurred_at = e.occurred_at;
  aggregate_id = e.aggregate_id;
  aggregate_type = e.aggregate_type;
  aggregate_version = e.aggregate_version;
  payload = e.payload_json;
}

abbrev pub claimed : LocalEventDispatchEntity → LocalEventDispatchEntity
claimed r = record r { status = processing; attempt_count = r.attempt_count + 1 }

-- `entry` is `findOne` on the journal, and `clock` the time at which an event has been published.
module _ {P S : Type 0} (Q : DispatchTable S) (entry : Uuid → Option (DomainEventJournalEntity P))
    (driver : String) (bus : Option (DomainEvent P → Option String)) (clock : Uuid → Date) where
  abbrev pub save_row : LocalEventDispatchEntity → Action (Dispatching P S) String (Unit {0})
  save_row r w = elim (Q.rows.save w.rows r) [
    | none ↦ (err driver, w)
    | some rows ↦ (ok tt, record w { rows = rows })
  ]

  abbrev pub send :
      (DomainEvent P → Option String) → DomainEvent P → Action (Dispatching P S) String (Unit {0})
  send publish event w = elim (publish event) [
    | some text ↦ (err text, w)
    | none ↦ (ok tt, record w { received = w.received ++ event ∷ [] })
  ]

  -- Without a bus the event is only logged.
  abbrev pub broadcast : DomainEvent P → Action (Dispatching P S) String (Unit {0})
  broadcast event w = elim bus [ none ↦ (ok tt, w) | some publish ↦ send publish event w ]

  -- The `catch`.
  abbrev pub revert : LocalEventDispatchEntity → String → Action (Dispatching P S) String (Unit {0})
  revert r text = save_row (record r { status = pending; last_error = some text })

  abbrev pub done : LocalEventDispatchEntity → LocalEventDispatchEntity
  done r = record r { status = dispatched; dispatched_at = some (clock r.event_id) }

  -- The `try` of a claimed row. Where the last write fails, the row keeps the time of its dispatch.
  unfoldable pub dispatch_event :
      LocalEventDispatchEntity → DomainEvent P → Action (Dispatching P S) String (Unit {0})
  dispatch_event r event w =
      let (sent, w') = broadcast event w in
      elim sent [
        | err text ↦ revert r text w'
        | ok _ ↦
            let (saved, w'') = save_row (done r) w' in
            elim saved [ ok _ ↦ (ok tt, w'') | err text ↦ revert (done r) text w'' ]
      ]

  abbrev pub lost : LocalEventDispatchEntity → LocalEventDispatchEntity
  lost r = record r {
    status = dead;
    last_error = some "Canonical journal event not found for dispatch.";
  }

  unfoldable pub dispatch_claimed :
      LocalEventDispatchEntity → Action (Dispatching P S) String (Unit {0})
  dispatch_claimed r w = elim (entry r.event_id) [
    | none ↦ save_row (lost r) w
    | some e ↦ dispatch_event r (event_of e) w
  ]

  unfoldable pub dispatch_all :
      List LocalEventDispatchEntity → Action (Dispatching P S) String (Unit {0})
  dispatch_all [] = pure tt
  dispatch_all (r ∷ rs) = do save_row (claimed r); dispatch_claimed (claimed r); dispatch_all rs

  -- `dispatchPendingEvents`, one transaction: a throw rolls the rows back, but not what the bus received.
  unfoldable pub dispatch_pending_events : Action (Dispatching P S) String (Unit {0})
  dispatch_pending_events w =
      let (r, w') = dispatch_all (Q.find_pending w.rows batch_size) w in
      elim r [ ok _ ↦ (ok tt, w') | err text ↦ (err text, record w { received = w'.received }) ]
