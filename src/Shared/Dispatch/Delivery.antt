-- ===== src/Shared/Dispatch/Delivery.antt =====
-- A row is marked as dispatched only after the bus has received its event.
use flatrent.Base.{Occurs, ◌≡◌, String, Option, some, List, Uuid, Date, ◌⊎◌}
use flatrent.Shared.{DomainEvent}
use flatrent.Shared.Journal.{DomainEventJournalEntity, LocalEventDispatchEntity, dispatched}
use flatrent.Shared.Dispatch.{DispatchTable, Dispatching, event_of}

module _ {P S : Type 0} (Q : DispatchTable S) (entry : Uuid → Option (DomainEventJournalEntity P))
    (driver : String) (publish : DomainEvent P → Option String) (clock : Uuid → Date) where
  -- The bus has received the event that the journal holds under the id.
  abbrev pub IsReceived : List (DomainEvent P) → Uuid → Type 0
  IsReceived received id =
      (e : DomainEventJournalEntity P) × (entry id ≡ some e) × Occurs (event_of e) received

  -- Every row that is dispatched was dispatched at the start, or its event has been received.
  abbrev pub IsAccounted : S → Dispatching P S → Type 0
  IsAccounted start w =
      (k : Uuid) (r : LocalEventDispatchEntity)
      → Q.rows.find_one w.rows k ≡ some r
      → r.status ≡ dispatched
      → (Q.rows.find_one start k ≡ some r) ⊎ IsReceived w.received k
