-- ===== src/Shared.antt =====
-- The shared kernel, shared/: the aggregate base class and its pending domain events.
pub mod Acknowledge
pub mod Dispatch
pub mod Journal
pub mod Versions
pub mod Http
pub mod Logging
pub mod Metrics
pub mod Migrations
pub mod Validation
mod Tests
use flatrent.Base.{
  ℕ, zero, suc, ◌+◌, String, Bool, Option, none, some, List, [], ◌∷◌, ◌++◌, Uuid, Date, has, length,
  if◌then◌else◌,
}

-- shared/domain/domain-event.interface.ts; `P` is the module's type of payloads.
pub record DomainEvent (P : Type 0) : Type 0 where
  pub event_id : Uuid
  pub event_type : String
  pub event_version : ℕ
  pub occurred_at : Date
  pub aggregate_id : Uuid
  pub aggregate_type : String
  pub aggregate_version : ℕ
  pub payload : P

-- shared/domain/aggregate-root.ts
pub record AggregateRoot (P : Type 0) : Type 0 where
  pub id : Uuid
  pub pending_events : List (DomainEvent P)
  pub aggregate_version : ℕ

module _ {P : Type 0} where
  abbrev pub new_root : Uuid → AggregateRoot P
  new_root id = record { id = id; pending_events = []; aggregate_version = 0 }

  abbrev pub record_domain_event : DomainEvent P → AggregateRoot P → AggregateRoot P
  record_domain_event event root = record root {
    pending_events = root.pending_events ++ event ∷ [];
  }

  abbrev pub peek_pending_domain_events : AggregateRoot P → List (DomainEvent P)
  peek_pending_domain_events root = root.pending_events

  abbrev pub set_version : ℕ → AggregateRoot P → AggregateRoot P
  set_version version root = record root { aggregate_version = version }

  abbrev pub increment_version : AggregateRoot P → AggregateRoot P
  increment_version root = record root { aggregate_version = root.aggregate_version + 1 }

  -- `events[i]`
  abbrev pub get_elem? : List (DomainEvent P) → ℕ → Option (DomainEvent P)
  get_elem? [] i = none
  get_elem? (e ∷ es) zero = some e
  get_elem? (e ∷ es) (suc i) = get_elem? es i

  -- `events.splice(i, 1)`
  abbrev pub splice : List (DomainEvent P) → ℕ → List (DomainEvent P)
  splice [] i = []
  splice (e ∷ es) zero = es
  splice (e ∷ es) (suc i) = e ∷ splice es i

  -- One round of the loop of `acknowledgeCommittedDomainEvents`.
  abbrev pub splice_known : List Uuid → List (DomainEvent P) → ℕ → List (DomainEvent P)
  splice_known ids es i = elim (get_elem? es i) [
    | none ↦ es
    | some e ↦ if has ids e.event_id then splice es i else es
  ]

  -- `while (i--)`: the rounds i - 1, …, 0.
  pub acknowledge_from : List Uuid → ℕ → List (DomainEvent P) → List (DomainEvent P)
  acknowledge_from ids zero es = es
  acknowledge_from ids (suc i) es = acknowledge_from ids i (splice_known ids es i)

  unfoldable pub acknowledge_committed_domain_events : List Uuid → AggregateRoot P → AggregateRoot P
  unfolding acknowledge_from
  acknowledge_committed_domain_events ids root = record root {
    pending_events = acknowledge_from ids (length root.pending_events) root.pending_events;
  }
