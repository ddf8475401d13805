-- ===== src/Shared/Tests.antt =====
-- The local dispatch at concrete inputs, with the rows kept in a list and batches of one, and the logger.
use flatrent.Base.Text.{codes}
use flatrent.Shared.Http.{Text}
use flatrent.Shared.Logging.{
  Value, Fields, null, text, object, no_items, item, no_fields, field, info, log_message,
}
use flatrent.Shared.Logging.Redaction.{
  overwrite, overwrite_items, is_clean, are_clean_params, log_message-overwrite,
  log_message-is_clean,
}
use flatrent.Base.{
  ℕ, zero, suc, ◌≤◌, ◌≡◌, refl, String, Bool, true, false, Option, none, some, List, [], ◌∷◌, All,
  Uuid, length, arith,
}
use flatrent.Base.Memory.{memory, search_rows, search_rows-some}
use flatrent.Shared.{DomainEvent}
use flatrent.Shared.Journal.{
  DomainEventJournalEntity, LocalEventDispatchEntity, pending, processing, dispatched,
}
use flatrent.Shared.Dispatch.{DispatchTable, Dispatching}

abbrev is_pending : LocalEventDispatchEntity → Bool
is_pending r = elim (r.status) [ pending ↦ true | _ ↦ false ]

pending_status : (r : LocalEventDispatchEntity) → is_pending r ≡ true → r.status ≡ pending
pending_status r e = ground (arith, e)

abbrev first : Option LocalEventDispatchEntity → ℕ → List LocalEventDispatchEntity
first none n = []
first (some r) zero = []
first (some r) (suc n) = r ∷ []

abbrev next_pending : List LocalEventDispatchEntity → Option LocalEventDispatchEntity
next_pending s = search_rows (λ r. r.event_id) s is_pending s

abbrev IsStored : List LocalEventDispatchEntity → LocalEventDispatchEntity → Type 0
IsStored s r =
    (r.status ≡ pending)
    × ((memory (λ (x : LocalEventDispatchEntity). x.event_id) (λ s r. true)).find_one s r.event_id
        ≡ some r)

first-IsStored :
    (s : List LocalEventDispatchEntity) (o : Option LocalEventDispatchEntity) (n : ℕ)
    → next_pending s ≡ o
    → All (IsStored s) (first o n)
first-IsStored s none n e = tt
first-IsStored s (some r) zero e = tt
first-IsStored s (some r) (suc n) e =
    let (is_due, found) = search_rows-some (λ r. r.event_id) s is_pending s r e in
    ((pending_status r is_due, found), tt)

length-first : (o : Option LocalEventDispatchEntity) (n : ℕ) → length (first o n) ≤ n
length-first none n = ground arith
length-first (some r) zero = ground arith
length-first (some r) (suc n) = ground arith

abbrev table : DispatchTable (List LocalEventDispatchEntity)
table = record {
  rows = memory (λ r. r.event_id) (λ s r. true);
  find_pending = λ s n. first (next_pending s) n;
  find_pending-stored = λ s n. first-IsStored s (next_pending s) n refl;
  find_pending-length = λ s n. length-first (next_pending s) n;
}

abbrev waiting : LocalEventDispatchEntity
waiting = record {
  event_id = 9;
  status = pending;
  attempt_count = 0;
  available_at = 50;
  dispatched_at = none;
  last_error = none;
}

abbrev recorded : DomainEventJournalEntity ℕ
recorded = record {
  event_id = 9;
  event_type = "TenancyActivated";
  event_version = 1;
  module_name = "tenancy";
  aggregate_type = "Tenancy";
  aggregate_id = 5;
  aggregate_version = 1;
  event_index = 0;
  occurred_at = 50;
  actor_id = none;
  command_id = 0;
  correlation_id = 0;
  causation_id = none;
  payload_json = 7;
}

abbrev entry : Uuid → Option (DomainEventJournalEntity ℕ)
entry id = some recorded

abbrev accept : DomainEvent ℕ → Option String
accept e = none

abbrev stuck : LocalEventDispatchEntity
stuck = record {
  event_id = 8;
  status = processing;
  attempt_count = 1;
  available_at = 40;
  dispatched_at = none;
  last_error = none;
}

abbrev delivered : LocalEventDispatchEntity
delivered = record {
  event_id = 9;
  status = dispatched;
  attempt_count = 1;
  available_at = 50;
  dispatched_at = some 60;
  last_error = none;
}

abbrev idle : Dispatching ℕ (List LocalEventDispatchEntity)
idle = record { rows = waiting ∷ stuck ∷ []; received = [] }

abbrev credentials : Fields
credentials =
    field (codes "user") (text (codes "a@b.c"))
      (field (codes "Password") (text (codes "passw0rd")) no_fields)

abbrev secret : Text → Value
secret key = null

log_message-overwrite_example :
    log_message 0 info
      (overwrite secret (object credentials))
      none
      (overwrite_items secret no_items)
    ≡ log_message 0 info (object credentials) none no_items
log_message-overwrite_example =
    log_message-overwrite secret 0 info (object credentials) none no_items

log_message-is_clean_example :
    (is_clean
        (log_message 0 info
          (object credentials)
          none
          (item (object credentials) no_items)).1.message
      ≡ true)
    × (are_clean_params
          (log_message 0 info
            (object credentials)
            none
            (item (object credentials) no_items)).1.optional_params
        ≡ true)
log_message-is_clean_example =
    log_message-is_clean 0 info (object credentials) none (item (object credentials) no_items) refl
