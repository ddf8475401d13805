-- ===== src/Integration.antt =====
-- What the maintenance module publishes, as the tenancy module's readiness projection receives it:
-- every message of a request, in the order of the saves, each once.
pub mod Readiness
pub mod Admission
mod Tests
use flatrent.Base.{
  ℕ, Bool, true, false, Option, none, some, List, [], ◌∷◌, ◌++◌, Uuid, Date, Result, ok, err,
  String,
}
use flatrent.Base.Int.{pos}
use flatrent.Maintenance.Request.{MaintenanceRequest, Error}
use flatrent.Maintenance.Request.Lifecycle.{Call, apply}
use flatrent.Maintenance.Dynamo.{MaintenanceMessage, OutboxItem}
use flatrent.Maintenance.Repository.{outbox_of}
use flatrent.Tenancy.Readiness.{Payload}

-- The payload as the envelope's schema reads it.
abbrev pub received : MaintenanceMessage → Payload
received m = record {
  request_id = m.request_id;
  rental_unit_id = m.rental_unit_id;
  is_blocking = m.is_blocking;
  version = pos m.version;
}

abbrev pub payload_of : Option OutboxItem → List Payload
payload_of none = []
payload_of (some o) = received o.payload_json ∷ []

-- The payloads that a save publishes.
abbrev pub published : MaintenanceRequest → List Payload
published q = payload_of (outbox_of q 0 0)

abbrev pub published_after : Result Error (Unit {0}) → MaintenanceRequest → List Payload
published_after (ok _) q = published q
published_after (err _) q = []

-- Each call that returns is followed by a save.
pub publish_calls : List Call → MaintenanceRequest → List Payload
publish_calls [] q = []
publish_calls (c ∷ cs) q = let (r, q') = apply c q in published_after r q' ++ publish_calls cs q'

-- The messages of a request from its opening on.
unfoldable pub publish_request : List Call → MaintenanceRequest → List Payload
unfolding publish_calls
publish_request cs q = published q ++ publish_calls cs q
