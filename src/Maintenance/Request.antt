-- ===== src/Maintenance/Request.antt =====
-- The maintenance request and the emergency policy, maintenance/domain/model/
-- maintenance-request.aggregate.ts and maintenance/domain/policies/emergency.policy.ts, and what the
-- module throws.
pub mod Lifecycle
use flatrent.Base.{
  ℕ, String, Bool, true, false, not, ◌||◌, Option, none, some, List, [], ◌∷◌, Uuid, Date, Result,
  ok, err, Action, length, some_of, ◌==◌, if◌then◌else◌,
}
use flatrent.Base.Text.{codes, includes_codes, to_lower_case, trim}
use flatrent.Shared.{AggregateRoot, new_root, increment_version}

-- `enum MaintenanceStatus`
pub data MaintenanceStatus : Type 0 where
  opened scheduled resolved rejected : MaintenanceStatus

pub data Error : Type 0 where
  closed_not_scheduled closed_not_resolved closed_not_rejected empty_resolution : Error
  request_not_found active_tenancy_required request_exists : Error
  budget_exceeded : ℕ → Error
  lock_conflict : Error
  -- any other failure of the database client
  client_failure : Error

abbrev pub emergency_keywords : List String
emergency_keywords =
    "leak" ∷ "flood" ∷ "fire" ∷ "gas" ∷ "pipe break" ∷ "no power" ∷ "explosion" ∷ "short circuit"
    ∷ []

-- `MaintenanceEmergencyPolicy.isEmergency`; `!description` holds of the empty text.
unfoldable pub is_emergency : String → Bool
is_emergency description =
    if length (codes description) == 0
    then false
    else some_of (λ keyword. includes_codes (to_lower_case (codes description)) (codes keyword))
        emergency_keywords

pub record MaintenanceRequest : Type 0 where
  pub root : AggregateRoot (Unit {0})
  pub open root use *
  pub rental_unit_id : Uuid
  pub reporter_id : Uuid
  pub description : String
  pub status : MaintenanceStatus
  pub emergency : Bool
  pub assigned_handyman_id : Option String
  pub visit_date : Option Date
  pub resolution_description : Option String
  pub is_closed : Bool

-- The constructor; the arguments with defaults are passed on by the repository only.
abbrev pub restore_request :
    Uuid
    → Uuid
    → Uuid
    → String
    → MaintenanceStatus
    → Option String
    → Option Date
    → Option String
    → Bool
    → MaintenanceRequest
restore_request id rental_unit_id reporter_id description status handyman visit resolution closed =
    record {
      root = new_root id;
      rental_unit_id = rental_unit_id;
      reporter_id = reporter_id;
      description = description;
      status = status;
      emergency = is_emergency description;
      assigned_handyman_id = handyman;
      visit_date = visit;
      resolution_description = resolution;
      is_closed = closed;
    }

abbrev pub new_request : Uuid → Uuid → Uuid → String → MaintenanceRequest
new_request id rental_unit_id reporter_id description =
    restore_request id rental_unit_id reporter_id description opened none none none false

unfoldable pub schedule_visit : Date → String → Action MaintenanceRequest Error (Unit {0})
schedule_visit visit_date handyman_id q = if q.is_closed then (err closed_not_scheduled, q) else (
  ok tt,
  record q {
    status = scheduled;
    visit_date = some visit_date;
    assigned_handyman_id = some handyman_id;
    root = increment_version q.root;
  },
)

-- `!description || description.trim().length === 0`
unfoldable pub is_blank : String → Bool
is_blank description = length (codes description) == 0 || length (trim (codes description)) == 0

unfoldable pub resolve : String → Action MaintenanceRequest Error (Unit {0})
resolve description q =
    if q.is_closed
    then (err closed_not_resolved, q)
    else if is_blank description
    then (err empty_resolution, q)
    else (
      ok tt,
      record q {
        status = resolved;
        resolution_description = some description;
        is_closed = true;
        root = increment_version q.root;
      },
    )

unfoldable pub reject : Action MaintenanceRequest Error (Unit {0})
reject q =
    if q.is_closed
    then (err closed_not_rejected, q)
    else (ok tt, record q { status = rejected; is_closed = true; root = increment_version q.root })
