-- ===== src/Maintenance/UseCases.antt =====
-- The use cases, maintenance/application/commands. The message id that `save` draws and the time
-- that it reads are arguments.
pub mod Opening
use flatrent.Base.{
  ℕ, String, Bool, not, Option, none, some, Uuid, Date, Result, ok, err, Action, pure, raise,
  or_raise, raise_if, gets, call, ◌>>=◌, ◌>>◌,
}
use flatrent.Maintenance.Request.{
  Error, request_not_found, active_tenancy_required, request_exists, MaintenanceRequest,
  new_request, schedule_visit, resolve, MaintenanceStatus,
}
use flatrent.Maintenance.Dynamo.{Dynamo, RequestItem}
use flatrent.Maintenance.Repository.{find_by_id, save, verify_active_access}

pub record OpenRequestCommand : Type 0 where
  pub id : Uuid
  pub rental_unit_id : Uuid
  pub reporter_id : Uuid
  pub description : String

pub record OpenRequestResult : Type 0 where
  pub id : Uuid
  pub rental_unit_id : Uuid
  pub status : MaintenanceStatus
  pub is_emergency : Bool

pub record ScheduleVisitResult : Type 0 where
  pub id : Uuid
  pub status : MaintenanceStatus
  pub visit_date : Option Date

pub record ResolveRequestResult : Type 0 where
  pub id : Uuid
  pub status : MaintenanceStatus
  pub is_closed : Bool

module _ {S : Type 0} (D : Dynamo S) (size : RequestItem → ℕ) (message_id : Uuid) (now : Date) where
  -- OpenRequestUseCase
  unfoldable pub open_request : OpenRequestCommand → Action S Error OpenRequestResult
  open_request c = do
    has_access ← gets (verify_active_access D c.reporter_id c.rental_unit_id)
    raise_if (not has_access) active_tenancy_required
    existing ← gets (find_by_id D c.id)
    let q = new_request c.id c.rental_unit_id c.reporter_id c.description
    elim existing [
      | some _ ↦ raise request_exists
      | none ↦ do
        save D size q message_id now
        pure (record {
          id = q.id;
          rental_unit_id = q.rental_unit_id;
          status = q.status;
          is_emergency = q.emergency;
        })
    ]

  -- ScheduleVisitUseCase
  unfoldable pub schedule_visit_of : Uuid → Date → String → Action S Error ScheduleVisitResult
  schedule_visit_of id visit_date handyman_id = do
    found ← gets (find_by_id D id)
    q ← or_raise found request_not_found
    called ← call (schedule_visit visit_date handyman_id) q
    save D size called.1 message_id now
    pure (record { id = called.1.id; status = called.1.status; visit_date = called.1.visit_date })

  -- ResolveRequestUseCase
  unfoldable pub resolve_request : Uuid → String → Action S Error ResolveRequestResult
  resolve_request id resolution_description = do
    found ← gets (find_by_id D id)
    q ← or_raise found request_not_found
    called ← call (resolve resolution_description) q
    save D size called.1 message_id now
    pure (record { id = called.1.id; status = called.1.status; is_closed = called.1.is_closed })
