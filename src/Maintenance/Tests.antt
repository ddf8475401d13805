-- ===== src/Maintenance/Tests.antt =====
-- The theorems on the maintenance module at concrete inputs, with the table kept as a list of puts.
mod Relaying
use flatrent.Base.{
  ℕ, ◌≡◌, ◌≢◌, refl, String, Bool, true, false, Option, none, some, List, [], ◌∷◌, Date, Result, ok,
  err, arith,
}
use flatrent.Maintenance.Request.{
  MaintenanceRequest, new_request, active_tenancy_required, schedule_visit, resolve, is_emergency,
}
use flatrent.Maintenance.Request.Lifecycle.{
  Call, visit, resolution, rejection, run, IsConsistent, Evolves, run-IsConsistent, run_closed,
}
use flatrent.Maintenance.Dynamo.{Dynamo, Put, Key, Item, RequestItem, always}
use flatrent.Maintenance.Dynamo.Memory.{memory}
use flatrent.Maintenance.Repository.{save, request_of, find_by_id, outbox_of, verify_active_access}
use flatrent.Maintenance.Repository.Saving.{save_once_per_version, request_of-save}
use flatrent.Maintenance.UseCases.{OpenRequestCommand, OpenRequestResult, open_request}
use flatrent.Maintenance.UseCases.Opening.{IsOpened, open_request-IsOpened, open_request_unreadable}

abbrev pub table : Dynamo (List Put)
table = memory (λ s ps. false) (λ s k. true)

abbrev size : RequestItem → ℕ
size i = 300

abbrev fresh : MaintenanceRequest
fresh = new_request 8 2 3 "A leak"

fresh-IsConsistent : IsConsistent fresh
fresh-IsConsistent = record {
  closed = refl;
  urgent = refl;
  explained = λ e. absurd (ground arith);
  visited = λ e. absurd (ground arith);
  assigned = λ e. absurd (ground arith);
}

abbrev saved : List Put
saved = (save table size fresh 40 9 []).1

saves : save table size fresh 40 9 [] ≡ (ok tt, saved)
unfolding save outbox_of
saves = refl

save_once_per_version_example : save table size fresh 41 10 saved ≢ (ok tt, saved)
save_once_per_version_example =
    save_once_per_version table size fresh fresh 40 41 9 10 [] saved saved saves refl refl

request_of-save_example : request_of table (table.item saved (Key.request 8)) ≡ some fresh
request_of-save_example =
    request_of-save table size fresh 40 9 [] saved saves fresh-IsConsistent refl refl refl

abbrev pub tenant : List Put
tenant =
    record {
      item =
          Item.access
            (record { tenant_id = 3; rental_unit_id = 2; tenancy_id = 5; is_active = true });
      condition = always;
    }
    ∷ []

abbrev command : OpenRequestCommand
command = record { id = 8; rental_unit_id = 2; reporter_id = 3; description = "A leak" }

abbrev opened_result : OpenRequestResult
opened_result = record {
  id = 8;
  rental_unit_id = 2;
  status = fresh.status;
  is_emergency = fresh.emergency;
}

opens :
    open_request table size 40 9 command tenant
    ≡ (ok opened_result, (open_request table size 40 9 command tenant).1)
unfolding open_request save outbox_of verify_active_access find_by_id
opens = refl

open_request-IsOpened_example :
    IsOpened table size 40 9 command tenant (open_request table size 40 9 command tenant).1
open_request-IsOpened_example =
    open_request-IsOpened table size 40 9 command tenant
      (open_request table size 40 9 command tenant).1 opened_result opens
