-- ===== src/Integration/Tests.antt =====
-- The theorems on what a unit's readiness makes of a request, at concrete inputs.
mod Admitting
use flatrent.Base.{◌≡◌, refl, true, false, not, [], ◌∷◌, ◌++◌}
use flatrent.Base.Int.{pos}
use flatrent.Base.Text.{trim, includes_codes, to_lower_case}
use flatrent.Maintenance.Request.{MaintenanceRequest, new_request, is_emergency, is_blank}
use flatrent.Maintenance.Request.Lifecycle.{resolution}
use flatrent.Maintenance.Repository.{outbox_of}
use flatrent.Tenancy.Database.{RentalUnitReadinessProjectionEntity, active, gap_detected}
use flatrent.Tenancy.Readiness.{new_projection}
use flatrent.Tenancy.Readiness.Projection.{deliver}
use flatrent.Integration.{publish_request}
use flatrent.Integration.Readiness.{
  visits, deliver_unvisited, deliver_visited, deliver_later_opening,
}

abbrev leak : MaintenanceRequest
leak = new_request 8 2 3 "A LEAK in the kitchen"

is_blank-fixed : is_blank "fixed" ≡ false
unfolding is_blank trim
is_blank-fixed = refl

deliver_visited_example :
    deliver
      (publish_request (visits ((50, "h1") ∷ []) ++ resolution "fixed" ∷ []) leak)
      (new_projection 2)
    ≡ record {
      rental_unit_id = 2;
      is_ready = not (is_emergency "A LEAK in the kitchen");
      last_processed_version = pos 0;
      status = gap_detected;
    }
deliver_visited_example =
    deliver_visited 8 2 3 "A LEAK in the kitchen" "fixed" (50, "h1") [] is_blank-fixed

deliver_later_opening_example :
    deliver
      (publish_request [] (new_request 8 2 3 "Squeaky door")
        ++ publish_request [] (new_request 9 2 4 "A LEAK in the kitchen"))
      (new_projection 2)
    ≡ deliver (publish_request [] (new_request 8 2 3 "Squeaky door")) (new_projection 2)
unfolding publish_request outbox_of
deliver_later_opening_example =
    deliver_later_opening 8 9 2 3 4 "Squeaky door" "A LEAK in the kitchen" [] []
