-- ===== src/Tenancy/Tests/Aggregates.antt =====
-- The theorems on tenancies, handover protocols and the saving of a tenancy at concrete inputs.
use flatrent.Shared.Http.{error, answer}
use flatrent.Tenancy.Statuses.{answer-tenancy_status}
use flatrent.Tenancy.Errors.{message, dates_overlap}
use flatrent.Base.Text.{codes}
use flatrent.Base.{none, ℕ, ◌≡◌, refl, List, [], ◌∷◌}
use flatrent.Shared.{DomainEvent}
use flatrent.Tenancy.Handover.{HandoverProtocol}
use flatrent.Tenancy.Lease.{Tenancy}
use flatrent.Tenancy.Lease.Lifecycle.{Call, activation, notice, ending, run, run-Evolves, Evolves}
use flatrent.Tenancy.Database.{handover_to_domain}
use flatrent.Tenancy.UseCases.Activation.{loaded}
use flatrent.Tenancy.Tests.{sql, reserved_tenancy, protocol}

abbrev lease : Tenancy
lease = loaded sql reserved_tenancy

abbrev own_protocol : HandoverProtocol
own_protocol = handover_to_domain protocol

abbrev calls : List Call
calls = activation own_protocol 150 70 ∷ ending ∷ notice 160 ∷ []

run-Evolves_example : Evolves (run calls lease).0 lease (run calls lease).1
run-Evolves_example = run-Evolves calls lease

abbrev event : ℕ → DomainEvent ℕ
event id = record {
  event_id = id;
  event_type = "E";
  event_version = 1;
  occurred_at = 0;
  aggregate_id = 1;
  aggregate_type = "A";
  aggregate_version = 1;
  payload = 0;
}

answer-tenancy_status_example :
    (answer 0 (codes "/accept") (error (codes (message "failed" dates_overlap)) none)).status ≡ 500
answer-tenancy_status_example =
    answer-tenancy_status "failed" 0 (codes "/accept") dates_overlap none refl
