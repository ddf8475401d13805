-- ===== src/Integration/Tests/Admitting.antt =====
-- The way from an activation to the tenant's access, at concrete inputs.
use flatrent.Base.{◌≡◌, refl, String, true, some, List, []}
use flatrent.Shared.{acknowledge_committed_domain_events}
use flatrent.Tenancy.Errors.{active}
use flatrent.Tenancy.Database.{Db, IntegrationOutboxEntity}
use flatrent.Tenancy.Lease.{tenancy_activated, activated, activate}
use flatrent.Tenancy.Repositories.{outbox_row, save_tenancy, persist_events, find_tenancy}
use flatrent.Tenancy.Readiness.{assert_ready_to_lease}
use flatrent.Tenancy.Relay.{outbox_message}
use flatrent.Tenancy.UseCases.{activate_tenancy}
use flatrent.Tenancy.UseCases.Activation.{loaded}
use flatrent.Tenancy.Tests.{sql, with_tenancy, reserved_tenancy, activates}
use flatrent.Maintenance.Dynamo.{Put}
use flatrent.Maintenance.Repository.{verify_active_access}
use flatrent.Maintenance.Access.{ActivatedPayload, access_puts}
use flatrent.Maintenance.Tests.{table}
use flatrent.Integration.Admission.{received_activation, activate_tenancy-verify_active_access}

abbrev hash : ActivatedPayload → String
hash p = "hash"

abbrev after_activation : Db sql
after_activation = (activate_tenancy sql 70 150 5 6 with_tenancy).1

abbrev waiting : IntegrationOutboxEntity
waiting = outbox_row (tenancy_activated (activated 150 70 (loaded sql reserved_tenancy)) 150 70)

waits : sql.outbox.find_one after_activation.outbox 70 ≡ some waiting
unfolding activate_tenancy save_tenancy persist_events find_tenancy assert_ready_to_lease activate
    acknowledge_committed_domain_events
waits = refl

abbrev granted : List Put
granted = access_puts table hash 9 (λ r. true) (received_activation (outbox_message waiting))

activate_tenancy-verify_active_access_example : verify_active_access table 3 2 granted ≡ true
activate_tenancy-verify_active_access_example =
    activate_tenancy-verify_active_access sql table hash 9 (λ r. true) 70 150 5 6 with_tenancy
      after_activation (record { tenancy_id = 5; status = active }) reserved_tenancy waiting []
      granted activates refl waits refl refl
