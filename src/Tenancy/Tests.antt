-- ===== src/Tenancy/Tests.antt =====
-- The theorems on the tenancy use cases at concrete inputs, with the tables kept in lists.
mod Aggregates
mod Consumer
mod Relaying
mod Migrating
mod Serving
use flatrent.Base.{
  ℕ, ◌≡◌, ◌≢◌, ◌⊎◌, ◌+◌, ◌≤◌, ◌++◌, refl, String, Bool, true, false, Option, none, some, List, [],
  ◌∷◌, Uuid, Date, Result, ok, err, arith, Option-cases, inl, inr,
}
use flatrent.Base.Int.{pos, negsuc, ℤ}
use flatrent.Base.Memory.{memory}
use flatrent.Shared.{new_root, set_version, acknowledge_committed_domain_events}
use flatrent.Tenancy.Invitation.{accept}
use flatrent.Tenancy.Errors.{
  Error, TenancyStatus, InvitationStatus, reserved, active, pending, accepted, version_mismatch,
  negative_reading, protocol_closed, readiness_stale,
}
use flatrent.Tenancy.Handover.{HandoverProtocol, new_handover, fill_and_close}
use flatrent.Tenancy.Handover.Sealing.{
  sealed_handover, fill_and_close_new, fill_and_close_negative, closed_forever,
}
use flatrent.Tenancy.Lease.{Tenancy, new_tenancy, activate}
use flatrent.Tenancy.Lease.Lifecycle.{
  Call, activation, notice, ending, run, run-Evolves, run_le_three, Evolves, activate_outcomes,
}
use flatrent.Tenancy.Database.{
  Schema, Db, TenancyEntity, TenancyInvitationEntity, HandoverProtocolEntity,
  RentalUnitReadinessProjectionEntity, ProjectionStatus, gap_detected, handover_to_domain,
}
use flatrent.Tenancy.Repositories.{save_tenancy, save_invitation, persist_events, find_tenancy}
use flatrent.Tenancy.Repositories.Versions.{save_tenancy-Writes, save_tenancy_conflict}
use flatrent.Tenancy.Readiness.{
  Payload, Envelope, process, duplicate_message_skip, assert_ready_to_lease, advance, Message,
  Worker, malformed, envelope, handle, poll_and_process,
}
use flatrent.Tenancy.UseCases.{
  AcceptInvitationCommand, AcceptInvitationResult, TenancyResult, accept_invitation,
  activate_tenancy,
}
use flatrent.Tenancy.UseCases.Activation.{
  loaded, IsActivable, IsRecorded, activate_tenancy-IsActivable, activate_tenancy-IsRecorded,
}
use flatrent.Tenancy.UseCases.Acceptance.{
  IsAcceptable, IsReserved, accept_invitation-IsReserved, accept_invitation_taken_id,
  accept_invitation_only_once, accepted_row,
}
use flatrent.Tenancy.UseCases.Occupancy.{Reach, Step, IsExclusive, Reach-IsExclusive}

-- Tables that accept every row.
abbrev pub sql : Schema
sql = record {
  Units = _;
  Invitations = _;
  Handovers = _;
  Tenancies = _;
  Journal = _;
  Dispatches = _;
  Outbox = _;
  Projections = _;
  Inbox = _;
  units = memory (λ r. r.id) (λ s r. true);
  invitations = memory (λ r. r.id) (λ s r. true);
  handovers = memory (λ r. r.id) (λ s r. true);
  tenancies = memory (λ r. r.id) (λ s r. true);
  journal = memory (λ r. r.event_id) (λ s r. true);
  dispatches = memory (λ r. r.event_id) (λ s r. true);
  outbox = memory (λ r. r.message_id) (λ s r. true);
  projections = memory (λ r. r.rental_unit_id) (λ s r. true);
  inbox = memory (λ r. r.message_id) (λ s r. true);
}

abbrev pub invited : TenancyInvitationEntity
invited = record {
  id = 1;
  rental_unit_id = 2;
  tenant_email = "t@example.org";
  expires_at = 100;
  status = pending;
  version = 0;
}

abbrev pub protocol : HandoverProtocolEntity
protocol = record {
  id = 6;
  tenancy_id = 5;
  meter_readings = [];
  checklist = [];
  is_closed = true;
  version = 1;
}

abbrev pub with_invitation : Db sql
with_invitation = record {
  units = [];
  invitations = invited ∷ [];
  handovers = protocol ∷ [];
  tenancies = [];
  journal = [];
  dispatches = [];
  outbox = [];
  projections = [];
  inbox = [];
}

abbrev acceptance : AcceptInvitationCommand
acceptance = record {
  invitation_id = 1;
  tenant_id = 3;
  tenancy_id = 5;
  start_date = 200;
  end_date = 300;
}

abbrev accepted_result : AcceptInvitationResult
accepted_result = record { tenancy_id = 5; rental_unit_id = 2; status = reserved }

abbrev pub reserved_tenancy : TenancyEntity
reserved_tenancy = record {
  id = 5;
  rental_unit_id = 2;
  tenant_id = 3;
  start_date = 200;
  end_date = 300;
  status = reserved;
  notice_date = none;
  version = 0;
}

abbrev pub with_tenancy : Db sql
with_tenancy = record with_invitation {
  invitations = record invited { status = accepted; version = 1 } ∷ invited ∷ [];
  tenancies = reserved_tenancy ∷ [];
}

accepts :
    accept_invitation sql "" 50 acceptance with_invitation ≡ (ok accepted_result, with_tenancy)
unfolding accept_invitation save_invitation save_tenancy persist_events accept new_tenancy
    acknowledge_committed_domain_events
accepts = refl

none_meet : IsExclusive sql with_invitation.tenancies
none_meet j k a b fa fb oa ob m = absurd (ground arith)

Reach-IsExclusive_example :
    IsExclusive sql
      (activate_tenancy sql 70 150 5 6
        (accept_invitation sql "" 50 acceptance with_invitation).1).1.tenancies
Reach-IsExclusive_example =
    Reach-IsExclusive sql
      (Reach.next (Reach.next Reach.here (Step.acceptance "" 50 acceptance))
        (Step.activation 70 150 5 6))
      none_meet

accept_invitation-IsReserved_example :
    (a : IsAcceptable sql "" 50 acceptance with_invitation) × IsReserved sql "" 50 acceptance
      with_invitation with_tenancy a.row
accept_invitation-IsReserved_example =
    accept_invitation-IsReserved sql "" 50 acceptance with_invitation with_tenancy accepted_result
      accepts

pub activates : activate_tenancy sql 70 150 5 6 with_tenancy ≡ (
  ok (record { tenancy_id = 5; status = active }),
  (activate_tenancy sql 70 150 5 6 with_tenancy).1,
)
unfolding activate_tenancy save_tenancy persist_events find_tenancy assert_ready_to_lease activate
    acknowledge_committed_domain_events
activates = refl

activate_tenancy-IsActivable_example : IsActivable sql with_tenancy 5 6
activate_tenancy-IsActivable_example =
    activate_tenancy-IsActivable sql 70 150 5 6 with_tenancy activates

activate_tenancy-IsRecorded_example :
    (a : IsActivable sql with_tenancy 5 6) × IsRecorded sql
      (activate_tenancy sql 70 150 5 6 with_tenancy).1
      150
      70
      a.row
activate_tenancy-IsRecorded_example =
    activate_tenancy-IsRecorded sql 70 150 5 6 with_tenancy activates

-- The id of the new tenancy is taken by a tenancy of another unit.
abbrev other_tenancy : TenancyEntity
other_tenancy = record reserved_tenancy { rental_unit_id = 9 }

abbrev with_taken_id : Db sql
with_taken_id = record with_invitation { tenancies = other_tenancy ∷ [] }

acceptable : IsAcceptable sql "" 50 acceptance with_taken_id
acceptable = record {
  row = invited;
  found = refl;
  was_pending = refl;
  in_time = ground arith;
  free = λ k e stored. ground arith;
  ordered = ground arith;
}

accept_invitation_taken_id_example :
    (accept_invitation sql "" 50 acceptance with_taken_id ≡ (
      err version_mismatch,
      record with_taken_id {
        invitations = record invited { status = accepted; version = 1 } ∷ invited ∷ [];
      },
    ))
    × (sql.invitations.find_one (record invited { status = accepted; version = 1 } ∷ invited ∷ []) 1
        ≡ some (record invited { status = accepted; version = 1 }))
unfolding acceptable
accept_invitation_taken_id_example =
    accept_invitation_taken_id sql "" 50 acceptance with_taken_id other_tenancy
      (record invited { status = accepted; version = 1 } ∷ invited ∷ []) acceptable refl refl refl
