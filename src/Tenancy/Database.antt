-- ===== src/Tenancy/Database.antt =====
-- The tenancy database: its tables, one write to each, and the mappers between rows and aggregates,
-- tenancy/infrastructure/persistence/*.mapper.ts.
mod Entities
pub use Entities.*
use flatrent.Base.{ℕ, String, Bool, Option, none, some, Uuid, Date, Result, ok, err, Action, Table}
use flatrent.Base.Int.{ℤ}
use flatrent.Shared.{set_version, new_root}
use flatrent.Tenancy.Errors.{Error, database_failure, TenancyStatus, InvitationStatus}
use flatrent.Tenancy.Handover.{Dict, HandoverProtocol}
use flatrent.Tenancy.Invitation.{TenancyInvitation}
use flatrent.Tenancy.Lease.{Tenancy, new_tenancy, RentalUnit, TenancyActivatedPayload}

-- What the code uses of the database: the contents of nine tables, and their operations.
pub record Schema : Type 1 where
  pub Units : Type 0
  pub Invitations : Type 0
  pub Handovers : Type 0
  pub Tenancies : Type 0
  pub Journal : Type 0
  pub Dispatches : Type 0
  pub Outbox : Type 0
  pub Projections : Type 0
  pub Inbox : Type 0
  pub units : Table Units RentalUnitEntity (λ r. r.id)
  pub invitations : Table Invitations TenancyInvitationEntity (λ r. r.id)
  pub handovers : Table Handovers HandoverProtocolEntity (λ r. r.id)
  pub tenancies : Table Tenancies TenancyEntity (λ r. r.id)
  pub journal : Table Journal DomainEventJournalEntity (λ r. r.event_id)
  pub dispatches : Table Dispatches LocalEventDispatchEntity (λ r. r.event_id)
  pub outbox : Table Outbox IntegrationOutboxEntity (λ r. r.message_id)
  pub projections : Table Projections RentalUnitReadinessProjectionEntity (λ r. r.rental_unit_id)
  pub inbox : Table Inbox InboxEntity (λ r. r.message_id)

pub record Db (M : Schema) : Type 0 where
  pub units : M.Units
  pub invitations : M.Invitations
  pub handovers : M.Handovers
  pub tenancies : M.Tenancies
  pub journal : M.Journal
  pub dispatches : M.Dispatches
  pub outbox : M.Outbox
  pub projections : M.Projections
  pub inbox : M.Inbox

module _ (M : Schema) where
  abbrev pub save_unit_row : RentalUnitEntity → Action (Db M) Error (Unit {0})
  save_unit_row r db = elim (M.units.save db.units r) [
    | none ↦ (err database_failure, db)
    | some rows ↦ (ok tt, record db { units = rows })
  ]

  abbrev pub save_invitation_row : TenancyInvitationEntity → Action (Db M) Error (Unit {0})
  save_invitation_row r db = elim (M.invitations.save db.invitations r) [
    | none ↦ (err database_failure, db)
    | some rows ↦ (ok tt, record db { invitations = rows })
  ]

  abbrev pub save_handover_row : HandoverProtocolEntity → Action (Db M) Error (Unit {0})
  save_handover_row r db = elim (M.handovers.save db.handovers r) [
    | none ↦ (err database_failure, db)
    | some rows ↦ (ok tt, record db { handovers = rows })
  ]

  abbrev pub save_tenancy_row : TenancyEntity → Action (Db M) Error (Unit {0})
  save_tenancy_row r db = elim (M.tenancies.save db.tenancies r) [
    | none ↦ (err database_failure, db)
    | some rows ↦ (ok tt, record db { tenancies = rows })
  ]

  abbrev pub save_journal_row : DomainEventJournalEntity → Action (Db M) Error (Unit {0})
  save_journal_row r db = elim (M.journal.save db.journal r) [
    | none ↦ (err database_failure, db)
    | some rows ↦ (ok tt, record db { journal = rows })
  ]

  abbrev pub save_dispatch_row : LocalEventDispatchEntity → Action (Db M) Error (Unit {0})
  save_dispatch_row r db = elim (M.dispatches.save db.dispatches r) [
    | none ↦ (err database_failure, db)
    | some rows ↦ (ok tt, record db { dispatches = rows })
  ]

  abbrev pub save_outbox_row : IntegrationOutboxEntity → Action (Db M) Error (Unit {0})
  save_outbox_row r db = elim (M.outbox.save db.outbox r) [
    | none ↦ (err database_failure, db)
    | some rows ↦ (ok tt, record db { outbox = rows })
  ]

  abbrev pub save_projection_row :
      RentalUnitReadinessProjectionEntity → Action (Db M) Error (Unit {0})
  save_projection_row r db = elim (M.projections.save db.projections r) [
    | none ↦ (err database_failure, db)
    | some rows ↦ (ok tt, record db { projections = rows })
  ]

  abbrev pub save_inbox_row : InboxEntity → Action (Db M) Error (Unit {0})
  save_inbox_row r db = elim (M.inbox.save db.inbox r) [
    | none ↦ (err database_failure, db)
    | some rows ↦ (ok tt, record db { inbox = rows })
  ]

-- rental-unit.mapper.ts
abbrev pub unit_to_entity : RentalUnit → RentalUnitEntity
unit_to_entity u = record {
  id = u.id;
  owner_id = u.owner_id;
  address = u.address;
  version = u.aggregate_version;
}

abbrev pub unit_to_domain : RentalUnitEntity → RentalUnit
unit_to_domain e = record {
  root = set_version e.version (new_root e.id);
  owner_id = e.owner_id;
  address = e.address;
}

-- tenancy-invitation.mapper.ts
abbrev pub invitation_to_entity : TenancyInvitation → TenancyInvitationEntity
invitation_to_entity i = record {
  id = i.id;
  rental_unit_id = i.rental_unit_id;
  tenant_email = i.tenant_email;
  expires_at = i.expires_at;
  status = i.status;
  version = i.aggregate_version;
}

abbrev pub invitation_to_domain : TenancyInvitationEntity → TenancyInvitation
invitation_to_domain e = record {
  root = set_version e.version (new_root e.id);
  rental_unit_id = e.rental_unit_id;
  tenant_email = e.tenant_email;
  expires_at = e.expires_at;
  status = e.status;
}

-- handover-protocol.mapper.ts
abbrev pub handover_to_entity : HandoverProtocol → HandoverProtocolEntity
handover_to_entity h = record {
  id = h.id;
  tenancy_id = h.tenancy_id;
  meter_readings = h.meter_readings;
  checklist = h.checklist;
  is_closed = h.is_closed;
  version = h.aggregate_version;
}

abbrev pub handover_to_domain : HandoverProtocolEntity → HandoverProtocol
handover_to_domain e = record {
  root = set_version e.version (new_root e.id);
  tenancy_id = e.tenancy_id;
  meter_readings = e.meter_readings;
  checklist = e.checklist;
  is_closed = e.is_closed;
}

-- tenancy.mapper.ts; the constructor checks the dates of the row.
abbrev pub tenancy_to_entity : Tenancy → TenancyEntity
tenancy_to_entity t = record {
  id = t.id;
  rental_unit_id = t.rental_unit_id;
  tenant_id = t.tenant_id;
  start_date = t.start_date;
  end_date = t.end_date;
  status = t.status;
  notice_date = t.notice_date;
  version = t.aggregate_version;
}

abbrev pub with_version : ℕ → Result Error Tenancy → Result Error Tenancy
with_version version (ok t) = ok (record t { root = set_version version t.root })
with_version version (err e) = err e

unfoldable pub tenancy_to_domain : TenancyEntity → Result Error Tenancy
unfolding new_tenancy
tenancy_to_domain e =
    with_version e.version
      (new_tenancy e.id e.rental_unit_id e.tenant_id e.start_date e.end_date e.status e.notice_date)
