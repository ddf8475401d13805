-- ===== src/Tenancy/UseCases/Activation.antt =====
-- What an activation has checked and written when it returns.
use flatrent.Base.{
  ◌≡◌, ◌+◌, true, false, Option, none, some, Uuid, Date, ok, arith, Option-cases, Result-cases, inl,
  inr, ltb,
}
use flatrent.Tenancy.Errors.{reserved, active}
use flatrent.Tenancy.Lease.{Tenancy, activated, tenancy_activated}
use flatrent.Tenancy.Lease.Lifecycle.{activate-eq-ok}
use flatrent.Shared.{new_root, set_version}
use flatrent.Tenancy.Database.{
  Schema, Db, TenancyEntity, HandoverProtocolEntity, RentalUnitReadinessProjectionEntity,
}
use flatrent.Tenancy.Database.{ProjectionStatus, handover_to_domain}
use flatrent.Tenancy.Repositories.{
  find_tenancy, save_tenancy, persist_events, journal_entry, dispatch_row, outbox_row,
}
use flatrent.Tenancy.Readiness.{assert_ready_to_lease}
use flatrent.Tenancy.UseCases.{TenancyResult, result_of, activate_tenancy}

-- No projection, or one that is up to date and ready.
abbrev pub IsLeasable : Option RentalUnitReadinessProjectionEntity → Type 0
IsLeasable none = Unit
IsLeasable (some p) = (p.status ≡ ProjectionStatus.active) × (p.is_ready ≡ true)

module _ (M : Schema) where
  -- The rows that an activation has found good.
  pub record IsActivable (db : Db M) (id handover_id : Uuid) : Type 0 where
    pub row : TenancyEntity
    pub found : M.tenancies.find_one db.tenancies id ≡ some row
    pub was_reserved : row.status ≡ reserved
    pub dated : ltb row.end_date row.start_date ≡ false
    pub protocol : HandoverProtocolEntity
    pub protocol_found : M.handovers.find_one db.handovers handover_id ≡ some protocol
    pub own_protocol : protocol.tenancy_id ≡ row.id
    pub closed_protocol : protocol.is_closed ≡ true
    pub leasable : IsLeasable (M.projections.find_one db.projections row.rental_unit_id)

  abbrev pub loaded : TenancyEntity → Tenancy
  loaded e = record {
    root = set_version e.version (new_root e.id);
    rental_unit_id = e.rental_unit_id;
    tenant_id = e.tenant_id;
    start_date = e.start_date;
    end_date = e.end_date;
    status = e.status;
    notice_date = e.notice_date;
  }

  module _ (event_id : Uuid) (at : Date) (id handover_id : Uuid) (db : Db M) where
    -- An activation returns only if the tenancy is stored as reserved, the named handover protocol is
    -- stored, belongs to this tenancy and is closed, and no maintenance issue and no gap in the
    -- maintenance messages is known for the unit.
    pub activate_tenancy-IsActivable :
        {db' : Db M} {r : TenancyResult}
        → activate_tenancy M event_id at id handover_id db ≡ (ok r, db')
        → IsActivable db id handover_id
    unfolding activate_tenancy find_tenancy assert_ready_to_lease
    activate_tenancy-IsActivable {r} e =
        elim (Option-cases (M.tenancies.find_one db.tenancies id)) [
          | inl missing ↦ absurd (ground arith)
          | inr (row, found) ↦ elim (Option-cases (M.handovers.find_one db.handovers handover_id)) [
            | inl missing ↦ absurd (ground arith)
            | inr (protocol, protocol_found) ↦
                let done = activate-eq-ok (handover_to_domain protocol) at event_id (loaded row) in
                record {
                  row = row;
                  found = found;
                  was_reserved = ground (arith, done);
                  dated = ground arith;
                  protocol = protocol;
                  protocol_found = protocol_found;
                  own_protocol = ground (arith, done);
                  closed_protocol = ground (arith, done);
                  leasable = ground arith;
                }
          ]
        ]

  -- The rows that an activation leaves behind.
  pub record IsRecorded (db : Db M) (at : Date) (event_id : Uuid) (row : TenancyEntity)
      : Type 0 where
    pub tenancy :
        M.tenancies.find_one db.tenancies row.id
        ≡ some (record row { status = active; version = row.version + 1 })
    pub journalled :
        M.journal.find_one db.journal event_id
        ≡ some
            (journal_entry 0 (tenancy_activated (activated at event_id (loaded row)) at event_id))
    pub to_dispatch :
        M.dispatches.find_one db.dispatches event_id
        ≡ some (dispatch_row (tenancy_activated (activated at event_id (loaded row)) at event_id))
    pub to_publish :
        M.outbox.find_one db.outbox event_id
        ≡ some (outbox_row (tenancy_activated (activated at event_id (loaded row)) at event_id))

  save_tenancy-IsRecorded :
      (event_id : Uuid) (at : Date) (row : TenancyEntity) (db db' : Db M) (t : Tenancy)
      → M.tenancies.find_one db.tenancies row.id ≡ some row
      → save_tenancy M (activated at event_id (loaded row)) db ≡ (ok t, db')
      → IsRecorded db' at event_id row
  unfolding save_tenancy persist_events
  save_tenancy-IsRecorded event_id at row db db' t found e =
      let event = tenancy_activated (activated at event_id (loaded row)) at event_id in
      ground (
        arith,
        M.tenancies.find_one-save db.tenancies db'.tenancies
            (record row { status = active; version = row.version + 1 }) row.id,
        M.journal.find_one-save db.journal db'.journal (journal_entry 0 event) event_id,
        M.dispatches.find_one-save db.dispatches db'.dispatches (dispatch_row event) event_id,
        M.outbox.find_one-save db.outbox db'.outbox (outbox_row event) event_id,
      )

  module _ (event_id : Uuid) (at : Date) (id handover_id : Uuid) (db : Db M) where
    saves_activated :
        {db' : Db M} {r : TenancyResult} (a : IsActivable db id handover_id)
        → activate_tenancy M event_id at id handover_id db ≡ (ok r, db')
        → (t : Tenancy) × (save_tenancy M (activated at event_id (loaded a.row)) db ≡ (ok t, db'))
          × (r ≡ result_of t)
    unfolding activate_tenancy find_tenancy assert_ready_to_lease
    saves_activated a e =
        let done = activate-eq-ok (handover_to_domain a.protocol) at event_id (loaded a.row) in
        elim (Result-cases (save_tenancy M (activated at event_id (loaded a.row)) db).0) [
          | inl (t, saved) ↦ (t, ground (arith, a, done), ground (arith, a, done))
          | inr (x, failed) ↦ absurd (ground (arith, a, done))
        ]

    -- When an activation returns, the tenancy is stored as active at the next version and otherwise
    -- as it was; and its event stands in the journal, is pending for local dispatch, and is pending
    -- in the outbox under the event's own id, all three with the tenancy's unit, tenant and dates.
    pub activate_tenancy-IsRecorded :
        {db' : Db M} {r : TenancyResult}
        → activate_tenancy M event_id at id handover_id db ≡ (ok r, db')
        → (a : IsActivable db id handover_id) × IsRecorded db' at event_id a.row
    activate_tenancy-IsRecorded {db'} e =
        let a = activate_tenancy-IsActivable event_id at id handover_id db e in
        let (t, saved, _) = saves_activated a e in
        (
          a,
          save_tenancy-IsRecorded event_id at a.row db db' t
              (rw (M.tenancies.find_one-key db.tenancies id a.row a.found) a.found) saved,
        )
