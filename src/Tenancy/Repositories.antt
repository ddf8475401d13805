-- ===== src/Tenancy/Repositories.antt =====
-- The TypeORM repositories, tenancy/infrastructure/persistence/typeorm-*.repository.ts, and
-- event-persistence.helper.ts. The use cases pass no `SaveOptions`: each statement runs on the
-- default entity manager, in a transaction of its own. A `save` returns the aggregate as the call
-- leaves it.
pub mod Versions
use text.Mathlib.Text.{◌==◌ as str_eq}
use flatrent.Base.{
  ℕ, suc, ◌+◌, String, Bool, true, false, ◌&&◌, ◌||◌, not, Option, none, some, List, [], ◌∷◌, map,
  Uuid, Date, Result, ok, err, Action, Table, pure, gets, lift, ◌>>=◌, ◌>>◌, leb, ◌==◌,
  if◌then◌else◌,
}
use flatrent.Shared.{
  DomainEvent, acknowledge_committed_domain_events, increment_version, peek_pending_domain_events,
}
use flatrent.Shared.Versions.{
  next_version, counted_version, version_of, increment_on_update, nil_uuid,
}
use flatrent.Tenancy.Errors.{Error, version_mismatch, active, reserved}
use flatrent.Tenancy.Handover.{HandoverProtocol}
use flatrent.Tenancy.Invitation.{TenancyInvitation}
use flatrent.Tenancy.Lease.{Tenancy, is_reserved, is_active, RentalUnit, TenancyActivatedPayload}
use flatrent.Tenancy.Database.{
  Schema, Db, TenancyEntity, DomainEventJournalEntity, LocalEventDispatchEntity,
  IntegrationOutboxEntity, DeliveryStatus, pending, save_unit_row, save_invitation_row,
  save_handover_row, save_tenancy_row, save_journal_row, save_dispatch_row, save_outbox_row,
  unit_to_entity, unit_to_domain, invitation_to_entity, invitation_to_domain, handover_to_entity,
  handover_to_domain, tenancy_to_entity, tenancy_to_domain,
}

-- Lines 33 to 47 of event-persistence.helper.ts.
abbrev pub journal_entry : ℕ → DomainEvent TenancyActivatedPayload → DomainEventJournalEntity
journal_entry index event = record {
  event_id = event.event_id;
  event_type = event.event_type;
  event_version = event.event_version;
  module_name = "tenancy";
  aggregate_type = event.aggregate_type;
  aggregate_id = event.aggregate_id;
  aggregate_version = event.aggregate_version;
  event_index = index;
  occurred_at = event.occurred_at;
  actor_id = none;
  command_id = nil_uuid;
  correlation_id = nil_uuid;
  causation_id = none;
  payload_json = event.payload;
}

-- Lines 52 to 58.
abbrev pub dispatch_row : DomainEvent TenancyActivatedPayload → LocalEventDispatchEntity
dispatch_row event = record {
  event_id = event.event_id;
  status = pending;
  attempt_count = 0;
  available_at = event.occurred_at;
  dispatched_at = none;
  last_error = none;
}

-- Lines 65 to 85.
abbrev pub outbox_row : DomainEvent TenancyActivatedPayload → IntegrationOutboxEntity
outbox_row event = record {
  message_id = event.event_id;
  event_type = "TenancyActivated.v1";
  event_version = 1;
  producer = "tenancy";
  source_domain_event_id = event.event_id;
  aggregate_type = event.aggregate_type;
  aggregate_id = event.aggregate_id;
  aggregate_version = event.aggregate_version;
  occurred_at = event.occurred_at;
  payload_json = record {
    tenancy_id = event.aggregate_id;
    rental_unit_id = event.payload.rental_unit_id;
    tenant_id = event.payload.tenant_id;
    start_date = event.payload.start_date;
    end_date = event.payload.end_date;
  };
  status = pending;
  attempt_count = 0;
  last_error = none;
}

module _ (M : Schema) where
  -- Only an activation is also an integration event.
  abbrev pub persist_outbox : DomainEvent TenancyActivatedPayload → Action (Db M) Error (Unit {0})
  persist_outbox event db =
      if str_eq event.event_type "TenancyActivatedDomainEvent"
      then save_outbox_row M (outbox_row event) db
      else (ok tt, db)

  -- `EventPersistenceHelper.persistEvents`
  abbrev pub persist_event :
      ℕ → DomainEvent TenancyActivatedPayload → Action (Db M) Error (Unit {0})
  persist_event index event = do
    save_journal_row M (journal_entry index event)
    save_dispatch_row M (dispatch_row event)
    persist_outbox event

  unfoldable pub persist_events :
      ℕ → List (DomainEvent TenancyActivatedPayload) → Action (Db M) Error (Unit {0})
  persist_events index [] = pure tt
  persist_events index (event ∷ events) =
      persist_event index event >> persist_events (suc index) events

  unfoldable pub find_tenancy : Uuid → Action (Db M) Error (Option Tenancy)
  unfolding tenancy_to_domain
  find_tenancy id db = elim (M.tenancies.find_one db.tenancies id) [
    | none ↦ (ok none, db)
    | some e ↦ (elim (tenancy_to_domain e) [ ok t ↦ ok (some t) | err x ↦ err x ], db)
  ]

  unfoldable pub save_tenancy : Tenancy → Action (Db M) Error Tenancy
  save_tenancy t = do
    version ← λ db. (
      counted_version version_mismatch t.aggregate_version
          (version_of (λ e. e.version) (M.tenancies.find_one db.tenancies t.id)),
      db,
    )
    save_tenancy_row M (record (tenancy_to_entity t) { version = version })
    persist_events 0 t.pending_events
    pure (record t {
      root = acknowledge_committed_domain_events (map (λ e. e.event_id) t.pending_events) t.root;
    })

  -- The condition of the query of `hasOverlappingTenancy`.
  abbrev pub overlaps : Uuid → Date → Date → TenancyEntity → Bool
  overlaps rental_unit_id start_date end_date e =
      e.rental_unit_id == rental_unit_id
      && (is_active e.status || is_reserved e.status)
      && leb e.start_date end_date
      && leb start_date e.end_date

  -- `hasOverlappingTenancy`; no caller excludes a tenancy.
  abbrev pub has_overlapping_tenancy : Uuid → Date → Date → Action (Db M) Error Bool
  has_overlapping_tenancy rental_unit_id start_date end_date db = (
    elim (M.tenancies.get_one db.tenancies (overlaps rental_unit_id start_date end_date)) [
      | none ↦ ok false
      | some _ ↦ ok true
    ],
    db,
  )

  abbrev pub find_invitation : Uuid → Action (Db M) Error (Option TenancyInvitation)
  find_invitation id db = elim (M.invitations.find_one db.invitations id) [
    | none ↦ (ok none, db)
    | some e ↦ (ok (some (invitation_to_domain e)), db)
  ]

  unfoldable pub save_invitation : TenancyInvitation → Action (Db M) Error TenancyInvitation
  save_invitation i db =
      let existing = M.invitations.find_one db.invitations i.id in
      (do
        version ← lift (
            next_version version_mismatch i.aggregate_version
              (version_of (λ e. e.version) existing))
        save_invitation_row M (record (invitation_to_entity i) { version = version })
        pure (increment_on_update (λ a. record a { root = increment_version a.root }) existing i))
        db

  abbrev pub find_handover : Uuid → Action (Db M) Error (Option HandoverProtocol)
  find_handover id db = elim (M.handovers.find_one db.handovers id) [
    | none ↦ (ok none, db)
    | some e ↦ (ok (some (handover_to_domain e)), db)
  ]

  unfoldable pub save_handover : HandoverProtocol → Action (Db M) Error HandoverProtocol
  save_handover h db =
      let existing = M.handovers.find_one db.handovers h.id in
      (do
        version ← lift (
            next_version version_mismatch h.aggregate_version
              (version_of (λ e. e.version) existing))
        save_handover_row M (record (handover_to_entity h) { version = version })
        pure (increment_on_update (λ a. record a { root = increment_version a.root }) existing h))
        db

  abbrev pub find_unit : Uuid → Action (Db M) Error (Option RentalUnit)
  find_unit id db = elim (M.units.find_one db.units id) [
    | none ↦ (ok none, db)
    | some e ↦ (ok (some (unit_to_domain e)), db)
  ]

  unfoldable pub save_unit : RentalUnit → Action (Db M) Error RentalUnit
  save_unit u db =
      let existing = M.units.find_one db.units u.id in
      (do
        version ← lift (
            next_version version_mismatch u.aggregate_version
              (version_of (λ e. e.version) existing))
        save_unit_row M (record (unit_to_entity u) { version = version })
        pure (increment_on_update (λ a. record a { root = increment_version a.root }) existing u))
        db
