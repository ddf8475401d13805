-- ===== src/Tenancy/Lease.antt =====
-- The tenancy aggregate and the rental unit, tenancy/domain/model/tenancy.aggregate.ts,
-- rental-unit.aggregate.ts, and the event of tenancy/domain/events/tenancy-activated.event.ts.
pub mod Lifecycle
use flatrent.Base.{
  ℕ, String, Bool, true, false, not, ◌&&◌, Option, none, some, Uuid, Date, Result, ok, err, Action,
  ltb, ◌==◌, if◌then◌else◌, ◌+◌,
}
use flatrent.Shared.{DomainEvent, AggregateRoot, new_root, record_domain_event, increment_version}
use flatrent.Tenancy.Errors.{
  Error, start_after_end, not_reserved, not_active, not_running, protocol_mismatch, protocol_open,
  TenancyStatus, reserved, active, ended, terminated,
}
use flatrent.Tenancy.Handover.{HandoverProtocol}

pub record TenancyActivatedPayload : Type 0 where
  pub rental_unit_id : Uuid
  pub tenant_id : Uuid
  pub start_date : Date
  pub end_date : Date

pub record Tenancy : Type 0 where
  pub root : AggregateRoot TenancyActivatedPayload
  pub open root use *
  pub rental_unit_id : Uuid
  pub tenant_id : Uuid
  pub start_date : Date
  pub end_date : Date
  pub status : TenancyStatus
  pub notice_date : Option Date

unfoldable pub new_tenancy :
    Uuid → Uuid → Uuid → Date → Date → TenancyStatus → Option Date → Result Error Tenancy
new_tenancy id rental_unit_id tenant_id start_date end_date status notice_date =
    if ltb end_date start_date
    then err start_after_end
    else ok (record {
      root = new_root id;
      rental_unit_id = rental_unit_id;
      tenant_id = tenant_id;
      start_date = start_date;
      end_date = end_date;
      status = status;
      notice_date = notice_date;
    })

abbrev pub is_reserved : TenancyStatus → Bool
is_reserved reserved = true
is_reserved _ = false

abbrev pub is_active : TenancyStatus → Bool
is_active active = true
is_active _ = false

abbrev pub is_terminated : TenancyStatus → Bool
is_terminated terminated = true
is_terminated _ = false

-- `new TenancyActivatedDomainEvent(…)`, at the version that the activation has given the tenancy
abbrev pub tenancy_activated : Tenancy → Date → Uuid → DomainEvent TenancyActivatedPayload
tenancy_activated t occurred_at event_id = record {
  event_id = event_id;
  event_type = "TenancyActivatedDomainEvent";
  event_version = 1;
  occurred_at = occurred_at;
  aggregate_id = t.id;
  aggregate_type = "Tenancy";
  aggregate_version = t.aggregate_version;
  payload = record {
    rental_unit_id = t.rental_unit_id;
    tenant_id = t.tenant_id;
    start_date = t.start_date;
    end_date = t.end_date;
  };
}

-- Lines 78 to 95 of `activate`.
abbrev pub activated : Date → Uuid → Tenancy → Tenancy
activated occurred_at event_id t =
    let t' : Tenancy = record t { status = active; root = increment_version t.root } in
    record t' { root = record_domain_event (tenancy_activated t' occurred_at event_id) t'.root }

unfoldable pub activate : HandoverProtocol → Date → Uuid → Action Tenancy Error (Unit {0})
activate handover occurred_at event_id t =
    if not (is_reserved t.status)
    then (err (not_reserved t.status), t)
    else if not (handover.tenancy_id == t.id)
    then (err protocol_mismatch, t)
    else if not handover.is_closed
    then (err protocol_open, t)
    else (ok tt, activated occurred_at event_id t)

unfoldable pub give_notice : Date → Action Tenancy Error (Unit {0})
give_notice notice_date t = if not (is_active t.status) then (err (not_active t.status), t) else (
  ok tt,
  record t { status = terminated; notice_date = some notice_date; root = increment_version t.root },
)

-- `end`
unfoldable pub end_tenancy : Action Tenancy Error (Unit {0})
end_tenancy t =
    if not (is_active t.status) && not (is_terminated t.status)
    then (err (not_running t.status), t)
    else (ok tt, record t { status = ended; root = increment_version t.root })

pub record RentalUnit : Type 0 where
  pub root : AggregateRoot (Unit {0})
  pub open root use *
  pub owner_id : Uuid
  pub address : String

abbrev pub new_rental_unit : Uuid → Uuid → String → RentalUnit
new_rental_unit id owner_id address = record {
  root = new_root id;
  owner_id = owner_id;
  address = address;
}
