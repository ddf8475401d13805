-- ===== src/Tenancy/UseCases.antt =====
-- The use cases, tenancy/application/commands and queries. Identifiers that a generator makes and
-- the time that the clock shows are arguments.
pub mod Activation
pub mod Acceptance
pub mod Occupancy
use flatrent.Base.{
  ℕ, String, Bool, true, false, Option, none, some, Uuid, Date, Result, ok, err, Action, pure,
  raise, or_raise, raise_if, call, lift, ◌>>=◌, ◌>>◌, if◌then◌else◌,
}
use flatrent.Base.Int.{ℤ}
use flatrent.Base.Text.{includes}
use flatrent.Tenancy.Errors.{
  Error, message, invitation_expired, invitation_invalid_state, dates_overlap, tenancy_not_found,
  handover_not_found, invitation_not_found, rental_unit_not_found, unit_exists, TenancyStatus,
  reserved,
}
use flatrent.Tenancy.Handover.{Dict, new_handover, fill_and_close}
use flatrent.Tenancy.Invitation.{TenancyInvitation, new_invitation, is_expired, accept}
use flatrent.Tenancy.Lease.{
  Tenancy, new_tenancy, activate, give_notice, end_tenancy, RentalUnit, new_rental_unit,
}
use flatrent.Tenancy.Database.{Schema, Db}
use flatrent.Tenancy.Repositories.{
  find_tenancy, save_tenancy, has_overlapping_tenancy, find_invitation, save_invitation,
  find_handover, save_handover, find_unit, save_unit,
}
use flatrent.Tenancy.Readiness.{assert_ready_to_lease}

pub record TenancyResult : Type 0 where
  pub tenancy_id : Uuid
  pub status : TenancyStatus

pub record AcceptInvitationCommand : Type 0 where
  pub invitation_id : Uuid
  pub tenant_id : Uuid
  pub tenancy_id : Uuid
  pub start_date : Date
  pub end_date : Date

pub record AcceptInvitationResult : Type 0 where
  pub tenancy_id : Uuid
  pub rental_unit_id : Uuid
  pub status : TenancyStatus

pub record ConfirmHandoverCommand : Type 0 where
  pub id : Uuid
  pub tenancy_id : Uuid
  pub meter_readings : Dict ℤ
  pub checklist : Dict Bool

pub record ConfirmHandoverResult : Type 0 where
  pub id : Uuid
  pub tenancy_id : Uuid
  pub is_closed : Bool

pub record TenancyReadModel : Type 0 where
  pub id : Uuid
  pub rental_unit_id : Uuid
  pub tenant_id : Uuid
  pub start_date : Date
  pub end_date : Date
  pub status : TenancyStatus
  pub notice_date : Option Date

pub record RegisterRentalUnitResult : Type 0 where
  pub id : Uuid
  pub owner_id : Uuid
  pub address : String

pub record InviteTenantResult : Type 0 where
  pub id : Uuid
  pub rental_unit_id : Uuid
  pub tenant_email : String

abbrev pub result_of : Tenancy → TenancyResult
result_of t = record { tenancy_id = t.id; status = t.status }

module _ (M : Schema) where
  -- RegisterRentalUnitUseCase
  unfoldable pub register_rental_unit :
      Uuid → Uuid → String → Action (Db M) Error RegisterRentalUnitResult
  register_rental_unit id owner_id address = do
    existing ← find_unit M id
    elim existing [
      | some _ ↦ raise unit_exists
      | none ↦ do
        saved ← save_unit M (new_rental_unit id owner_id address)
        pure (record { id = saved.id; owner_id = saved.owner_id; address = saved.address })
    ]

  -- InviteTenantUseCase
  unfoldable pub invite_tenant :
      Uuid → Uuid → String → Date → Action (Db M) Error InviteTenantResult
  invite_tenant id rental_unit_id tenant_email expires_at = do
    unit ← find_unit M rental_unit_id
    or_raise unit rental_unit_not_found
    saved ← save_invitation M (new_invitation id rental_unit_id tenant_email expires_at)
    pure (record {
      id = saved.id;
      rental_unit_id = saved.rental_unit_id;
      tenant_email = saved.tenant_email;
    })

  -- The `catch` of AcceptInvitationUseCase: `e.message?.includes('expired')`.
  abbrev pub accept_failed : String → Error → TenancyInvitation → Action (Db M) Error (Unit {0})
  accept_failed driver e invite db =
      if includes (message driver e) "expired"
      then (save_invitation M invite >> raise invitation_expired) db
      else (err invitation_invalid_state, db)

  -- `try { invite.accept(now); } catch …`: the invitation as it stands afterwards.
  abbrev pub try_accept : String → Date → TenancyInvitation → Action (Db M) Error TenancyInvitation
  try_accept driver now invite db =
      let (r, invite') = accept now invite in
      elim r [
        | ok _ ↦ (ok invite', db)
        | err e ↦ (accept_failed driver e invite' >> pure invite') db
      ]

  -- AcceptInvitationUseCase, after the loading of the invitation
  abbrev pub accept_loaded :
      String
      → Date
      → AcceptInvitationCommand
      → TenancyInvitation
      → Action (Db M) Error AcceptInvitationResult
  accept_loaded driver now c invite = do
    raise_if (is_expired now invite) invitation_expired
    overlap_exists ← has_overlapping_tenancy M invite.rental_unit_id c.start_date c.end_date
    raise_if overlap_exists dates_overlap
    accepted ← try_accept driver now invite
    tenancy ← lift (
        new_tenancy c.tenancy_id accepted.rental_unit_id c.tenant_id c.start_date c.end_date
          reserved none)
    save_invitation M accepted
    saved ← save_tenancy M tenancy
    pure (record {
      tenancy_id = saved.id;
      rental_unit_id = saved.rental_unit_id;
      status = saved.status;
    })

  unfoldable pub accept_invitation :
      String → Date → AcceptInvitationCommand → Action (Db M) Error AcceptInvitationResult
  accept_invitation driver now c = do
    found ← find_invitation M c.invitation_id
    invite ← or_raise found invitation_not_found
    accept_loaded driver now c invite

  -- ConfirmHandoverUseCase
  unfoldable pub confirm_handover :
      ConfirmHandoverCommand → Action (Db M) Error ConfirmHandoverResult
  confirm_handover c = do
    found ← find_tenancy M c.tenancy_id
    or_raise found tenancy_not_found
    filled ← call (fill_and_close c.meter_readings c.checklist) (new_handover c.id c.tenancy_id)
    saved ← save_handover M filled.1
    pure (record { id = saved.id; tenancy_id = saved.tenancy_id; is_closed = saved.is_closed })

  -- ActivateTenancyUseCase
  unfoldable pub activate_tenancy : Uuid → Date → Uuid → Uuid → Action (Db M) Error TenancyResult
  activate_tenancy event_id occurred_at tenancy_id handover_protocol_id = do
    found ← find_tenancy M tenancy_id
    tenancy ← or_raise found tenancy_not_found
    assert_ready_to_lease M tenancy.rental_unit_id
    protocol ← find_handover M handover_protocol_id
    handover ← or_raise protocol handover_not_found
    activated ← call (activate handover occurred_at event_id) tenancy
    saved ← save_tenancy M activated.1
    pure (result_of saved)

  -- GiveNoticeUseCase
  unfoldable pub give_notice_of : Uuid → Date → Action (Db M) Error TenancyResult
  give_notice_of tenancy_id notice_date = do
    found ← find_tenancy M tenancy_id
    tenancy ← or_raise found tenancy_not_found
    noticed ← call (give_notice notice_date) tenancy
    saved ← save_tenancy M noticed.1
    pure (result_of saved)

  -- EndTenancyUseCase
  unfoldable pub end_tenancy_of : Uuid → Action (Db M) Error TenancyResult
  end_tenancy_of tenancy_id = do
    found ← find_tenancy M tenancy_id
    tenancy ← or_raise found tenancy_not_found
    ended ← call end_tenancy tenancy
    saved ← save_tenancy M ended.1
    pure (result_of saved)

  -- GetTenancyUseCase
  unfoldable pub get_tenancy : Uuid → Action (Db M) Error TenancyReadModel
  get_tenancy tenancy_id = do
    found ← find_tenancy M tenancy_id
    t ← or_raise found tenancy_not_found
    pure (record {
      id = t.id;
      rental_unit_id = t.rental_unit_id;
      tenant_id = t.tenant_id;
      start_date = t.start_date;
      end_date = t.end_date;
      status = t.status;
      notice_date = t.notice_date;
    })
