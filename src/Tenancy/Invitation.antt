-- ===== src/Tenancy/Invitation.antt =====
-- The tenancy invitation, tenancy/domain/model/tenancy-invitation.aggregate.ts.
use flatrent.Base.{String, Bool, true, false, not, Uuid, Date, ok, err, Action, ltb, if◌then◌else◌}
use flatrent.Shared.{AggregateRoot, new_root}
use flatrent.Tenancy.Errors.{
  Error, not_pending, invitation_lapsed, InvitationStatus, pending, accepted, rejected, expired,
}

pub record TenancyInvitation : Type 0 where
  pub root : AggregateRoot (Unit {0})
  pub open root use *
  pub rental_unit_id : Uuid
  pub tenant_email : String
  pub expires_at : Date
  pub status : InvitationStatus

abbrev pub new_invitation : Uuid → Uuid → String → Date → TenancyInvitation
new_invitation id rental_unit_id tenant_email expires_at = record {
  root = new_root id;
  rental_unit_id = rental_unit_id;
  tenant_email = tenant_email;
  expires_at = expires_at;
  status = pending;
}

abbrev pub is_pending : InvitationStatus → Bool
is_pending pending = true
is_pending _ = false

abbrev pub is_expired : Date → TenancyInvitation → Bool
is_expired now i = ltb i.expires_at now

unfoldable pub accept : Date → Action TenancyInvitation Error (Unit {0})
accept now i =
    if not (is_pending i.status)
    then (err (not_pending i.status), i)
    else if is_expired now i
    then (err invitation_lapsed, record i { status = expired })
    else (ok tt, record i { status = accepted })

unfoldable pub reject : Action TenancyInvitation Error (Unit {0})
reject i =
    if not (is_pending i.status)
    then (err (not_pending i.status), i)
    else (ok tt, record i { status = rejected })
