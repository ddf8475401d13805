-- ===== src/Tenancy/UseCases/Acceptance.antt =====
-- Accepting an invitation: what is checked, what is written, and what a refused write leaves behind.
use flatrent.Base.{
  ◌≡◌, ◌≢◌, ◌≤◌, ◌+◌, false, none, some, String, Uuid, Date, ok, err, arith, Option-cases, inl, inr,
}
use flatrent.Tenancy.Errors.{Error, version_mismatch, pending, accepted, reserved}
use flatrent.Tenancy.Invitation.{accept}
use flatrent.Tenancy.Lease.{new_tenancy}
use flatrent.Tenancy.Database.{Schema, Db, TenancyEntity, TenancyInvitationEntity}
use flatrent.Tenancy.Repositories.{persist_events, save_tenancy, save_invitation, overlaps}
use flatrent.Tenancy.Repositories.Versions.{Writes}
use flatrent.Tenancy.UseCases.{AcceptInvitationCommand, AcceptInvitationResult, accept_invitation}

module _ (M : Schema) (driver : String) (now : Date) (c : AcceptInvitationCommand) where
  -- The invitation was pending and not expired, no active or reserved tenancy of the unit met the
  -- dates, and the dates are in order.
  pub record IsAcceptable (db : Db M) : Type 0 where
    pub row : TenancyInvitationEntity
    pub found : M.invitations.find_one db.invitations c.invitation_id ≡ some row
    pub was_pending : row.status ≡ pending
    pub in_time : now ≤ row.expires_at
    pub free :
        (k : Uuid) (e : TenancyEntity)
        → M.tenancies.find_one db.tenancies k ≡ some e
        → overlaps M row.rental_unit_id c.start_date c.end_date e ≡ false
    pub ordered : c.start_date ≤ c.end_date

  accept_invitation-found :
      (db db' : Db M) (r : AcceptInvitationResult) (row : TenancyInvitationEntity)
      → M.invitations.find_one db.invitations c.invitation_id ≡ some row
      → accept_invitation M driver now c db ≡ (ok r, db')
      → (row.status ≡ pending)
        × (now ≤ row.expires_at)
        × (M.tenancies.get_one db.tenancies (overlaps M row.rental_unit_id c.start_date c.end_date)
            ≡ none)
        × (c.start_date ≤ c.end_date)
  unfolding accept_invitation accept new_tenancy
  accept_invitation-found db db' r row found e = ground arith

  -- An acceptance returns only for a stored, pending invitation that has not expired, for dates in
  -- order, and when no active or reserved tenancy of the unit meets the dates.
  pub accept_invitation-IsAcceptable :
      (db db' : Db M) (r : AcceptInvitationResult)
      → accept_invitation M driver now c db ≡ (ok r, db')
      → IsAcceptable db
  unfolding accept_invitation
  accept_invitation-IsAcceptable db db' r e =
      elim (Option-cases (M.invitations.find_one db.invitations c.invitation_id)) [
        | inl missing ↦ absurd (ground arith)
        | inr (row, found) ↦
            let (was_pending, in_time, none_meets, ordered) =
              accept_invitation-found db db' r row found e in
            record {
              row = row;
              found = found;
              was_pending = was_pending;
              in_time = in_time;
              free = λ k t stored. M.tenancies.get_one-none db.tenancies _ k t none_meets stored;
              ordered = ordered;
            }
      ]

  abbrev pub accepted_row : TenancyInvitationEntity → TenancyInvitationEntity
  accepted_row row = record row { status = accepted; version = row.version + 1 }

  -- The row of the tenancy that an acceptance reserves.
  abbrev pub reserved_row : TenancyInvitationEntity → TenancyEntity
  reserved_row row = record {
    id = c.tenancy_id;
    rental_unit_id = row.rental_unit_id;
    tenant_id = c.tenant_id;
    start_date = c.start_date;
    end_date = c.end_date;
    status = reserved;
    notice_date = none;
    version = 0;
  }

  pub record IsReserved (db db' : Db M) (row : TenancyInvitationEntity) : Type 0 where
    pub tenancy_new : M.tenancies.find_one db.tenancies c.tenancy_id ≡ none
    pub tenancy : Writes M db.tenancies db'.tenancies (reserved_row row)
    pub invitation :
        M.invitations.find_one db'.invitations c.invitation_id ≡ some (accepted_row row)
    pub outbox : db'.outbox ≡ db.outbox

  -- An acceptance that returns was for a stored, pending invitation in time, for dates in order, and
  -- for a unit on which no active or reserved tenancy meets them, and has reserved it: the tenancy is
  -- stored under the given, so far unused id, with the invitation's unit and the given tenant and
  -- dates, at version 0; the invitation is stored as accepted at its next version; and nothing is
  -- published.
  pub accept_invitation-IsReserved :
      (db db' : Db M) (r : AcceptInvitationResult)
      → accept_invitation M driver now c db ≡ (ok r, db')
      → (a : IsAcceptable db) × IsReserved db db' a.row
  unfolding accept_invitation accept new_tenancy save_invitation save_tenancy persist_events
  accept_invitation-IsReserved db db' r e =
      let a = accept_invitation-IsAcceptable db db' r e in
      let row = a.row in
      let same_id = M.invitations.find_one-key db.invitations c.invitation_id row a.found in
      let invitation_write =
        M.invitations.find_one-save db.invitations db'.invitations (accepted_row row)
          c.invitation_id in
      (
        a,
        record {
          tenancy_new = ground (arith, a, same_id);
          tenancy = λ k. ground (
            arith,
            a,
            same_id,
            M.tenancies.find_one-save db.tenancies db'.tenancies (reserved_row row) k,
          );
          invitation = ground (arith, a, same_id, invitation_write);
          outbox = ground (arith, a, same_id);
        },
      )

  -- An acceptance that fails leaves the tenancies alone.
  pub accept_invitation_failed :
      (db db' : Db M) (x : Error)
      → accept_invitation M driver now c db ≡ (err x, db')
      → db'.tenancies ≡ db.tenancies
  unfolding accept_invitation accept new_tenancy save_invitation save_tenancy persist_events
  accept_invitation_failed db db' x e = ground arith

  -- The two writes of an acceptance are not one transaction. If the tenancy's id is already in use,
  -- the call fails after the first of them: it throws a version conflict, but the invitation is
  -- stored as accepted, and every other table is as it was.
  pub accept_invitation_taken_id :
      (db : Db M) (taken : TenancyEntity) (rows : M.Invitations) (a : IsAcceptable db)
      → M.tenancies.get_one db.tenancies (overlaps M a.row.rental_unit_id c.start_date c.end_date)
        ≡ none
      → M.tenancies.find_one db.tenancies c.tenancy_id ≡ some taken
      → M.invitations.save db.invitations (accepted_row a.row) ≡ some rows
      → (accept_invitation M driver now c db
          ≡ (err version_mismatch, record db { invitations = rows }))
        × (M.invitations.find_one rows c.invitation_id ≡ some (accepted_row a.row))
  unfolding accept_invitation accept new_tenancy save_invitation save_tenancy persist_events
  accept_invitation_taken_id db taken rows a none_meets used written =
      let same_id = M.invitations.find_one-key db.invitations c.invitation_id a.row a.found in
      let invitation_write =
        M.invitations.find_one-save db.invitations rows (accepted_row a.row) c.invitation_id in
      (
        ground (arith, a, same_id, none_meets, used, written),
        ground (arith, a, same_id, invitation_write),
      )

-- Once an invitation is stored as accepted, no command for it returns, whatever its ids, its dates
-- and the time.
pub accept_invitation_only_once :
    (M : Schema) (driver : String) (now : Date) (c : AcceptInvitationCommand) (db db' : Db M)
    (r : AcceptInvitationResult) (row : TenancyInvitationEntity)
    → M.invitations.find_one db.invitations c.invitation_id ≡ some row
    → row.status ≡ accepted
    → accept_invitation M driver now c db ≢ (ok r, db')
accept_invitation_only_once M driver now c db db' r row found was_accepted e =
    let a = accept_invitation-IsAcceptable M driver now c db db' r e in absurd (ground (arith, a))
