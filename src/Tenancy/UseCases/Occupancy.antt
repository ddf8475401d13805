-- ===== src/Tenancy/UseCases/Occupancy.antt =====
-- No two active or reserved tenancies of a unit meet, as far as the use cases alone see to it: each
-- runs to its end before the next begins, and the tables hold what was written.
pub mod Rows
pub use Rows.*
use mathlib.Core.Path.{subst}
use flatrent.Base.{
  sym, ◌≡◌, true, false, Bool, ◌&&◌, ◌||◌, some, String, Uuid, Date, arith, ltb, leb, ◌==◌,
  Option-cases, Bool-cases, Result-cases, inl, inr, ◌⊎◌,
}
use flatrent.Tenancy.Lease.{Tenancy, is_active, is_reserved, activate, give_notice, end_tenancy}
use flatrent.Tenancy.Database.{Schema, Db, TenancyEntity, tenancy_to_entity, handover_to_domain}
use flatrent.Tenancy.Readiness.{assert_ready_to_lease}
use flatrent.Tenancy.UseCases.Activation.{loaded}
use flatrent.Tenancy.Repositories.{overlaps, save_tenancy, find_tenancy}
use flatrent.Tenancy.UseCases.{
  AcceptInvitationCommand, accept_invitation, activate_tenancy, give_notice_of, end_tenancy_of,
}
use flatrent.Tenancy.UseCases.Acceptance.{
  accept_invitation-IsReserved, accept_invitation_failed, reserved_row,
}
use flatrent.Tenancy.Repositories.Versions.{Writes, save_tenancy-Writes}
use flatrent.Tenancy.Lease.Lifecycle.{
  IsTame, activate-IsTame, give_notice-IsTame, end_tenancy-IsTame,
}

module _ (M : Schema) where
  accept_invitation-IsExclusive :
      (driver : String) (now : Date) (c : AcceptInvitationCommand) (db : Db M)
      → IsExclusive M db.tenancies
      → IsExclusive M (accept_invitation M driver now c db).1.tenancies
  accept_invitation-IsExclusive driver now c db ex =
      let p = accept_invitation M driver now c db in
      elim (Result-cases p.0) [
        | inl (r, returned) ↦
            let (a, done) = accept_invitation-IsReserved M driver now c db p.1 r (ground arith) in
            add-IsExclusive M db.tenancies p.1.tenancies (reserved_row M driver now c a.row)
              done.tenancy a.free ex
        | inr (x, thrown) ↦ rw (accept_invitation_failed M driver now c db p.1 x (ground arith)) ex
      ]

  -- What remains of the table when a loaded tenancy has gone through a tame call and been saved.
  save_tame-IsExclusive :
      (row : TenancyEntity) (u : Tenancy) (db : Db M)
      → M.tenancies.find_one db.tenancies row.id ≡ some row
      → IsTame (loaded M row) u
      → IsExclusive M db.tenancies
      → IsExclusive M (save_tenancy M u db).1.tenancies
  save_tame-IsExclusive row u db found tame ex = elim (save_tenancy-Writes M u db) [
    | inl same ↦ rw same ex
    | inr (v, w) ↦
        rewrite-IsExclusive M db.tenancies (save_tenancy M u db).1.tenancies row
          (record (tenancy_to_entity u) { version = v }) (rw (tame.same_id) found) w tame.same_unit
          tame.same_start tame.same_end tame.occupied ex
  ]

  -- A use case leaves the tenancies alone, or saves the loaded tenancy after a tame call.
  abbrev Saves : Uuid → Db M → Db M → Type 0
  Saves id db db' =
      (db'.tenancies ≡ db.tenancies)
      ⊎ ((row : TenancyEntity) × (u : Tenancy) × (M.tenancies.find_one db.tenancies id ≡ some row)
          × IsTame (loaded M row) u
          × (db'.tenancies ≡ (save_tenancy M u db).1.tenancies))

  found_by_id :
      (id : Uuid) (row : TenancyEntity) (db : Db M)
      → M.tenancies.find_one db.tenancies id ≡ some row
      → M.tenancies.find_one db.tenancies row.id ≡ some row
  found_by_id id row db found =
      subst (λ k. M.tenancies.find_one db.tenancies k ≡ some row)
        (sym (M.tenancies.find_one-key db.tenancies id row found)) found

  Saves-IsExclusive :
      (id : Uuid) (db db' : Db M)
      → Saves id db db'
      → IsExclusive M db.tenancies
      → IsExclusive M db'.tenancies
  Saves-IsExclusive id db db' (inl same) ex = rw same ex
  Saves-IsExclusive id db db' (inr (row, u, found, tame, saved)) ex =
      rw saved (save_tame-IsExclusive row u db (found_by_id id row db found) tame ex)

  give_notice_of-Saves :
      (id : Uuid) (at : Date) (db : Db M) → Saves id db (give_notice_of M id at db).1
  unfolding give_notice_of find_tenancy
  give_notice_of-Saves id at db = elim (Option-cases (M.tenancies.find_one db.tenancies id)) [
    | inl missing ↦ inl (ground arith)
    | inr (row, found) ↦ elim (Bool-cases (ltb row.end_date row.start_date)) [
      | inl bad ↦ inl (ground arith)
      | inr good ↦ elim (Result-cases (give_notice at (loaded M row)).0) [
        | inl (_, done) ↦ inr (
          row,
          (give_notice at (loaded M row)).1,
          found,
          give_notice-IsTame at (loaded M row),
          ground arith,
        )
        | inr (x, thrown) ↦ inl (ground arith)
      ]
    ]
  ]

  end_tenancy_of-Saves : (id : Uuid) (db : Db M) → Saves id db (end_tenancy_of M id db).1
  unfolding end_tenancy_of find_tenancy
  end_tenancy_of-Saves id db = elim (Option-cases (M.tenancies.find_one db.tenancies id)) [
    | inl missing ↦ inl (ground arith)
    | inr (row, found) ↦ elim (Bool-cases (ltb row.end_date row.start_date)) [
      | inl bad ↦ inl (ground arith)
      | inr good ↦ elim (Result-cases (end_tenancy (loaded M row)).0) [
        | inl (_, done) ↦ inr (
          row,
          (end_tenancy (loaded M row)).1,
          found,
          end_tenancy-IsTame (loaded M row),
          ground arith,
        )
        | inr (x, thrown) ↦ inl (ground arith)
      ]
    ]
  ]

  activate_tenancy-Saves :
      (event_id : Uuid) (at : Date) (id handover_id : Uuid) (db : Db M)
      → Saves id db (activate_tenancy M event_id at id handover_id db).1
  unfolding activate_tenancy find_tenancy assert_ready_to_lease
  activate_tenancy-Saves event_id at id handover_id db =
      elim (Option-cases (M.tenancies.find_one db.tenancies id)) [
        | inl missing ↦ inl (ground arith)
        | inr (row, found) ↦ elim (Option-cases (M.handovers.find_one db.handovers handover_id)) [
          | inl missing ↦ inl (ground arith)
          | inr (h, protocol) ↦
              let t = loaded M row in
              let hp = handover_to_domain h in
              elim (Result-cases (activate hp at event_id t).0) [
                | inr (x, thrown) ↦ inl (ground arith)
                | inl (_, done) ↦
                    elim (Result-cases (assert_ready_to_lease M row.rental_unit_id db).0) [
                      | inr (x, thrown) ↦ inl (ground arith)
                      | inl (_, ready) ↦ elim (Bool-cases (ltb row.end_date row.start_date)) [
                        | inl bad ↦ inl (ground arith)
                        | inr good ↦ inr (
                          row,
                          (activate hp at event_id t).1,
                          found,
                          activate-IsTame hp at event_id t,
                          ground arith,
                        )
                      ]
                    ]
              ]
        ]
      ]

  -- One call of a use case, whatever comes of it.
  pub data Step (db : Db M) : Db M → Type 0 where
    acceptance :
        (driver : String) (now : Date) (c : AcceptInvitationCommand)
        → Step db (accept_invitation M driver now c db).1
    activation :
        (event_id : Uuid) (at : Date) (id handover_id : Uuid)
        → Step db (activate_tenancy M event_id at id handover_id db).1
    notice : (id : Uuid) (at : Date) → Step db (give_notice_of M id at db).1
    ending : (id : Uuid) → Step db (end_tenancy_of M id db).1

  pub data Reach (db : Db M) : Db M → Type 0 where
    here : Reach db db
    next : {db' db'' : Db M} → Reach db db' → Step db' db'' → Reach db db''

  Step-IsExclusive :
      {db db' : Db M} → Step db db' → IsExclusive M db.tenancies → IsExclusive M db'.tenancies
  Step-IsExclusive {db} (Step.acceptance driver now c) ex =
      accept_invitation-IsExclusive driver now c db ex
  Step-IsExclusive {db} (Step.activation event_id at id handover_id) ex =
      Saves-IsExclusive id db (activate_tenancy M event_id at id handover_id db).1
        (activate_tenancy-Saves event_id at id handover_id db) ex
  Step-IsExclusive {db} (Step.notice id at) ex =
      Saves-IsExclusive id db (give_notice_of M id at db).1 (give_notice_of-Saves id at db) ex
  Step-IsExclusive {db} (Step.ending id) ex =
      Saves-IsExclusive id db (end_tenancy_of M id db).1 (end_tenancy_of-Saves id db) ex

  -- Whatever acceptances, activations, notices and endings are called one after another, and whatever
  -- they throw: if no two active or reserved tenancies of one unit shared a date before, none do
  -- afterwards.
  pub Reach-IsExclusive :
      {db db' : Db M} → Reach db db' → IsExclusive M db.tenancies → IsExclusive M db'.tenancies
  Reach-IsExclusive here ex = ex
  Reach-IsExclusive (next r s) ex = Step-IsExclusive s (Reach-IsExclusive r ex)
