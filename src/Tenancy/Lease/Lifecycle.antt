-- ===== src/Tenancy/Lease/Lifecycle.antt =====
-- The life of one tenancy: sequences of `activate`, `giveNotice` and `end`, thrown errors included.
use flatrent.Base.{
  ℕ, ◌≡◌, ◌≤◌, ◌+◌, ◌||◌, true, List, [], ◌∷◌, Uuid, Date, Result, ok, err, Action, arith, ◌++◌,
  ◌⊎◌,
}
use flatrent.Tenancy.Errors.{Error, TenancyStatus, reserved, active, ended, terminated}
use flatrent.Tenancy.Handover.{HandoverProtocol}
use flatrent.Tenancy.Lease.{
  Tenancy, activate, is_active, is_reserved, give_notice, end_tenancy, tenancy_activated, activated,
}

pub data Call : Type 0 where
  activation : HandoverProtocol → Date → Uuid → Call
  notice : Date → Call
  ending : Call

pub apply : Call → Action Tenancy Error (Unit {0})
apply (activation handover at event_id) = activate handover at event_id
apply (notice date) = give_notice date
apply ending = end_tenancy

abbrev pub succeeded : Result Error (Unit {0}) → ℕ
succeeded (ok _) = 1
succeeded (err _) = 0

-- The tenancy after a sequence of calls, and how many of them returned.
pub run : List Call → Tenancy → ℕ × Tenancy
run [] t = (0, t)
run (c ∷ cs) t = let (r, t') = apply c t in let (n, t'') = run cs t' in (succeeded r + n, t'')

-- RESERVED → ACTIVE → TERMINATED → ENDED, where ACTIVE → ENDED is allowed too.
abbrev pub rank : TenancyStatus → ℕ
rank reserved = 0
rank active = 1
rank terminated = 2
rank ended = 3

-- What `n` successful calls can have made of a tenancy.
pub record Evolves (n : ℕ) (t u : Tenancy) : Type 0 where
  pub same_id : u.id ≡ t.id
  pub same_unit : u.rental_unit_id ≡ t.rental_unit_id
  pub same_tenant : u.tenant_id ≡ t.tenant_id
  pub same_start : u.start_date ≡ t.start_date
  pub same_end : u.end_date ≡ t.end_date
  pub version : u.aggregate_version ≡ t.aggregate_version + n
  pub forward : rank t.status + n ≤ rank u.status
  pub bounded : rank u.status ≤ 3

apply-Evolves : (c : Call) (t : Tenancy) → Evolves (succeeded (apply c t).0) t (apply c t).1
unfolding apply activate give_notice end_tenancy
apply-Evolves (activation handover at event_id) t = ground arith
apply-Evolves (notice date) t = ground arith
apply-Evolves ending t = ground arith

Evolves-trans : {m n : ℕ} {t u v : Tenancy} → Evolves m t u → Evolves n u v → Evolves (m + n) t v
Evolves-trans a b = ground arith

-- Whatever calls a tenancy receives, and whatever they throw: its identity, its unit, its tenant and
-- its dates stay; its version counts the calls that returned; and each of those moved its status at
-- least one place forward in RESERVED, ACTIVE, TERMINATED, ENDED.
pub run-Evolves : (cs : List Call) (t : Tenancy) → Evolves (run cs t).0 t (run cs t).1
unfolding run
run-Evolves [] t = ground arith
run-Evolves (c ∷ cs) t = Evolves-trans (apply-Evolves c t) (run-Evolves cs (apply c t).1)

-- So at most three calls on one tenancy ever return, however many are made.
pub run_le_three : (cs : List Call) (t : Tenancy) → (run cs t).0 ≤ 3
run_le_three cs t = let e = run-Evolves cs t in omega arith

abbrev pub IsOwnAndClosed : HandoverProtocol → Tenancy → Type 0
IsOwnAndClosed h t = (h.tenancy_id ≡ t.id) × (h.is_closed ≡ true)

-- An activation has two outcomes. For a reserved tenancy whose own handover protocol is closed it
-- returns, and the tenancy is active, one version further, and has one event more: the activation's,
-- which carries the new version, the unit, the tenant and the dates. For any other it throws and
-- leaves the tenancy as it was.
pub activate_outcomes :
    (h : HandoverProtocol) (at : Date) (event_id : Uuid) (t : Tenancy)
    → let (r, u) = activate h at event_id t in
      ((r ≡ ok tt)
        × IsOwnAndClosed h t
        × (t.status ≡ reserved)
        × (u.status ≡ active)
        × (u.aggregate_version ≡ t.aggregate_version + 1)
        × (u.pending_events ≡ t.pending_events ++ tenancy_activated u at event_id ∷ []))
      ⊎ ((e : Error) × (r ≡ err e) × ¬ ((t.status ≡ reserved) × IsOwnAndClosed h t) × (u ≡ t))
unfolding activate
activate_outcomes h at event_id t = ground arith

-- The same for a call whose result is at hand.
pub activate-eq-ok :
    (h : HandoverProtocol) (at : Date) (event_id : Uuid) (t : Tenancy) {a : Unit {0}}
    → (activate h at event_id t).0 ≡ ok a
    → (t.status ≡ reserved)
      × (h.tenancy_id ≡ t.id)
      × (h.is_closed ≡ true)
      × ((activate h at event_id t).1 ≡ activated at event_id t)
unfolding activate
activate-eq-ok h at event_id t e = ground arith

-- What a successful call keeps: the id, the unit and the dates; and no tenancy comes to occupy its
-- unit that did not before.
pub record IsTame (t u : Tenancy) : Type 0 where
  pub same_id : u.id ≡ t.id
  pub same_unit : u.rental_unit_id ≡ t.rental_unit_id
  pub same_start : u.start_date ≡ t.start_date
  pub same_end : u.end_date ≡ t.end_date
  pub occupied :
      (is_active u.status || is_reserved u.status) ≡ true
      → (is_active t.status || is_reserved t.status) ≡ true

pub activate-IsTame :
    (h : HandoverProtocol) (at : Date) (event_id : Uuid) (t : Tenancy)
    → IsTame t (activate h at event_id t).1
unfolding activate
activate-IsTame h at event_id t = ground arith

pub give_notice-IsTame : (at : Date) (t : Tenancy) → IsTame t (give_notice at t).1
unfolding give_notice
give_notice-IsTame at t = ground arith

pub end_tenancy-IsTame : (t : Tenancy) → IsTame t (end_tenancy t).1
unfolding end_tenancy
end_tenancy-IsTame t = ground arith
