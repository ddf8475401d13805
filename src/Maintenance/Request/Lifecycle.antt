-- ===== src/Maintenance/Request/Lifecycle.antt =====
-- The life of one maintenance request, thrown errors included.
use flatrent.Base.{
  ℕ, ◌≡◌, ◌+◌, refl, Bool, true, false, not, String, Option, none, some, List, [], ◌∷◌, Date,
  Result, ok, err, Action, arith,
}
use flatrent.Maintenance.Request.{
  MaintenanceRequest, MaintenanceStatus, scheduled, resolved, rejected, Error, schedule_visit,
  resolve, reject, is_blank, is_emergency,
}

pub data Call : Type 0 where
  visit : Date → String → Call
  resolution : String → Call
  rejection : Call

unfoldable pub apply : Call → Action MaintenanceRequest Error (Unit {0})
apply (visit date handyman) = schedule_visit date handyman
apply (resolution text) = resolve text
apply rejection = reject

abbrev pub succeeded : Result Error (Unit {0}) → ℕ
succeeded (ok _) = 1
succeeded (err _) = 0

pub run : List Call → MaintenanceRequest → ℕ × MaintenanceRequest
run [] q = (0, q)
run (c ∷ cs) q = let (r, q') = apply c q in let (n, q'') = run cs q' in (succeeded r + n, q'')

abbrev pub is_final : MaintenanceStatus → Bool
is_final resolved = true
is_final rejected = true
is_final _ = false

abbrev pub is_explained : Option String → Bool
is_explained none = false
is_explained (some text) = not (is_blank text)

abbrev pub is_set : {A : Type 0} → Option A → Bool
is_set none = false
is_set (some a) = true

-- What the fields of a request tell of one another.
pub record IsConsistent (q : MaintenanceRequest) : Type 0 where
  pub closed : q.is_closed ≡ is_final q.status
  pub urgent : q.emergency ≡ is_emergency q.description
  pub explained : q.status ≡ resolved → is_explained q.resolution_description ≡ true
  pub visited : q.status ≡ scheduled → is_set q.visit_date ≡ true
  pub assigned : q.status ≡ scheduled → is_set q.assigned_handyman_id ≡ true

-- What `n` successful calls leave as it was, and what they count.
pub record Evolves (n : ℕ) (q r : MaintenanceRequest) : Type 0 where
  pub same_id : r.id ≡ q.id
  pub same_unit : r.rental_unit_id ≡ q.rental_unit_id
  pub same_reporter : r.reporter_id ≡ q.reporter_id
  pub same_description : r.description ≡ q.description
  pub same_emergency : r.emergency ≡ q.emergency
  pub version : r.aggregate_version ≡ q.aggregate_version + n

apply-IsConsistent :
    (c : Call) (q : MaintenanceRequest) → IsConsistent q → IsConsistent (apply c q).1
unfolding apply schedule_visit resolve reject
apply-IsConsistent (visit date handyman) q i = ground arith
apply-IsConsistent (resolution text) q i = ground arith
apply-IsConsistent rejection q i = ground arith

apply-Evolves :
    (c : Call) (q : MaintenanceRequest) → Evolves (succeeded (apply c q).0) q (apply c q).1
unfolding apply schedule_visit resolve reject
apply-Evolves (visit date handyman) q = ground arith
apply-Evolves (resolution text) q = ground arith
apply-Evolves rejection q = ground arith

apply_closed :
    (c : Call) (q : MaintenanceRequest)
    → q.is_closed ≡ true
    → (succeeded (apply c q).0 ≡ 0) × ((apply c q).1 ≡ q)
unfolding apply schedule_visit resolve reject
apply_closed (visit date handyman) q closed = ground arith
apply_closed (resolution text) q closed = ground arith
apply_closed rejection q closed = ground arith

-- Whatever visits, resolutions and rejections a consistent request receives, and whatever they
-- throw, it stays consistent: it is closed exactly when it is resolved or rejected, it is urgent
-- exactly when the policy says so of its description, a resolved one has an explanation that is not
-- blank, and a scheduled one has a date and a handyman. Its identity, unit, reporter, description
-- and urgency stay, and its version counts the calls that returned.
pub run-IsConsistent :
    (cs : List Call) (q : MaintenanceRequest)
    → IsConsistent q
    → IsConsistent (run cs q).1 × Evolves (run cs q).0 q (run cs q).1
unfolding run
run-IsConsistent [] q i = (i, ground arith)
run-IsConsistent (c ∷ cs) q i =
    let here = apply-Evolves c q in
    let (later, evolves) = run-IsConsistent cs (apply c q).1 (apply-IsConsistent c q i) in
    (later, ground arith)

-- A closed request is final: no sequence of calls returns or changes anything.
pub run_closed : (cs : List Call) (q : MaintenanceRequest) → q.is_closed ≡ true → run cs q ≡ (0, q)
unfolding run
run_closed [] q closed = refl
run_closed (c ∷ cs) q closed = ground (arith, apply_closed c q closed, run_closed cs q closed)
