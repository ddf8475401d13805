-- ===== src/Tenancy/Tests/Serving.antt =====
-- The theorems on the routes of the tenancy module at concrete inputs.
use mathlib.Core.Path.{subst}
use flatrent.Base.{
  ℕ, ◌-◌, ◌≡◌, refl, sym, String, Bool, true, none, some, List, [], ◌∷◌, All, Occurs, Uuid, arith,
  ◌==◌, if◌then◌else◌, Bool-cases, Option-cases, inl, inr,
}
use flatrent.Base.Memory.{find_row, find_row-key}
use flatrent.Base.Text.{codes}
use flatrent.Shared.Validation.{Zod}
use flatrent.Tenancy.Database.{RentalUnitEntity}
use flatrent.Tenancy.UseCases.Occupancy.{IsExclusive}
use flatrent.Tenancy.Listing.{UnitQuery}
use flatrent.Tenancy.Controller.{AcceptInvitationBody}
use flatrent.Tenancy.Controller.Serving.{
  Request, acceptance_request, activation_request, units_request, serve_all, serve_all-IsExclusive,
}
use flatrent.Tenancy.Tests.{sql, with_invitation}

abbrev unit_key : RentalUnitEntity → Uuid
unit_key r = r.id

-- The rows that are visible under the keys of `ks` and fit.
collect :
    List RentalUnitEntity
    → (RentalUnitEntity → Bool)
    → List RentalUnitEntity
    → List RentalUnitEntity
collect s p [] = []
collect s p (q ∷ ks) = elim (find_row unit_key s q.id) [
  | none ↦ collect s p ks
  | some r ↦ if p r then r ∷ collect s p ks else collect s p ks
]

abbrev Stored : List RentalUnitEntity → (RentalUnitEntity → Bool) → List RentalUnitEntity → Type 0
Stored s p = All (λ r. (p r ≡ true) × (find_row unit_key s r.id ≡ some r))

collect-Stored :
    (s : List RentalUnitEntity) (p : RentalUnitEntity → Bool) (ks : List RentalUnitEntity)
    → Stored s p (collect s p ks)
unfolding collect
collect-Stored s p [] = tt
collect-Stored s p (q ∷ ks) =
    let rest = collect-Stored s p ks in
    elim (Option-cases (find_row unit_key s q.id)) [
      | inl missing ↦ subst (Stored s p) (ground (arith, missing)) rest
      | inr (r, found) ↦ elim (Bool-cases (p r)) [
        | inr unfit ↦ subst (Stored s p) (ground (arith, found, unfit)) rest
        | inl fits ↦
            let here =
              subst (λ k. find_row unit_key s k ≡ some r)
                (sym (find_row-key unit_key s q.id r found)) found in
            subst (Stored s p) {x = r ∷ collect s p ks} (ground (arith, found, fits))
              ((fits, here), rest)
      ]
    ]

cons-Occurs :
    (x r : RentalUnitEntity) (xs : List RentalUnitEntity) → Occurs r xs → Occurs r (x ∷ xs)
cons-Occurs x r xs (before, after, e) = (x ∷ before, after, ground (arith, e))

Occurs-collect :
    (s : List RentalUnitEntity) (p : RentalUnitEntity → Bool) (ks : List RentalUnitEntity)
    (k : Uuid) (r q : RentalUnitEntity)
    → find_row unit_key ks k ≡ some q
    → find_row unit_key s k ≡ some r
    → p r ≡ true
    → Occurs r (collect s p ks)
unfolding collect
Occurs-collect s p [] k r q listed found fits = absurd (ground arith)
Occurs-collect s p (x ∷ ks) k r q listed found fits = elim (Bool-cases (x.id == k)) [
  | inl here ↦
      let same : find_row unit_key s x.id ≡ some r =
        subst (λ j. find_row unit_key s j ≡ some r) (ground arith) found in
      subst (Occurs r) {x = r ∷ collect s p ks} (ground (arith, same, fits))
        ([], collect s p ks, refl)
  | inr there ↦
      let later = Occurs-collect s p ks k r q (ground arith) found fits in
      elim (Option-cases (find_row unit_key s x.id)) [
        | inl missing ↦ subst (Occurs r) (ground (arith, missing)) later
        | inr (y, seen) ↦ elim (Bool-cases (p y)) [
          | inr unfit ↦ subst (Occurs r) (ground (arith, seen, unfit)) later
          | inl fit ↦
              subst (Occurs r) {x = y ∷ collect s p ks} (ground (arith, seen, fit))
                (cons-Occurs y r (collect s p ks) later)
        ]
      ]
]

abbrev units : UnitQuery sql
units = record {
  find_where = λ s p. collect s p s;
  find_where-stored = λ s p. collect-Stored s p s;
  Occurs-find_where = λ s p k r found fits. Occurs-collect s p s k r r found found fits;
}

-- A text denotes its first digit.
abbrev digit : String → ℕ
digit s = elim (codes s) [ [] ↦ 0 | c ∷ t ↦ c - 48 ]

abbrev zod : Zod
zod = record {
  is_uuid = λ s. true;
  is_email = λ s. true;
  is_datetime = λ s. true;
  reason = λ check value. codes "Invalid";
  negative_reason = codes "Number must be greater than or equal to 0";
  missing_record = codes "Required";
  message_of = λ issues. codes "Invalid";
  uuid_of = digit;
  date_of = digit;
}

abbrev body : AcceptInvitationBody
body = record {
  invitation_id = some "1";
  tenant_id = some "3";
  tenancy_id = some "5";
  start_date = some "6";
  end_date = some "8";
}

abbrev requests : List Request
requests =
    acceptance_request 50 body
    ∷ acceptance_request 51 (record body { end_date = none })
    ∷ activation_request 70 150 5 (record { handover_protocol_id = some "6" })
    ∷ units_request 4
    ∷ []

none_meet : IsExclusive sql with_invitation.tenancies
none_meet j k a b fa fb oa ob m = absurd (ground arith)

serve_all-IsExclusive_example :
    IsExclusive sql
      (serve_all zod sql units "driver" 0 (codes "/") requests with_invitation).tenancies
serve_all-IsExclusive_example =
    serve_all-IsExclusive zod sql units "driver" 0 (codes "/") requests with_invitation none_meet
