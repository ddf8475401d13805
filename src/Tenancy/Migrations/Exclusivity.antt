-- ===== src/Tenancy/Migrations/Exclusivity.antt =====
-- What the exclusion constraint of the tenancies table says of the rows that the entities map to it,
-- and that it is the condition which the use cases check before they write.
use text.Mathlib.Text.{◌==◌ as str_eq}
use flatrent.Base.{
  ℕ, ◌≡◌, ◌∙◌, refl, ap, String, Bool, true, ◌&&◌, ◌||◌, some, List, [], ◌∷◌, All, Uuid, arith, leb,
  ◌==◌, some_of, if◌then◌else◌,
}
use flatrent.Shared.Migrations.{Element, equal, overlap, Exclusion, TableDef, Catalog, run, ups}
use flatrent.Shared.Migrations.Reverting.{effects, table-run, run-created_first}
use flatrent.Tenancy.Errors.{
  TenancyStatus, reserved, active, ended, terminated, tenancy_status_text,
}
use flatrent.Tenancy.Lease.{is_active, is_reserved}
use flatrent.Tenancy.Database.{Schema, TenancyEntity}
use flatrent.Tenancy.Repositories.{overlaps}
use flatrent.Tenancy.UseCases.Occupancy.Rows.{occupies, IsExclusive}
use flatrent.Tenancy.Migrations.{tenancy_migrations, tenancy_overlap_prevention}
use flatrent.Tenancy.Migrations.Fitting.{tenancies_first}

-- The columns of a row that a constraint compares, by the names that tenancy.entity.ts gives them.
abbrev pub cell : String → TenancyEntity → ℕ
cell name e =
    if str_eq name "rental_unit_id"
    then e.rental_unit_id
    else if str_eq name "start_date"
    then e.start_date
    else if str_eq name "end_date"
    then e.end_date
    else e.id

-- `=`, and `&&` of two ranges that hold both their ends.
abbrev pub element_conflicts : Element → TenancyEntity → TenancyEntity → Bool
element_conflicts (equal c) a b = cell c a == cell c b
element_conflicts (overlap lo hi) a b = leb (cell lo a) (cell hi b) && leb (cell lo b) (cell hi a)

abbrev pub all_conflict : List Element → TenancyEntity → TenancyEntity → Bool
all_conflict [] a b = true
all_conflict (x ∷ xs) a b = element_conflicts x a b && all_conflict xs a b

abbrev pub is_covered : Exclusion → TenancyEntity → Bool
is_covered x e = some_of (str_eq (tenancy_status_text e.status)) x.statuses

abbrev pub conflicts : Exclusion → TenancyEntity → TenancyEntity → Bool
conflicts x a b = is_covered x a && is_covered x b && all_conflict x.elements a b

covers :
    (status : TenancyStatus)
    → some_of (str_eq (tenancy_status_text status)) tenancy_overlap_prevention.statuses
      ≡ (is_active status || is_reserved status)
covers reserved = refl
covers active = refl
covers ended = refl
covers terminated = refl

-- The query of `hasOverlappingTenancy` finds exactly the rows that the constraint excludes beside an
-- active or reserved tenancy of the unit and the dates that are asked for.
pub overlaps-eq-conflicts :
    (M : Schema) (a b : TenancyEntity)
    → occupies a ≡ true
    → overlaps M a.rental_unit_id a.start_date a.end_date b
      ≡ conflicts tenancy_overlap_prevention a b
overlaps-eq-conflicts M a b occupied = ground (arith, covers a.status, covers b.status)

module _ (M : Schema) where
  -- PostgreSQL keeps no two rows that an exclusion constraint of the table forbids.
  abbrev pub Enforces : TableDef → M.Tenancies → Type 0
  Enforces d rows =
      All
        (λ x.
          (j k : Uuid) (a b : TenancyEntity)
          → M.tenancies.find_one rows j ≡ some a
          → M.tenancies.find_one rows k ≡ some b
          → conflicts x a b ≡ true
          → j ≡ k)
        d.exclusions

  -- On the table that the migrations make, whoever wrote to it and in whatever order, no two active
  -- or reserved tenancies of one unit share a date.
  pub tenancy_migrations-IsExclusive :
      {S : Type 0} (C : Catalog S) (s s1 : S)
      → run C (ups tenancy_migrations) s ≡ some s1
      → (d : TableDef) × (C.table s1 "tenancies" ≡ some d)
        × ((rows : M.Tenancies) → Enforces d rows → IsExclusive M rows)
  unfolding ups effects
  tenancy_migrations-IsExclusive C s s1 up =
      let free = run-created_first C (ups tenancy_migrations) s s1 "tenancies" up tenancies_first in
      (
        _,
        table-run C (ups tenancy_migrations) s s1 "tenancies" up
            ∙ ap (effects (ups tenancy_migrations) "tenancies") free,
        λ rows enforced j k a b fa fb oa ob m.
            enforced.0 j k a b fa fb (ground (arith, covers a.status, covers b.status)),
      )
