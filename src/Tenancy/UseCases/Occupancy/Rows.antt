-- ===== src/Tenancy/UseCases/Occupancy/Rows.antt =====
-- Tables of tenancies in which no two that occupy a unit meet, and the writes that keep them so.

use flatrent.Base.{
  ◌≡◌, true, false, Bool, ◌&&◌, ◌||◌, some, Uuid, arith, leb, ◌==◌, Bool-cases, inl, inr,
}
use flatrent.Tenancy.Lease.{is_active, is_reserved}
use flatrent.Tenancy.Database.{Schema, TenancyEntity}
use flatrent.Tenancy.Repositories.{overlaps}
use flatrent.Tenancy.Repositories.Versions.{Writes}

abbrev pub occupies : TenancyEntity → Bool
occupies e = is_active e.status || is_reserved e.status

abbrev pub meets : TenancyEntity → TenancyEntity → Bool
meets a b =
    a.rental_unit_id == b.rental_unit_id
    && leb a.start_date b.end_date
    && leb b.start_date a.end_date

module _ (M : Schema) where
  -- Two stored tenancies that both occupy one unit on common dates are the same tenancy.
  abbrev pub IsExclusive : M.Tenancies → Type 0
  IsExclusive rows =
      (j k : Uuid) (a b : TenancyEntity)
      → M.tenancies.find_one rows j ≡ some a
      → M.tenancies.find_one rows k ≡ some b
      → occupies a ≡ true
      → occupies b ≡ true
      → meets a b ≡ true
      → j ≡ k

  -- A row may be rewritten if its unit and dates stay and it comes to occupy nothing new.
  pub rewrite-IsExclusive :
      (rows rows' : M.Tenancies) (old new : TenancyEntity)
      → M.tenancies.find_one rows new.id ≡ some old
      → Writes M rows rows' new
      → new.rental_unit_id ≡ old.rental_unit_id
      → new.start_date ≡ old.start_date
      → new.end_date ≡ old.end_date
      → (occupies new ≡ true → occupies old ≡ true)
      → IsExclusive rows
      → IsExclusive rows'
  rewrite-IsExclusive rows rows' old new found w su ss se oc ex j k a b fa fb oa ob m =
      elim (Bool-cases (new.id == j)) [
        | inl here ↦ elim (Bool-cases (new.id == k)) [
          | inl same ↦ ground arith
          | inr other ↦
              ex j k old b (ground arith) (ground (arith, w k)) (ground (arith, w j)) ob
                (ground (arith, w j))
        ]
        | inr there ↦ elim (Bool-cases (new.id == k)) [
          | inl same ↦
              ex j k a old (ground (arith, w j)) (ground arith) oa (ground (arith, w k))
                (ground (arith, w k))
          | inr other ↦ ex j k a b (ground (arith, w j)) (ground (arith, w k)) oa ob m
        ]
      ]

  -- A row may be added if nothing that occupies its unit meets its dates.
  pub add-IsExclusive :
      (rows rows' : M.Tenancies) (new : TenancyEntity)
      → Writes M rows rows' new
      → ((k : Uuid) (e : TenancyEntity)
          → M.tenancies.find_one rows k ≡ some e
          → overlaps M new.rental_unit_id new.start_date new.end_date e ≡ false)
      → IsExclusive rows
      → IsExclusive rows'
  add-IsExclusive rows rows' new w free ex j k a b fa fb oa ob m = elim (Bool-cases (new.id == j)) [
    | inl here ↦ elim (Bool-cases (new.id == k)) [
      | inl same ↦ ground arith
      | inr other ↦ absurd (ground (arith, w j, w k, free k b))
    ]
    | inr there ↦ elim (Bool-cases (new.id == k)) [
      | inl same ↦ absurd (ground (arith, w j, w k, free j a))
      | inr other ↦ ex j k a b (ground (arith, w j)) (ground (arith, w k)) oa ob m
    ]
  ]
