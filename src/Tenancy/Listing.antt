-- ===== src/Tenancy/Listing.antt =====
-- The units of a landlord, `findAllByOwnerId` of
-- tenancy/infrastructure/persistence/typeorm-rental-unit.repository.ts and
-- tenancy/application/queries/list-units. The query with a condition is a parameter.

use flatrent.Base.{
  ◌≡◌, refl, String, Bool, true, some, List, map, All, Occurs, Occurs-map, Uuid, ok, Action, pure,
  ◌>>=◌, inl, inr, arith, ◌==◌, ==_refl, Option-cases,
}
use flatrent.Tenancy.Errors.{Error}
use flatrent.Tenancy.Lease.{RentalUnit}
use flatrent.Tenancy.Database.{Schema, Db, RentalUnitEntity, unit_to_domain}
use flatrent.Tenancy.Repositories.{save_unit}
use flatrent.Tenancy.UseCases.{RegisterRentalUnitResult, register_rental_unit}

-- `find({ where: … })`: rows of the table that meet the condition, and every such row.
pub record UnitQuery (M : Schema) : Type 0 where
  pub find_where : M.Units → (RentalUnitEntity → Bool) → List RentalUnitEntity
  pub find_where-stored :
      (s : M.Units) (p : RentalUnitEntity → Bool)
      → All (λ r. (p r ≡ true) × (M.units.find_one s r.id ≡ some r)) (find_where s p)
  pub Occurs-find_where :
      (s : M.Units) (p : RentalUnitEntity → Bool) (k : Uuid) (r : RentalUnitEntity)
      → M.units.find_one s k ≡ some r
      → p r ≡ true
      → Occurs r (find_where s p)

pub record RentalUnitReadModel : Type 0 where
  pub id : Uuid
  pub owner_id : Uuid
  pub address : String

abbrev pub read_model : RentalUnit → RentalUnitReadModel
read_model u = record { id = u.id; owner_id = u.owner_id; address = u.address }

module _ (M : Schema) (Q : UnitQuery M) where
  abbrev pub find_all_by_owner_id : Uuid → Action (Db M) Error (List RentalUnit)
  find_all_by_owner_id owner_id db =
      (ok (map unit_to_domain (Q.find_where db.units (λ r. r.owner_id == owner_id))), db)

  -- ListLandlordRentalUnitsUseCase
  abbrev pub list_landlord_rental_units : Uuid → Action (Db M) Error (List RentalUnitReadModel)
  list_landlord_rental_units landlord_id = do
    units ← find_all_by_owner_id landlord_id
    pure (map read_model units)

  -- The row that a registration leaves.
  register_rental_unit-stored :
      (id owner_id : Uuid) (address : String) (db : Db M) (r : RegisterRentalUnitResult)
      → (register_rental_unit M id owner_id address db).0 ≡ ok r
      → M.units.find_one (register_rental_unit M id owner_id address db).1.units id
        ≡ some (record { id = id; owner_id = owner_id; address = address; version = 0 })
  unfolding register_rental_unit save_unit
  register_rental_unit-stored id owner_id address db r answered =
      let e : RentalUnitEntity = record {
        id = id;
        owner_id = owner_id;
        address = address;
        version = 0;
      } in
      elim (Option-cases (M.units.find_one db.units id)) [
        | inr (x, taken) ↦ absurd (ground (arith, taken, answered))
        | inl free ↦ elim (Option-cases (M.units.save db.units e)) [
          | inl failed ↦ absurd (ground (arith, free, failed, answered))
          | inr (rows, written) ↦
              ground (arith, free, written, M.units.find_one-save db.units rows e id written)
        ]
      ]

  -- A unit that was registered is in the list of its owner, with its address.
  pub register_rental_unit-list_landlord_rental_units :
      (id owner_id : Uuid) (address : String) (db : Db M) (r : RegisterRentalUnitResult)
      → (register_rental_unit M id owner_id address db).0 ≡ ok r
      → (units : List RentalUnitReadModel) × ((list_landlord_rental_units owner_id
            (register_rental_unit M id owner_id address db).1).0
          ≡ ok units)
        × Occurs (record { id = id; owner_id = owner_id; address = address }) units
  register_rental_unit-list_landlord_rental_units id owner_id address db r answered =
      let db' = (register_rental_unit M id owner_id address db).1 in
      let e : RentalUnitEntity = record {
        id = id;
        owner_id = owner_id;
        address = address;
        version = 0;
      } in
      let rows = Q.find_where db'.units (λ x. x.owner_id == owner_id) in
      (
        map read_model (map unit_to_domain rows),
        refl,
        Occurs-map read_model (unit_to_domain e) (map unit_to_domain rows) (
            Occurs-map unit_to_domain e rows (
              Q.Occurs-find_where db'.units (λ x. x.owner_id == owner_id) id e
                (register_rental_unit-stored id owner_id address db r answered)
                (==_refl owner_id))),
      )
