-- ===== src/Tenancy/Tests/Migrating.antt =====
-- The theorems on the migrations of the tenancy database at concrete inputs.
use flatrent.Base.{◌≡◌, refl, ◌++◌, none, some, [], All, List}
use flatrent.Shared.Migrations.{TableDef, run, ups, downs}
use flatrent.Shared.Migrations.Memory.{Tables, no_tables, memory}
use flatrent.Shared.Migrations.Reverting.{Fits, effects}
use flatrent.Tenancy.Errors.{reserved, active}
use flatrent.Tenancy.Database.{TenancyEntity}
use flatrent.Tenancy.Repositories.{overlaps}
use flatrent.Tenancy.UseCases.Occupancy.Rows.{IsExclusive}
use flatrent.Tenancy.Migrations.{tenancy_migrations, tenancy_overlap_prevention}
use flatrent.Tenancy.Migrations.Entities.{tenancy_entities}
use flatrent.Tenancy.Migrations.Fitting.{tenancy_migrations_revert, tenancy_migrations_fit}
use flatrent.Tenancy.Migrations.Exclusivity.{
  conflicts, overlaps-eq-conflicts, tenancy_migrations-IsExclusive, Enforces,
}
use flatrent.Tenancy.Tests.{sql}

migrated : Tables
migrated n = effects (ups tenancy_migrations) n none

migrates : run memory (ups tenancy_migrations) no_tables ≡ some migrated
unfolding run ups migrated effects
migrates = refl

reverted : Tables
reverted n = effects (ups tenancy_migrations ++ downs tenancy_migrations) n none

reverts : run memory (downs tenancy_migrations) migrated ≡ some reverted
unfolding run ups downs migrated reverted effects
reverts = refl

tenancy_migrations_revert_example : reverted "tenancies" ≡ none
tenancy_migrations_revert_example =
    tenancy_migrations_revert memory no_tables migrated reverted "tenancies" migrates reverts

tenancy_migrations_fit_example :
    All (λ e. Fits e (migrated e.name)) tenancy_entities
    × ((d : TableDef) × (migrated "domain_event_journal" ≡ some d) × (d.indexes ≡ []))
    × (run memory (ups tenancy_migrations) migrated ≡ none)
tenancy_migrations_fit_example = tenancy_migrations_fit memory no_tables migrated migrates

abbrev booked : TenancyEntity
booked = record {
  id = 5;
  rental_unit_id = 2;
  tenant_id = 3;
  start_date = 10;
  end_date = 20;
  status = reserved;
  notice_date = none;
  version = 0;
}

abbrev rival : TenancyEntity
rival = record booked { id = 6; start_date = 20; end_date = 30; status = active }

overlaps-eq-conflicts_example :
    overlaps sql 2 10 20 rival ≡ conflicts tenancy_overlap_prevention booked rival
overlaps-eq-conflicts_example = overlaps-eq-conflicts sql booked rival refl

tenancy_migrations-IsExclusive_example :
    (d : TableDef) × (migrated "tenancies" ≡ some d)
    × ((rows : List TenancyEntity) → Enforces sql d rows → IsExclusive sql rows)
tenancy_migrations-IsExclusive_example =
    tenancy_migrations-IsExclusive sql memory no_tables migrated migrates
