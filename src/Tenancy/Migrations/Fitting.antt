-- ===== src/Tenancy/Migrations/Fitting.antt =====
-- That the migrations of the tenancy database can be reverted, and that they create the tables which
-- the entities describe.
use flatrent.Base.{◌≡◌, ◌≢◌, refl, String, true, Option, none, some, ◌++◌, All, ◌∙◌, ap, [], arith}
use flatrent.Shared.Migrations.{TableDef, Catalog, run, ups, downs, cascade}
use flatrent.Shared.Migrations.Reverting.{
  effects, effects_on_other, Fits, index_keys, plain_indexes, run-Fits, created_first, named,
  run_restores, run_once, table-run, run-created_first,
}
use flatrent.Shared.Migrations.Messaging.{domain_event_journal}
use flatrent.Tenancy.Migrations.{tenancy_migrations}
use flatrent.Tenancy.Migrations.Entities.{tenancy_entities}

restores :
    All
      (λ m.
        (created_first m (ups tenancy_migrations) ≡ true)
        × (effects (ups tenancy_migrations ++ downs tenancy_migrations) m none ≡ none))
      (named (ups tenancy_migrations ++ downs tenancy_migrations))
unfolding ups downs effects named created_first
restores = ground arith

keeps_others :
    (old : Option TableDef)
    → effects_on_other (ups tenancy_migrations ++ downs tenancy_migrations) old
      ≡ cascade "btree_gist" old
unfolding ups downs effects_on_other
keeps_others old = refl

creates_entities :
    All
      (λ e.
        (created_first e.name (ups tenancy_migrations) ≡ true)
        × Fits e (effects (ups tenancy_migrations) e.name none))
      tenancy_entities
unfolding ups effects created_first index_keys plain_indexes
creates_entities = (
  (refl, (_, refl, refl, refl, refl, refl)),
  (
    (refl, (_, refl, refl, refl, refl, refl)),
    (
      (refl, (_, refl, refl, refl, refl, refl)),
      (
        (refl, (_, refl, refl, refl, refl, refl)),
        (
          (refl, (_, refl, refl, refl, refl, refl)),
          (
            (refl, (_, refl, refl, refl, refl, refl)),
            (
              (refl, (_, refl, refl, refl, refl, refl)),
              (
                (refl, (_, refl, refl, refl, refl, refl)),
                (
                  (refl, (_, refl, refl, refl, refl, refl)),
                  ((refl, (_, refl, refl, refl, refl, refl)), tt),
                ),
              ),
            ),
          ),
        ),
      ),
    ),
  ),
)

pub tenancies_first : created_first "tenancies" (ups tenancy_migrations) ≡ true
unfolding ups created_first
tenancies_first = refl

journal_first : created_first "domain_event_journal" (ups tenancy_migrations) ≡ true
unfolding ups created_first
journal_first = refl

journal_made :
    effects (ups tenancy_migrations) "domain_event_journal" none
    ≡ some (domain_event_journal "uq_journal_event_ordering_tenancy")
unfolding ups effects
journal_made = refl

tenancies_stay : effects (ups tenancy_migrations) "tenancies" none ≢ none
unfolding ups effects
tenancies_stay = cc

module _ {S : Type 0} (C : Catalog S) where
  -- When the migrations of the tenancy database have run, and have then been reverted, the last one
  -- first, every table is what it was before, except that the tables which others made have lost the
  -- exclusion constraints over an equality, which go with the extension that is dropped.
  pub tenancy_migrations_revert :
      (s s1 s2 : S) (n : String)
      → run C (ups tenancy_migrations) s ≡ some s1
      → run C (downs tenancy_migrations) s1 ≡ some s2
      → C.table s2 n ≡ cascade "btree_gist" (C.table s n)
  tenancy_migrations_revert s s1 s2 n up down =
      run_restores C (ups tenancy_migrations) (downs tenancy_migrations) s s1 s2 n restores up down
      ∙ keeps_others (C.table s n)

  -- When the migrations of the tenancy database have run, then for every entity of its data source
  -- the table of its name has exactly the columns, types, defaults, primary key and indexes that the
  -- entity describes, and keeps the same lists of columns unique, except that the journal does so by
  -- a constraint of another name, and has no index, where its entity describes a unique one; and the
  -- migrations cannot run again.
  pub tenancy_migrations_fit :
      (s s1 : S)
      → run C (ups tenancy_migrations) s ≡ some s1
      → All (λ e. Fits e (C.table s1 e.name)) tenancy_entities
        × ((d : TableDef) × (C.table s1 "domain_event_journal" ≡ some d) × (d.indexes ≡ []))
        × (run C (ups tenancy_migrations) s1 ≡ none)
  tenancy_migrations_fit s s1 up = (
    run-Fits C (ups tenancy_migrations) tenancy_entities s s1 creates_entities up,
    (
      _,
      table-run C (ups tenancy_migrations) s s1 "domain_event_journal" up
          ∙ ap (effects (ups tenancy_migrations) "domain_event_journal") (
              run-created_first C (ups tenancy_migrations) s s1 "domain_event_journal" up
                journal_first)
          ∙ journal_made,
      refl,
    ),
    run_once C (ups tenancy_migrations) s s1 "tenancies" up tenancies_first tenancies_stay,
  )
