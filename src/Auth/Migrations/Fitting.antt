-- ===== src/Auth/Migrations/Fitting.antt =====
-- That the migration of the auth database can be reverted, and that it creates the tables which the
-- entities describe.
use flatrent.Base.{◌≡◌, ◌≢◌, refl, true, Option, none, some, ◌++◌, All, ◌∙◌, arith, String}
use flatrent.Shared.Migrations.{TableDef, Catalog, run, ups, downs}
use flatrent.Shared.Migrations.Reverting.{
  effects, effects_on_other, created_first, named, run_restores, run_once, Fits, index_keys,
  plain_indexes, run-Fits,
}
use flatrent.Auth.Migrations.{auth_migrations}
use flatrent.Auth.Migrations.Entities.{auth_entities}

restores :
    All
      (λ m.
        (created_first m (ups auth_migrations) ≡ true)
        × (effects (ups auth_migrations ++ downs auth_migrations) m none ≡ none))
      (named (ups auth_migrations ++ downs auth_migrations))
unfolding ups downs effects named created_first
restores = ground arith

keeps_others :
    (old : Option TableDef)
    → effects_on_other (ups auth_migrations ++ downs auth_migrations) old ≡ old
unfolding ups downs effects_on_other
keeps_others old = refl

creates_entities :
    All
      (λ e.
        (created_first e.name (ups auth_migrations) ≡ true)
        × Fits e (effects (ups auth_migrations) e.name none))
      auth_entities
unfolding ups effects created_first index_keys plain_indexes
creates_entities = (
  (refl, (_, refl, refl, refl, refl, refl)),
  (
    (refl, (_, refl, refl, refl, refl, refl)),
    (
      (refl, (_, refl, refl, refl, refl, refl)),
      (
        (refl, (_, refl, refl, refl, refl, refl)),
        (
          (refl, (_, refl, refl, refl, refl, refl)),
          ((refl, (_, refl, refl, refl, refl, refl)), tt),
        ),
      ),
    ),
  ),
)

accounts_first : created_first "user_accounts" (ups auth_migrations) ≡ true
unfolding ups created_first
accounts_first = refl

accounts_stay : effects (ups auth_migrations) "user_accounts" none ≢ none
unfolding ups effects
accounts_stay = cc

module _ {S : Type 0} (C : Catalog S) where
  -- When the migration of the auth database has run, and has then been reverted, every table is what
  -- it was before.
  pub auth_migrations_revert :
      (s s1 s2 : S) (n : String)
      → run C (ups auth_migrations) s ≡ some s1
      → run C (downs auth_migrations) s1 ≡ some s2
      → C.table s2 n ≡ C.table s n
  auth_migrations_revert s s1 s2 n up down =
      run_restores C (ups auth_migrations) (downs auth_migrations) s s1 s2 n restores up down
      ∙ keeps_others (C.table s n)

  -- When the migration of the auth database has run, then for every entity of its data source the
  -- table of its name has exactly the columns, types, defaults, primary key and indexes that the
  -- entity describes, and keeps the same lists of columns unique, if not always by an index of the
  -- entity's name; and it cannot run again.
  pub auth_migrations_fit :
      (s s1 : S)
      → run C (ups auth_migrations) s ≡ some s1
      → All (λ e. Fits e (C.table s1 e.name)) auth_entities
        × (run C (ups auth_migrations) s1 ≡ none)
  auth_migrations_fit s s1 up = (
    run-Fits C (ups auth_migrations) auth_entities s s1 creates_entities up,
    run_once C (ups auth_migrations) s s1 "user_accounts" up accounts_first accounts_stay,
  )
