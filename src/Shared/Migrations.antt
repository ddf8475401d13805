-- ===== src/Shared/Migrations.antt =====
-- The statements of the migrations, and the database that executes them, which is a parameter:
-- `Catalog` states the documented behaviour of PostgreSQL for these statements.
pub mod Memory
pub mod Messaging
pub mod Reverting
use package.text.Mathlib.Text.{◌==◌ as str_eq}
use flatrent.Base.{
  ℕ, ◌≡◌, String, Bool, true, false, ◌&&◌, ◌||◌, not, Option, none, some, List, [], ◌∷◌, ◌++◌, All,
  some_of, if◌then◌else◌,
}

pub data ColumnType : Type 0 where
  uuid text int bigserial boolean timestamp jsonb : ColumnType
  varchar : ℕ → ColumnType

pub data Default : Type 0 where
  number : ℕ → Default
  literal : String → Default
  flag : Bool → Default
  empty_object now : Default

pub record Column : Type 0 where
  pub name : String
  pub type : ColumnType
  pub nullable : Bool
  pub default_value : Option Default

-- `"c" T NOT NULL`, `"c" T` and `"c" T NOT NULL DEFAULT d`
abbrev pub required : String → ColumnType → Column
required name type = record { name = name; type = type; nullable = false; default_value = none }

abbrev pub optional : String → ColumnType → Column
optional name type = record { name = name; type = type; nullable = true; default_value = none }

abbrev pub defaulted : String → ColumnType → Default → Column
defaulted name type d = record {
  name = name;
  type = type;
  nullable = false;
  default_value = some d;
}

-- A B-tree index, so no operator class of an extension.
pub record Index : Type 0 where
  pub name : String
  pub columns : List String
  pub is_unique : Bool

-- A `UNIQUE` constraint; `none` leaves the choice of its name to the system.
pub record Unique : Type 0 where
  pub name : Option String
  pub columns : List String

-- `UNIQUE` behind a column
abbrev pub unique_column : String → Unique
unique_column c = record { name = none; columns = c ∷ [] }

-- `"c" WITH =`, and `tsrange("lo", "hi", '[]') WITH &&`
pub data Element : Type 0 where
  equal : String → Element
  overlap : String → String → Element

-- `EXCLUDE USING gist (…) WHERE ("status" IN (…))`
pub record Exclusion : Type 0 where
  pub name : String
  pub elements : List Element
  pub statuses : List String

pub record TableDef : Type 0 where
  pub name : String
  pub columns : List Column
  pub primary_key : List String
  pub uniques : List Unique
  pub indexes : List Index
  pub exclusions : List Exclusion

pub data Statement : Type 0 where
  -- `CREATE EXTENSION IF NOT EXISTS` and `DROP EXTENSION IF EXISTS … CASCADE`
  create_extension drop_extension : String → Statement
  create_table : TableDef → Statement
  create_index : String → Index → Statement
  add_constraint : String → Exclusion → Statement
  drop_table : String → Statement

pub record Migration : Type 0 where
  pub name : String
  pub up : List Statement
  pub down : List Statement

abbrev pub add_index : Index → Option TableDef → Option TableDef
add_index i none = none
add_index i (some d) = some (record d { indexes = d.indexes ++ i ∷ [] })

abbrev pub add_exclusion : Exclusion → Option TableDef → Option TableDef
add_exclusion x none = none
add_exclusion x (some d) = some (record d { exclusions = d.exclusions ++ x ∷ [] })

abbrev pub is_equal : Element → Bool
is_equal (equal _) = true
is_equal (overlap _ _) = false

-- An equality in a GiST constraint on a column of one of the types above takes its operator class
-- from btree_gist; the overlap of ranges takes its own from PostgreSQL.
abbrev pub depends_on : String → Exclusion → Bool
depends_on extension x = str_eq extension "btree_gist" && some_of is_equal x.elements

unfoldable pub independent : String → List Exclusion → List Exclusion
independent extension [] = []
independent extension (x ∷ xs) =
    let rest = independent extension xs in if depends_on extension x then rest else x ∷ rest

-- `CASCADE` drops the constraints that depend on the extension, and no others.
abbrev pub cascade : String → Option TableDef → Option TableDef
cascade extension none = none
cascade extension (some d) = some (record d { exclusions = independent extension d.exclusions })

-- The table that a statement is about.
abbrev pub concerns : Statement → String → Bool
concerns (create_extension _) n = false
concerns (drop_extension _) n = false
concerns (create_table d) n = str_eq d.name n
concerns (create_index t _) n = str_eq t n
concerns (add_constraint t _) n = str_eq t n
concerns (drop_table t) n = str_eq t n

abbrev pub creates : Statement → Bool
creates (create_table _) = true
creates _ = false

-- What a statement makes of the table that it is about.
abbrev pub effect_on_own : Statement → Option TableDef → Option TableDef
effect_on_own (create_table d) old = some d
effect_on_own (create_index _ i) old = add_index i old
effect_on_own (add_constraint _ x) old = add_exclusion x old
effect_on_own (drop_table _) old = none
effect_on_own _ old = old

-- What a statement makes of any other table.
abbrev pub effect_on_other : Statement → Option TableDef → Option TableDef
effect_on_other (drop_extension x) old = cascade x old
effect_on_other _ old = old

abbrev pub effect : Statement → String → Option TableDef → Option TableDef
effect q n old = if concerns q n then effect_on_own q old else effect_on_other q old

-- The condition on the table that a statement is about.
abbrev pub allowed : Statement → Option TableDef → Bool
allowed q none = creates q
allowed q (some _) = not (creates q)

pub record Catalog (S : Type 0) : Type 0 where
  pub table : S → String → Option TableDef
  -- `queryRunner.query`, where `none` is an error
  pub query : S → Statement → Option S
  pub query-allowed :
      (s s' : S) (q : Statement) (n : String)
      → query s q ≡ some s'
      → concerns q n ≡ true
      → allowed q (table s n) ≡ true
  pub table-query :
      (s s' : S) (q : Statement) (n : String)
      → query s q ≡ some s'
      → table s' n ≡ effect q n (table s n)

module _ {S : Type 0} (C : Catalog S) where
  -- The statements of `up` or `down`, in the transaction that TypeORM puts round them.
  unfoldable pub run : List Statement → S → Option S
  run [] s = some s
  run (q ∷ qs) s = elim (C.query s q) [ none ↦ none | some s' ↦ run qs s' ]

-- All migrations of a data source in order, and all of them reverted, the last one first.
unfoldable pub ups : List Migration → List Statement
ups [] = []
ups (m ∷ ms) = m.up ++ ups ms

unfoldable pub downs : List Migration → List Statement
downs [] = []
downs (m ∷ ms) = downs ms ++ m.down
