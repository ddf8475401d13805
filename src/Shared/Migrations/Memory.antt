-- ===== src/Shared/Migrations/Memory.antt =====
-- A database whose state is the table under each name: the parameter `Catalog` at a concrete value.
use mathlib.Core.Path.{subst}
use text.Mathlib.TextEquality.{eq_iff}
use flatrent.Base.{
  ◌≡◌, sym, ap, String, Bool, true, false, Option, none, some, arith, if◌then◌else◌, Bool-cases,
  inl, inr,
}
use flatrent.Shared.Migrations.{
  Statement, TableDef, create_extension, drop_extension, create_table, create_index, add_constraint,
  drop_table, concerns, effect, allowed, Catalog,
}

abbrev pub Tables : Type 0
Tables = String → Option TableDef

abbrev pub no_tables : Tables
no_tables n = none

abbrev pub can_run : Tables → Statement → Bool
can_run s (create_extension _) = true
can_run s (drop_extension _) = true
can_run s (create_table d) = allowed (create_table d) (s d.name)
can_run s (create_index t i) = allowed (create_index t i) (s t)
can_run s (add_constraint t x) = allowed (add_constraint t x) (s t)
can_run s (drop_table t) = allowed (drop_table t) (s t)

abbrev pub query_tables : Tables → Statement → Option Tables
query_tables s q = if can_run s q then some (λ n. effect q n (s n)) else none

query_tables-can_run :
    (s s' : Tables) (q : Statement) → query_tables s q ≡ some s' → can_run s q ≡ true
query_tables-can_run s s' q e = elim (Bool-cases (can_run s q)) [
  | inl can ↦ can
  | inr cannot ↦ absurd (ground (arith, cannot))
]

can_run-allowed :
    (s : Tables) (q : Statement) (n : String)
    → can_run s q ≡ true
    → concerns q n ≡ true
    → allowed q (s n) ≡ true
can_run-allowed s (create_extension _) n can c = absurd (ground arith)
can_run-allowed s (drop_extension _) n can c = absurd (ground arith)
can_run-allowed s (create_table d) n can c =
    subst (λ m. allowed (create_table d) (s m) ≡ true) ((eq_iff d.name n).0 c) can
can_run-allowed s (create_index t i) n can c =
    subst (λ m. allowed (create_index t i) (s m) ≡ true) ((eq_iff t n).0 c) can
can_run-allowed s (add_constraint t x) n can c =
    subst (λ m. allowed (add_constraint t x) (s m) ≡ true) ((eq_iff t n).0 c) can
can_run-allowed s (drop_table t) n can c =
    subst (λ m. allowed (drop_table t) (s m) ≡ true) ((eq_iff t n).0 c) can

pub query_tables-allowed :
    (s s' : Tables) (q : Statement) (n : String)
    → query_tables s q ≡ some s'
    → concerns q n ≡ true
    → allowed q (s n) ≡ true
query_tables-allowed s s' q n e = can_run-allowed s q n (query_tables-can_run s s' q e)

tables_or : Tables → Option Tables → Tables
tables_or s none = s
tables_or s (some t) = t

query_tables-written :
    (s t s' : Tables) (can : Bool) → (if can then some t else none) ≡ some s' → t ≡ s'
unfolding tables_or
query_tables-written s t s' true e = ap (tables_or s) e
query_tables-written s t s' false e = absurd (ground arith)

pub query_tables-effect :
    (s s' : Tables) (q : Statement) (n : String)
    → query_tables s q ≡ some s'
    → s' n ≡ effect q n (s n)
query_tables-effect s s' q n e =
    sym
      (ap (λ (t : Tables). t n) (query_tables-written s (λ m. effect q m (s m)) s' (can_run s q) e))

abbrev pub memory : Catalog Tables
memory = record {
  table = λ s n. s n;
  query = query_tables;
  query-allowed = query_tables-allowed;
  table-query = query_tables-effect;
}
