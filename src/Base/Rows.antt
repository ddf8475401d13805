-- ===== src/Base/Rows.antt =====
-- The database as the repositories see it. It is not part of the repository, so it is a parameter:
-- `Table` states the documented behaviour of a TypeORM repository over a table with a primary key.
use Prim.Native.Nat.{ℕ}
use mathlib.Core.Path.{◌≡◌}
use mathlib.Core.Bool.{Bool, true, false}
use mathlib.Core.Option.{Option, none, some}
use flatrent.Base.Tests.{◌==◌, if◌then◌else◌}

-- A UUID, which the code compares, stores and prints.
abbrev pub Uuid : Type 0
Uuid = ℕ

-- A `Date`, in milliseconds since 1970, and the ISO text that denotes it.
abbrev pub Date : Type 0
Date = ℕ

pub record Table (S Row : Type 0) (key : Row → Uuid) : Type 0 where
  -- `findOne({ where: { <primary key> } })`
  pub find_one : S → Uuid → Option Row
  -- `getOne()` of a query with a condition
  pub get_one : S → (Row → Bool) → Option Row
  -- `save(row)`, an insert or an update; `none` where the database rejects it
  pub save : S → Row → Option S
  pub find_one-key : (s : S) (k : Uuid) (r : Row) → find_one s k ≡ some r → key r ≡ k
  pub find_one-save :
      (s s' : S) (r : Row) (k : Uuid)
      → save s r ≡ some s'
      → find_one s' k ≡ (if key r == k then some r else find_one s k)
  pub get_one-some :
      (s : S) (p : Row → Bool) (r : Row)
      → get_one s p ≡ some r
      → (p r ≡ true) × (find_one s (key r) ≡ some r)
  pub get_one-none :
      (s : S) (p : Row → Bool) (k : Uuid) (r : Row)
      → get_one s p ≡ none
      → find_one s k ≡ some r
      → p r ≡ false
