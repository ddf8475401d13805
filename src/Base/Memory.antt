-- ===== src/Base/Memory.antt =====
-- A table kept in a list, newest write first: the parameter `Table` at a concrete value. A write is
-- rejected where `accepts` says so, as a constraint of the database does.
use mathlib.Core.Path.{◌≡◌}
use mathlib.Core.Logic.{inl, inr}
use mathlib.Core.Bool.{Bool, true, false}
use mathlib.Core.Option.{Option, none, some}
use mathlib.Core.List.{List, [], ◌∷◌}
use native.Mathlib.Omega.{arith}
use flatrent.Base.Tests.{◌==◌, if◌then◌else◌, Option-cases}
use flatrent.Base.Rows.{Table, Uuid}

module _ {Row : Type 0} (key : Row → Uuid) where
  abbrev pub find_row : List Row → Uuid → Option Row
  find_row [] k = none
  find_row (r ∷ rs) k = if key r == k then some r else find_row rs k

  abbrev pub check : (Row → Bool) → Option Row → Option Row → Option Row
  check p none next = next
  check p (some r) next = if p r then some r else next

  -- The rows that are still visible, among the keys of `ks`.
  abbrev pub search_rows : List Row → (Row → Bool) → List Row → Option Row
  search_rows s p [] = none
  search_rows s p (r ∷ rs) = check p (find_row s (key r)) (search_rows s p rs)

  pub find_row-key : (s : List Row) (k : Uuid) (r : Row) → find_row s k ≡ some r → key r ≡ k
  find_row-key [] k r e = ground arith
  find_row-key (x ∷ s) k r e = ground (arith, find_row-key s k r)

  pub search_rows-some :
      (s : List Row) (p : Row → Bool) (ks : List Row) (r : Row)
      → search_rows s p ks ≡ some r
      → (p r ≡ true) × (find_row s (key r) ≡ some r)
  search_rows-some s p [] r e = ground arith
  search_rows-some s p (x ∷ ks) r e = elim (Option-cases (find_row s (key x))) [
    | inl gone ↦ search_rows-some s p ks r (ground arith)
    | inr (y, found) ↦ ground (arith, find_row-key s (key x) y found, search_rows-some s p ks r)
  ]

  pub search_rows-none :
      (s : List Row) (p : Row → Bool) (ks : List Row) (k : Uuid) (r q : Row)
      → search_rows s p ks ≡ none
      → find_row ks k ≡ some q
      → find_row s k ≡ some r
      → p r ≡ false
  search_rows-none s p [] k r q e m h = ground arith
  search_rows-none s p (x ∷ ks) k r q e m h = ground (arith, search_rows-none s p ks k r q)

module _ {Row : Type 0} (accepts : List Row → Row → Bool) where
  abbrev pub push_row : List Row → Row → Option (List Row)
  push_row s r = if accepts s r then some (r ∷ s) else none

module _ {Row : Type 0} (key : Row → Uuid) (accepts : List Row → Row → Bool) where
  pub find_row-push_row :
      (s s' : List Row) (r : Row) (k : Uuid)
      → push_row accepts s r ≡ some s'
      → find_row key s' k ≡ (if key r == k then some r else find_row key s k)
  find_row-push_row s s' r k e = ground arith

  abbrev pub memory : Table (List Row) Row key
  memory = record {
    find_one = find_row key;
    get_one = λ s p. search_rows key s p s;
    save = push_row accepts;
    find_one-key = find_row-key key;
    find_one-save = find_row-push_row;
    get_one-some = λ s p r e. search_rows-some key s p s r e;
    get_one-none = λ s p k r e h. search_rows-none key s p s k r r e h h;
  }
