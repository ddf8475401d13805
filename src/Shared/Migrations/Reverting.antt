-- ===== src/Shared/Migrations/Reverting.antt =====
-- What a list of statements makes of a table, and that the migrations that drop what they create can
-- be reverted.
use mathlib.Core.Path.{subst}
use text.Mathlib.Text.{◌==◌ as str_eq}
use text.Mathlib.TextEquality.{eq_iff}
use flatrent.Base.{
  ◌≡◌, ◌≢◌, ◌∙◌, refl, sym, ap, String, Bool, true, false, ◌||◌, Option, none, some, List, [], ◌∷◌,
  ◌++◌, All, map, arith, Bool-cases, Option-cases, inl, inr, if◌then◌else◌,
}
use flatrent.Shared.Migrations.{
  Statement, TableDef, Index, Unique, create_extension, drop_extension, create_table, create_index,
  add_constraint, drop_table, concerns, creates, effect, effect_on_other, Catalog, run,
}

unfoldable pub effects : List Statement → String → Option TableDef → Option TableDef
effects [] n old = old
effects (q ∷ qs) n old = effects qs n (effect q n old)

-- The effect on a table that no statement is about.
unfoldable pub effects_on_other : List Statement → Option TableDef → Option TableDef
effects_on_other [] old = old
effects_on_other (q ∷ qs) old = effects_on_other qs (effect_on_other q old)

-- The names of the tables that the statements are about.
abbrev pub subjects : Statement → List String → List String
subjects (create_extension _) ns = ns
subjects (drop_extension _) ns = ns
subjects (create_table d) ns = d.name ∷ ns
subjects (create_index t _) ns = t ∷ ns
subjects (add_constraint t _) ns = t ∷ ns
subjects (drop_table t) ns = t ∷ ns

unfoldable pub named : List Statement → List String
named [] = []
named (q ∷ qs) = subjects q (named qs)

-- The first statement about the table creates it.
unfoldable pub created_first : String → List Statement → Bool
created_first n [] = false
created_first n (q ∷ qs) = if concerns q n then creates q else created_first n qs

abbrev pub has_name : List String → String → Bool
has_name [] n = false
has_name (m ∷ ms) n = str_eq m n || has_name ms n

pub effects_on_other-none : (qs : List Statement) → effects_on_other qs none ≡ none
unfolding effects_on_other
effects_on_other-none [] = refl
effects_on_other-none (drop_extension x ∷ qs) = effects_on_other-none qs
effects_on_other-none (create_extension x ∷ qs) = effects_on_other-none qs
effects_on_other-none (create_table d ∷ qs) = effects_on_other-none qs
effects_on_other-none (create_index t i ∷ qs) = effects_on_other-none qs
effects_on_other-none (add_constraint t i ∷ qs) = effects_on_other-none qs
effects_on_other-none (drop_table t ∷ qs) = effects_on_other-none qs

pub effects-eq-effects_on_other :
    (qs : List Statement) (n : String) (old : Option TableDef)
    → has_name (named qs) n ≡ false
    → effects qs n old ≡ effects_on_other qs old
unfolding effects effects_on_other named
effects-eq-effects_on_other [] n old h = refl
effects-eq-effects_on_other (create_extension x ∷ qs) n old h =
    effects-eq-effects_on_other qs n old h
effects-eq-effects_on_other (drop_extension x ∷ qs) n old h =
    effects-eq-effects_on_other qs n (effect_on_other (drop_extension x) old) h
effects-eq-effects_on_other (create_table d ∷ qs) n old h =
    ground (arith, effects-eq-effects_on_other qs n old)
effects-eq-effects_on_other (create_index t i ∷ qs) n old h =
    ground (arith, effects-eq-effects_on_other qs n old)
effects-eq-effects_on_other (add_constraint t i ∷ qs) n old h =
    ground (arith, effects-eq-effects_on_other qs n old)
effects-eq-effects_on_other (drop_table t ∷ qs) n old h =
    ground (arith, effects-eq-effects_on_other qs n old)

effect_on_other-is_none :
    (q : Statement) (old : Option TableDef) → effect_on_other q old ≡ none → old ≡ none
effect_on_other-is_none q none e = refl
effect_on_other-is_none (drop_extension x) (some d) e = absurd (ground arith)
effect_on_other-is_none (create_extension x) (some d) e = e
effect_on_other-is_none (create_table x) (some d) e = e
effect_on_other-is_none (create_index t i) (some d) e = e
effect_on_other-is_none (add_constraint t i) (some d) e = e
effect_on_other-is_none (drop_table t) (some d) e = e

All-has_name :
    (P : String → Type 0) (ns : List String) (n : String) → All P ns → has_name ns n ≡ true → P n
All-has_name P [] n a h = absurd (ground arith)
All-has_name P (m ∷ ms) n a h = elim (Bool-cases (str_eq m n)) [
  | inl here ↦ subst P ((eq_iff m n).0 here) a.0
  | inr there ↦ All-has_name P ms n a.1 (ground arith)
]

-- The lists of columns that no two rows share, by constraints and by unique indexes.
unfoldable pub index_keys : List Index → List (List String)
index_keys [] = []
index_keys (i ∷ is) = let rest = index_keys is in if i.is_unique then i.columns ∷ rest else rest

abbrev pub unique_keys : TableDef → List (List String)
unique_keys d = map (λ (u : Unique). u.columns) d.uniques ++ index_keys d.indexes

unfoldable pub plain_indexes : List Index → List Index
plain_indexes [] = []
plain_indexes (i ∷ is) = let rest = plain_indexes is in if i.is_unique then rest else i ∷ rest

-- The table has what the entity describes, but may keep a list of columns unique by a constraint where
-- the entity has a unique index, under another name, and may have exclusion constraints.
abbrev pub Fits : TableDef → Option TableDef → Type 0
Fits e t =
    (d : TableDef) × (t ≡ some d)
    × (d.columns ≡ e.columns)
    × (d.primary_key ≡ e.primary_key)
    × (unique_keys d ≡ unique_keys e)
    × (plain_indexes d.indexes ≡ plain_indexes e.indexes)

module _ {S : Type 0} (C : Catalog S) where
  pub table-run :
      (qs : List Statement) (s s' : S) (n : String)
      → run C qs s ≡ some s'
      → C.table s' n ≡ effects qs n (C.table s n)
  unfolding run effects
  table-run [] s s' n e = ground arith
  table-run (q ∷ qs) s s' n e = elim (Option-cases (C.query s q)) [
    | inl failed ↦ absurd (ground (arith, failed))
    | inr (s1, done) ↦ ground (arith, done, table-run qs s1 s' n, C.table-query s s1 q n)
  ]

  pub run-append :
      (qs rs : List Statement) (s s1 : S) → run C qs s ≡ some s1 → run C (qs ++ rs) s ≡ run C rs s1
  unfolding run
  run-append [] rs s s1 e = ground arith
  run-append (q ∷ qs) rs s s1 e = elim (Option-cases (C.query s q)) [
    | inl failed ↦ absurd (ground (arith, failed))
    | inr (s', done) ↦ ground (arith, done, run-append qs rs s' s1)
  ]

  -- Statements that have run found no table where the first of them creates one.
  pub run-created_first :
      (qs : List Statement) (s s' : S) (n : String)
      → run C qs s ≡ some s'
      → created_first n qs ≡ true
      → C.table s n ≡ none
  unfolding run created_first
  run-created_first [] s s' n e h = absurd (ground arith)
  run-created_first (q ∷ qs) s s' n e h = elim (Option-cases (C.query s q)) [
    | inl failed ↦ absurd (ground (arith, failed))
    | inr (s1, done) ↦ elim (Bool-cases (concerns q n)) [
      | inl here ↦ elim (Option-cases (C.table s n)) [
        | inl free ↦ free
        | inr (d, taken) ↦ absurd (ground (arith, C.query-allowed s s1 q n done here))
      ]
      | inr there ↦
          let free = run-created_first qs s1 s' n (ground (arith, done)) (ground arith) in
          effect_on_other-is_none q (C.table s n) (ground (arith, C.table-query s s1 q n done))
    ]
  ]

  -- The statements of `qs` and of `rs` restore every table, up to the extension that they drop, if
  -- between them they leave nothing of a table that is not there, and the first statement about a
  -- table creates it.
  pub run_restores :
      (qs rs : List Statement) (s s1 s2 : S) (n : String)
      → All
          (λ m. (created_first m qs ≡ true) × (effects (qs ++ rs) m none ≡ none))
          (named (qs ++ rs))
      → run C qs s ≡ some s1
      → run C rs s1 ≡ some s2
      → C.table s2 n ≡ effects_on_other (qs ++ rs) (C.table s n)
  run_restores qs rs s s1 s2 n restores up down =
      let whole = run-append qs rs s s1 up ∙ down in
      elim (Bool-cases (has_name (named (qs ++ rs)) n)) [
        | inr other ↦
            table-run (qs ++ rs) s s2 n whole
            ∙ effects-eq-effects_on_other (qs ++ rs) n (C.table s n) other
        | inl own ↦
            let (first, gone) =
              All-has_name (λ m. (created_first m qs ≡ true) × (effects (qs ++ rs) m none ≡ none))
                (named (qs ++ rs)) n restores own in
            let free = run-created_first qs s s1 n up first in
            table-run (qs ++ rs) s s2 n whole
            ∙ ap (effects (qs ++ rs) n) free
            ∙ gone
            ∙ sym (effects_on_other-none (qs ++ rs))
            ∙ ap (effects_on_other (qs ++ rs)) (sym free)
      ]

  -- Migrations that have run cannot run again.
  pub run_once :
      (qs : List Statement) (s s1 : S) (n : String)
      → run C qs s ≡ some s1
      → created_first n qs ≡ true
      → effects qs n none ≢ none
      → run C qs s1 ≡ none
  run_once qs s s1 n up first stays = elim (Option-cases (run C qs s1)) [
    | inl refused ↦ refused
    | inr (s2, again) ↦
        let free = run-created_first qs s s1 n up first in
        let gone = run-created_first qs s1 s2 n again first in
        absurd (stays (sym (table-run qs s s1 n up ∙ ap (effects qs n) free) ∙ gone))
  ]

  pub run-Fits :
      (qs : List Statement) (es : List TableDef) (s s1 : S)
      → All (λ e. (created_first e.name qs ≡ true) × Fits e (effects qs e.name none)) es
      → run C qs s ≡ some s1
      → All (λ e. Fits e (C.table s1 e.name)) es
  run-Fits qs [] s s1 a up = tt
  run-Fits qs (e ∷ es) s s1 a up =
      let free = run-created_first qs s s1 e.name up a.0.0 in
      let stored = table-run qs s s1 e.name up ∙ ap (effects qs e.name) free in
      (subst (Fits e) (sym stored) a.0.1, run-Fits qs es s s1 a.1 up)
