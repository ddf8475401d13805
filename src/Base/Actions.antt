-- ===== src/Base/Actions.antt =====
-- An asynchronous call that reads and writes a state and may throw. The state comes back after a
-- throw too: what was written stays written.
use mathlib.Core.Path.{◌≡◌, refl, ap}
use mathlib.Core.Logic.{◌⊎◌, inl, inr}
use mathlib.Core.Bool.{Bool}
use mathlib.Core.Option.{Option, none, some}
use flatrent.Base.Tests.{if◌then◌else◌}

pub data Result (E A : Type 0) : Type 0 where
  ok : A → Result E A
  err : E → Result E A

pub Result-cases :
    {E A : Type 0} (r : Result E A) → ((a : A) × (r ≡ ok a)) ⊎ ((e : E) × (r ≡ err e))
Result-cases (ok a) = inl (a, refl)
Result-cases (err e) = inr (e, refl)

abbrev pub Action : Type 0 → Type 0 → Type 0 → Type 0
Action S E A = S → Result E A × S

module _ {S E A : Type 0} where
  abbrev pub pure : A → Action S E A
  pure a s = (ok a, s)

  -- `throw e`
  abbrev pub raise : E → Action S E A
  raise e s = (err e, s)

  abbrev pub gets : (S → A) → Action S E A
  gets f s = (ok (f s), s)

  -- `if (!o) throw e;`
  abbrev pub or_raise : Option A → E → Action S E A
  or_raise none e s = (err e, s)
  or_raise (some a) e s = (ok a, s)

  -- A database write: `none` is a rejected promise.
  abbrev pub write : Option S → A → E → Action S E A
  write none a e s = (err e, s)
  write (some s') a e s = (ok a, s')

infixl 5 ◌>>=◌ ◌>>◌
abbrev pub ◌>>=◌ : {S E A B : Type 0} → Action S E A → (A → Action S E B) → Action S E B
◌>>=◌ m f s = let (r, s') = m s in elim r [ ok a ↦ f a s' | err e ↦ (err e, s') ]

abbrev pub ◌>>◌ : {S E A B : Type 0} → Action S E A → Action S E B → Action S E B
m >> k = m >>= λ _. k

module _ {S E : Type 0} where
  abbrev pub raise_if : Bool → E → Action S E (Unit {0})
  raise_if c e s = (if c then err e else ok tt, s)

  abbrev pub modify : (S → S) → Action S E (Unit {0})
  modify f s = (ok tt, f s)

module _ {S E A B : Type 0} where
  abbrev pub continue : (A → Action S E B) → Result E A × S → Result E B × S
  continue f p = elim p.0 [ ok a ↦ f a p.1 | err e ↦ (err e, p.1) ]

  -- A step that is known to return, and one that is known to throw.
  pub >>=-ok :
      (m : Action S E A) (f : A → Action S E B) {s s' : S} {a : A}
      → m s ≡ (ok a, s')
      → (m >>= f) s ≡ f a s'
  >>=-ok m f e = ap (continue f) e

  pub >>=-err :
      (m : Action S E A) (f : A → Action S E B) {s s' : S} {e : E}
      → m s ≡ (err e, s')
      → (m >>= f) s ≡ (err e, s')
  >>=-err m f h = ap (continue f) h

-- A method call on an object that the caller holds: the object's new value, or the error that the
-- method threw.
abbrev pub call : {S O E A : Type 0} → Action O E A → O → Action S E (A × O)
call m o s = let (r, o') = m o in elim r [ ok a ↦ (ok (a, o'), s) | err e ↦ (err e, s) ]

-- `manager.transaction(work)`: a throw rolls every write of `work` back.
abbrev pub transaction : {S E A : Type 0} → Action S E A → Action S E A
transaction m s = let (r, s') = m s in elim r [ ok a ↦ (ok a, s') | err e ↦ (err e, s) ]

-- A call that does not touch the state.
abbrev pub lift : {S E A : Type 0} → Result E A → Action S E A
lift r s = (r, s)
