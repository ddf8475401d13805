-- ===== src/Shared/Validation.antt =====
-- The validation of request bodies by zod schemas, and the answer to a request. The library is a
-- parameter: `Zod` has its tests on texts and the texts of its issues. A field of a body is `none`
-- where it is missing or is not of the type that the schema asks for.
pub mod Answers
use flatrent.Base.{
  ℕ, String, Bool, true, false, Option, none, some, List, [], ◌∷◌, ◌++◌, Uuid, Date, Result, ok,
  err, length, leb, some_of, if◌then◌else◌,
}
use flatrent.Base.Text.{codes, codes_eq}
use flatrent.Base.Int.{ℤ, pos, negsuc}
use flatrent.Shared.Http.{Text, Issue, Exception, error, Problem, answer}

-- `z.string()` with `uuid()`, `email()`, `datetime()`, `min(n)`, and `z.enum([…])`
pub data Check : Type 0 where
  string uuid email datetime : Check
  min : ℕ → Check
  one_of : List String → Check

pub record Zod : Type 0 where
  pub is_uuid : String → Bool
  pub is_email : String → Bool
  pub is_datetime : String → Bool
  -- the message of an issue
  pub reason : Check → Option String → Text
  pub negative_reason : Text
  pub missing_record : Text
  -- `ZodError.message`, the JSON text of the issues
  pub message_of : List Issue → Text
  -- the identifier and the date that a checked text denotes
  pub uuid_of : String → Uuid
  pub date_of : String → Date

module _ (Z : Zod) where
  abbrev pub passes : Check → String → Bool
  passes string s = true
  passes uuid s = Z.is_uuid s
  passes email s = Z.is_email s
  passes datetime s = Z.is_datetime s
  passes (min n) s = leb n (length (codes s))
  passes (one_of texts) s = some_of (λ t. codes_eq (codes t) (codes s)) texts

  abbrev pub field_passes : Check → Option String → Bool
  field_passes check none = false
  field_passes check (some s) = passes check s

  -- The issue of a field, in front of those of the fields after it.
  abbrev pub field : String → Check → Option String → List Issue → List Issue
  field name check value rest =
      if field_passes check value
      then rest
      else record { path = codes name ∷ []; message = Z.reason check value } ∷ rest

  -- `schema.parse(body)`, and what follows it if there is no issue.
  abbrev pub parsed :
      {S A : Type 0} → List Issue → (S → Result Exception A × S) → S → Result Exception A × S
  parsed [] handler s = handler s
  parsed (i ∷ is) handler s = (err (error (Z.message_of (i ∷ is)) (some (i ∷ is))), s)

-- The value of a field that has passed its check.
abbrev pub given : Option String → String
given none = ""
given (some s) = s

-- An error of a use case is an `Error` without issues; `text` gives its message.
abbrev pub thrown : {S E A : Type 0} → (E → Text) → Result E A × S → Result Exception A × S
thrown text (ok a, s) = (ok a, s)
thrown text (err e, s) = (err (error (text e) none), s)

pub record Response (A : Type 0) : Type 0 where
  pub status : ℕ
  pub body : Result Problem A

-- The answer of a route whose handler returned or threw; the filter answers what was thrown.
abbrev pub respond : {S A : Type 0} → ℕ → Uuid → Text → Result Exception A × S → Response A × S
respond status correlation_id url (ok a, s) = (record { status = status; body = ok a }, s)
respond status correlation_id url (err e, s) =
    let p = answer correlation_id url e in (record { status = p.status; body = err p }, s)
