-- ===== src/Shared/Validation/Answers.antt =====
-- The statuses that a route answers with, and what follows from one of success.
use flatrent.Base.{
  ℕ, ◌≡◌, ◌≤◌, refl, List, [], ◌∷◌, Uuid, Result, ok, err, Action, arith, Bool-cases, inl, inr,
}
use flatrent.Shared.Http.{
  Text, Issue, http_exception, HttpException, verdict_of, includes_any, conflict_words,
  not_found_words, credential_words, blocked_words, validation_words, answer,
}
use flatrent.Shared.Validation.{Zod, parsed, thrown, respond}

-- The filter answers an error with none of the statuses of success.
verdict_status : (msg : Text) → 300 ≤ (verdict_of msg).status
unfolding verdict_of
verdict_status msg = elim (Bool-cases (includes_any msg conflict_words)) [
  | inl a ↦ ground (arith, a)
  | inr a ↦ elim (Bool-cases (includes_any msg not_found_words)) [
    | inl b ↦ ground (arith, a, b)
    | inr b ↦ elim (Bool-cases (includes_any msg credential_words)) [
      | inl c ↦ ground (arith, a, b, c)
      | inr c ↦ elim (Bool-cases (includes_any msg blocked_words)) [
        | inl d ↦ ground (arith, a, b, c, d)
        | inr d ↦ elim (Bool-cases (includes_any msg validation_words)) [
          | inl e ↦ ground (arith, a, b, c, d, e)
          | inr e ↦ ground (arith, a, b, c, d, e)
        ]
      ]
    ]
  ]
]

module _ {E : Type 0} (Z : Zod) (correlation_id : Uuid) (url : Text) (text : E → Text) where
  pub respond-thrown :
      {S B : Type 0} (status : ℕ) (r : Result E B × S)
      → status ≤ 204
      → (respond status correlation_id url (thrown text r)).0.status ≡ status
      → (a : B) × (r.0 ≡ ok a) × ((respond status correlation_id url (thrown text r)).1 ≡ r.1)
  unfolding answer
  respond-thrown status (ok a, s) few same = (a, refl, refl)
  respond-thrown status (err e, s) few same = absurd (omega (arith, verdict_status (text e), same))

  pub http_status :
      (e : HttpException) → (answer correlation_id url (http_exception e)).status ≡ e.status
  unfolding answer
  http_status e = refl

  -- A route that answers with its status of success has found no issue and its use case has answered.
  pub parsed_answers :
      {S B : Type 0} (status : ℕ) (issues : List Issue) (use_case : Action S E B) (db : S)
      → status ≤ 204
      → (respond status correlation_id url
          (parsed Z issues (λ s. thrown text (use_case s)) db)).0.status
        ≡ status
      → (issues ≡ [])
        × (a : B) × ((use_case db).0 ≡ ok a)
        × ((respond status correlation_id url
              (parsed Z issues (λ s. thrown text (use_case s)) db)).1
            ≡ (use_case db).1)
  unfolding answer
  parsed_answers status [] use_case db few same =
      let (a, answered, kept) = respond-thrown status (use_case db) few same in
      (refl, a, answered, kept)
  parsed_answers status (i ∷ is) use_case db few same =
      absurd (omega (arith, verdict_status (Z.message_of (i ∷ is)), same))

  -- What a route leaves is what its use case leaves, or what was there.
  pub thrown_keeps :
      {S B : Type 0} (P : S → Type 0) (status : ℕ) (r : Result E B × S)
      → P r.1
      → P (respond status correlation_id url (thrown text r)).1
  thrown_keeps P status (ok a, s) after = after
  thrown_keeps P status (err e, s) after = after

  pub parsed_keeps :
      {S B : Type 0} (P : S → Type 0) (status : ℕ) (issues : List Issue) (use_case : Action S E B)
      (db : S)
      → P db
      → P (use_case db).1
      → P (respond status correlation_id url (parsed Z issues (λ s. thrown text (use_case s)) db)).1
  parsed_keeps P status [] use_case db before after = thrown_keeps P status (use_case db) after
  parsed_keeps P status (i ∷ is) use_case db before after = before
