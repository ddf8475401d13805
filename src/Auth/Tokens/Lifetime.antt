-- ===== src/Auth/Tokens/Lifetime.antt =====
-- How long a token that was issued is taken, and whom it stands for.
use flatrent.Base.{
  ℕ, ◌+◌, ◌≡◌, String, ◌∙◌, Bool, ◌&&◌, none, some, Uuid, Result, ok, err, arith, ltb, leb,
  if◌then◌else◌,
}
use flatrent.Auth.Errors.{token_refused}
use flatrent.Auth.Database.{AuthSchema, AuthDb}
use flatrent.Auth.UseCases.{get_current_actor, authenticate_access_token}
use flatrent.Auth.Tokens.{
  JsonWebToken, JwtPayload, Claims, signed_claims, token_data, sign_options, access_token_lifetime,
  issue_access_token, verify_access_token, guard, unauthorized_exception, strategy_options,
  service_options,
}

-- `payload.sub` of the claims that the service has decoded, as the facade reads it. The service signs
-- no token without a subject, so the answer to claims without one stands for no run of the facade.
abbrev pub subject_of : Result String Claims → Result String Uuid
subject_of (err text) = err text
subject_of (ok c) = elim (c.sub) [ none ↦ err "undefined" | some sub ↦ ok sub ]

module _ (J : JsonWebToken) (key : J.PrivateKey) where
  abbrev pub issued_claims : ℕ → Uuid → JwtPayload → Claims
  issued_claims now jwtid p = signed_claims now (token_data p) (sign_options p jwtid)

  abbrev pub is_current : ℕ → ℕ → Bool
  is_current now issued_at = leb issued_at now && ltb now (issued_at + access_token_lifetime)

  abbrev pub refusal : ℕ → ℕ → String
  refusal now issued_at = if ltb now issued_at then "jwt not active" else "jwt expired"

  -- The service takes an access token that it issued from the second of its issue on for fifteen
  -- minutes, and never outside of them; it gives back the user, the e-mail, the role and the session
  -- that it was issued for.
  pub verify_access_token-issue_access_token :
      (now issued_at : ℕ) (jwtid : Uuid) (p : JwtPayload)
      → verify_access_token J key now (issue_access_token J key issued_at jwtid p) ≡ (
          if is_current now issued_at
          then ok (issued_claims issued_at jwtid p)
          else err (refusal now issued_at))
  unfolding issue_access_token verify_access_token
  verify_access_token-issue_access_token now issued_at jwtid p =
      J.verify-sign now issued_at (token_data p) key (sign_options p jwtid) service_options
      ∙ ground arith

  strategy-issue_access_token :
      (now issued_at : ℕ) (jwtid : Uuid) (p : JwtPayload)
      → J.verify now
          (issue_access_token J key issued_at jwtid p)
          (J.public_key key)
          strategy_options
        ≡ (if is_current now issued_at
            then ok (issued_claims issued_at jwtid p)
            else err (refusal now issued_at))
  unfolding issue_access_token
  strategy-issue_access_token now issued_at jwtid p =
      J.verify-sign now issued_at (token_data p) key (sign_options p jwtid) strategy_options
      ∙ ground arith

  -- The guard of the routes takes an issued token in the same fifteen minutes, and answers 401 to it
  -- outside of them.
  pub guard-issue_access_token :
      (now issued_at : ℕ) (jwtid : Uuid) (p : JwtPayload)
      → guard J key now (some (issue_access_token J key issued_at jwtid p)) ≡ (
          if is_current now issued_at
          then ok (issued_claims issued_at jwtid p)
          else err (unauthorized_exception "Unauthorized"))
  unfolding guard
  guard-issue_access_token now issued_at jwtid p =
      ground (arith, strategy-issue_access_token now issued_at jwtid p)

  -- The facade answers a token that was issued for a user with the snapshot of that user as the
  -- database holds it now, for fifteen minutes from the issue on, and refuses it without a look at
  -- the database before and after.
  pub authenticate_access_token-issue_access_token :
      (M : AuthSchema) (now issued_at : ℕ) (jwtid : Uuid) (p : JwtPayload) (db : AuthDb M)
      → authenticate_access_token M
          (λ token. subject_of (verify_access_token J key now token))
          (issue_access_token J key issued_at jwtid p)
          db
        ≡ (if is_current now issued_at
            then get_current_actor M p.sub db
            else (err (token_refused (refusal now issued_at)), db))
  authenticate_access_token-issue_access_token M now issued_at jwtid p db =
      ground (arith, verify_access_token-issue_access_token now issued_at jwtid p)
