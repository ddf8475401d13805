-- ===== src/Auth/Tests/Issuing.antt =====
-- The theorems on access tokens at concrete inputs: a token is what it was signed from.
use flatrent.Base.{ℕ, ◌≡◌, refl}
use flatrent.Base.Text.{codes}
use flatrent.Auth.Errors.{landlord}
use flatrent.Auth.UseCases.{get_current_actor, authenticate_access_token}
use flatrent.Auth.Tokens.{
  JsonWebToken, JwtPayload, TokenData, SignOptions, signed_claims, checked, issue_access_token,
  verify_access_token,
}
use flatrent.Auth.Tokens.Lifetime.{subject_of, authenticate_access_token-issue_access_token}
use flatrent.Auth.Tests.{sql, signed_in}

pub record Signed : Type 0 where
  pub issued_at : ℕ
  pub content : TokenData
  pub options : SignOptions

abbrev pub library : JsonWebToken
library = record {
  PrivateKey = ℕ;
  PublicKey = ℕ;
  Token = Signed;
  public_key = λ k. k;
  sign = λ now d k o. record { issued_at = now; content = d; options = o };
  verify = λ now t k v.
      checked now v t.options t.issued_at (signed_claims t.issued_at t.content t.options);
  verify-sign = λ now issued_at d k o v. refl;
}

abbrev pub payload : JwtPayload
payload = record { sub = 1; email = codes "a@b.c"; role = landlord; sid = 7 }

authenticate_access_token-issue_access_token_example :
    authenticate_access_token sql
      (λ token. subject_of (verify_access_token library 3 899 token))
      (issue_access_token library 3 0 40 payload)
      signed_in
    ≡ get_current_actor sql 1 signed_in
authenticate_access_token-issue_access_token_example =
    authenticate_access_token-issue_access_token library 3 sql 899 0 40 payload signed_in
