-- ===== src/Auth/Tokens.antt =====
-- Access tokens: auth/infrastructure/security/jwt-token.service.ts and the guard of the routes,
-- auth/interfaces/http/strategies/jwt.strategy.ts. The library jsonwebtoken, and the strategy of
-- passport-jwt that calls it, are a parameter: `JsonWebToken` states their documented behaviour.
-- Times are in seconds.
pub mod Lifetime
use text.Mathlib.Text.{◌==◌ as str_eq}
use flatrent.Base.{
  ℕ, ◌+◌, ◌≡◌, String, Bool, true, false, not, ◌&&◌, ◌||◌, Option, none, some, List, [], ◌∷◌, Uuid,
  Result, ok, err, ltb, some_of, if◌then◌else◌,
}
use flatrent.Base.Text.{codes}
use flatrent.Auth.Errors.{UserRole}
use flatrent.Shared.Http.{HttpException, text_content}

-- `JwtPayload` as the callers of the issuer make it.
pub record JwtPayload : Type 0 where
  pub sub : Uuid
  pub email : List ℕ
  pub role : UserRole
  pub sid : Uuid

pub record TokenData : Type 0 where
  pub email : List ℕ
  pub role : UserRole
  pub sid : Uuid

pub record SignOptions : Type 0 where
  pub algorithm : String
  pub issuer : String
  pub audience : String
  pub subject : Uuid
  pub jwtid : Uuid
  pub expires_in : ℕ
  pub not_before : ℕ

pub record VerifyOptions : Type 0 where
  pub algorithms : List String
  pub issuer : Option String
  pub audience : Option String
  pub ignore_expiration : Bool

-- The claims of a token that was decoded. The code casts them to `JwtPayload` without a check.
pub record Claims : Type 0 where
  pub sub : Option Uuid
  pub email : Option (List ℕ)
  pub role : Option UserRole
  pub sid : Option Uuid
  pub iss : Option String
  pub aud : Option String
  pub jti : Option Uuid
  pub iat : Option ℕ
  pub exp : Option ℕ
  pub nbf : Option ℕ

-- What `sign` puts into a token at a time.
abbrev pub signed_claims : ℕ → TokenData → SignOptions → Claims
signed_claims now d o = record {
  sub = some o.subject;
  email = some d.email;
  role = some d.role;
  sid = some d.sid;
  iss = some o.issuer;
  aud = some o.audience;
  jti = some o.jwtid;
  iat = some now;
  exp = some (now + o.expires_in);
  nbf = some (now + o.not_before);
}

-- An option that is left out is not compared.
abbrev pub agrees : Option String → String → Bool
agrees none s = true
agrees (some t) s = str_eq t s

-- What `verify` checks of a token that carries the signature of the key, in its order.
abbrev pub checked : ℕ → VerifyOptions → SignOptions → ℕ → Claims → Result String Claims
checked now v o issued_at c =
    if not (some_of (str_eq o.algorithm) v.algorithms)
    then err "invalid algorithm"
    else if ltb now (issued_at + o.not_before)
    then err "jwt not active"
    else if not v.ignore_expiration && not (ltb now (issued_at + o.expires_in))
    then err "jwt expired"
    else if not (agrees v.audience o.audience)
    then err "jwt audience invalid"
    else if not (agrees v.issuer o.issuer)
    then err "jwt issuer invalid"
    else ok c

pub record JsonWebToken : Type 1 where
  pub PrivateKey : Type 0
  pub PublicKey : Type 0
  -- a text that only the library reads
  pub Token : Type 0
  -- the other half of a pair that `generateKeyPairSync` made
  pub public_key : PrivateKey → PublicKey
  pub sign : ℕ → TokenData → PrivateKey → SignOptions → Token
  pub verify : ℕ → Token → PublicKey → VerifyOptions → Result String Claims
  pub verify-sign :
      (now issued_at : ℕ) (d : TokenData) (k : PrivateKey) (o : SignOptions) (v : VerifyOptions)
      → verify now (sign issued_at d k o) (public_key k) v
        ≡ checked now v o issued_at (signed_claims issued_at d o)

-- 15 minutes
abbrev pub access_token_lifetime : ℕ
access_token_lifetime = 900

abbrev pub sign_options : JwtPayload → Uuid → SignOptions
sign_options payload jwtid = record {
  algorithm = "RS256";
  issuer = "flatren-auth";
  audience = "flatren-clients";
  subject = payload.sub;
  jwtid = jwtid;
  expires_in = access_token_lifetime;
  not_before = 0;
}

abbrev pub token_data : JwtPayload → TokenData
token_data payload = record { email = payload.email; role = payload.role; sid = payload.sid }

abbrev pub service_options : VerifyOptions
service_options = record {
  algorithms = "RS256" ∷ [];
  issuer = some "flatren-auth";
  audience = some "flatren-clients";
  ignore_expiration = false;
}

-- The strategy names neither an issuer nor an audience.
abbrev pub strategy_options : VerifyOptions
strategy_options = record {
  algorithms = "RS256" ∷ [];
  issuer = none;
  audience = none;
  ignore_expiration = false;
}

-- `new UnauthorizedException(text)`
abbrev pub unauthorized_exception : String → HttpException
unauthorized_exception text = record {
  status = 401;
  name = codes "UnauthorizedException";
  content = text_content (codes text);
  message = codes text;
}

-- `!value` of a claim; an identifier is never the empty text.
abbrev pub is_missing : Option Uuid → Bool
is_missing none = true
is_missing (some _) = false

-- `JwtStrategy.validate`
abbrev pub validate : Claims → Result HttpException Claims
validate payload =
    if is_missing payload.sub || is_missing payload.sid
    then err (unauthorized_exception "Malformed token payload")
    else ok payload

module _ (J : JsonWebToken) (key : J.PrivateKey) where
  unfoldable pub issue_access_token : ℕ → Uuid → JwtPayload → J.Token
  issue_access_token now jwtid payload =
      J.sign now (token_data payload) key (sign_options payload jwtid)

  unfoldable pub verify_access_token : ℕ → J.Token → Result String Claims
  verify_access_token now token = J.verify now token (J.public_key key) service_options

  abbrev pub admitted : Result String Claims → Result HttpException Claims
  admitted (ok payload) = validate payload
  admitted (err text) = err (unauthorized_exception "Unauthorized")

  -- The guard of a route: the bearer token, if there is one, is verified and validated.
  unfoldable pub guard : ℕ → Option J.Token → Result HttpException Claims
  guard now none = err (unauthorized_exception "Unauthorized")
  guard now (some token) = admitted (J.verify now token (J.public_key key) strategy_options)
