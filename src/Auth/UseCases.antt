-- ===== src/Auth/UseCases.antt =====
-- The use cases, auth/application/commands and queries, and the module's facade,
-- auth/interfaces/module-api/auth-module-api.facade.ts. Identifiers and tokens that a generator
-- makes, salts, and the time that the clock shows are arguments.
pub mod Accounts
pub mod Sessions
use flatrent.Base.{
  ℕ, ◌+◌, ◌*◌, String, Bool, true, false, not, Option, none, some, List, Uuid, Date, Result, ok,
  err, Action, pure, raise, or_raise, raise_if, lift, ◌>>=◌, ◌>>◌, if◌then◌else◌,
}
use flatrent.Auth.Email.{create_email}
use flatrent.Auth.Errors.{
  Error, policy_unmet, user_exists, invalid_credentials, account_blocked, old_password_invalid,
  user_not_found, associated_user_not_found, session_not_found, session_expired, token_refused,
  UserStatus, UserRole, email_result,
}
use flatrent.Auth.Account.{UserAccount, register, is_blocked, change_password, is_satisfied_by}
use flatrent.Auth.Session.{RefreshSession, new_session, is_expired, rotate, revoke, verify_token}
use flatrent.Auth.Hasher.{Argon2, hash_password, compare_password}
use flatrent.Auth.Database.{AuthSchema, AuthDb}
use flatrent.Auth.Repositories.{
  find_user, find_user_by_email, save_user, find_session, save_session, revoke_all_by_user_id,
}

pub record RegisterUserCommand : Type 0 where
  pub id : Uuid
  pub email : List ℕ
  pub password : String
  pub role : UserRole

pub record RegisterUserResult : Type 0 where
  pub id : Uuid
  pub email : List ℕ

pub record LoginCommand : Type 0 where
  pub email : List ℕ
  pub raw_password : String

pub record LoginResult : Type 0 where
  pub user_id : Uuid
  pub role : UserRole
  pub session_id : Uuid
  pub refresh_token : String

pub record RefreshTokenCommand : Type 0 where
  pub session_id : Uuid
  pub refresh_token : String

pub record RefreshTokenResult : Type 0 where
  pub user_id : Uuid
  pub role : UserRole
  pub next_refresh_token : String

pub record ChangePasswordCommand : Type 0 where
  pub user_id : Uuid
  pub old_password : String
  pub new_password : String

pub record ActorReadModel : Type 0 where
  pub id : Uuid
  pub email : List ℕ
  pub role : UserRole
  pub status : UserStatus

-- `86400000 * 30`
abbrev pub thirty_days : ℕ
thirty_days = 86400000 * 30

-- `throw` where the value is there.
abbrev pub none_or_raise : {S A : Type 0} → Option A → Error → Action S Error (Unit {0})
none_or_raise none e s = (ok tt, s)
none_or_raise (some _) e s = (err e, s)

module _ (M : AuthSchema) (A : Argon2) where
  -- RegisterUserUseCase
  unfoldable pub register_user :
      ℕ → Uuid → Date → RegisterUserCommand → Action (AuthDb M) Error RegisterUserResult
  register_user salt event_id occurred_at c = do
    email ← lift (email_result (create_email c.email))
    existing ← find_user_by_email M email
    none_or_raise existing user_exists
    raise_if (not (is_satisfied_by c.password)) policy_unmet
    password_hash ← lift (hash_password A salt c.password)
    saved ← save_user M (register c.id email password_hash c.role event_id occurred_at)
    pure (record { id = saved.id; email = saved.email })

  -- LoginUseCase
  unfoldable pub login :
      Uuid → String → ℕ → Date → LoginCommand → Action (AuthDb M) Error LoginResult
  login session_id refresh_token salt now c = do
    email ← lift (email_result (create_email c.email))
    found ← find_user_by_email M email
    user ← or_raise found invalid_credentials
    raise_if (is_blocked user) account_blocked
    raise_if (not (compare_password A c.raw_password user.password_hash)) invalid_credentials
    token_hash ← lift (hash_password A salt refresh_token)
    save_session M (new_session session_id user.id token_hash (now + thirty_days))
    pure (record {
      user_id = user.id;
      role = user.role;
      session_id = session_id;
      refresh_token = refresh_token;
    })

  -- `if (session.isExpired(now)) { … }`
  unfoldable pub refuse_expired : Date → RefreshSession → Action (AuthDb M) Error (Unit {0})
  refuse_expired now session db =
      if is_expired now session
      then (save_session M (revoke session) >> raise session_expired) db
      else (ok tt, db)

  -- `try { session.verifyToken(isValid); } catch (error) { … }`: the session as it stands afterwards.
  unfoldable pub verified : Bool → RefreshSession → Action (AuthDb M) Error RefreshSession
  verified is_valid session db =
      let (r, session') = verify_token is_valid session in
      elim r [ ok _ ↦ (ok session', db) | err e ↦ (save_session M session' >> raise e) db ]

  unfoldable pub rotated : String → Date → RefreshSession → Action (AuthDb M) Error RefreshSession
  rotated next_hash expires_at session db =
      let (r, session') = rotate next_hash expires_at session in
      elim r [ ok _ ↦ (ok session', db) | err e ↦ (err e, db) ]

  -- RefreshTokenUseCase, from the reading of the user on
  abbrev pub answer_refresh : Uuid → String → Action (AuthDb M) Error RefreshTokenResult
  answer_refresh user_id next_refresh_token = do
    found ← find_user M user_id
    user ← or_raise found associated_user_not_found
    pure (record { user_id = user.id; role = user.role; next_refresh_token = next_refresh_token })

  -- RefreshTokenUseCase, after the loading of the session
  abbrev pub refresh_loaded :
      String → ℕ → Date → String → RefreshSession → Action (AuthDb M) Error RefreshTokenResult
  refresh_loaded next_refresh_token salt now given session = do
    refuse_expired now session
    checked ← verified (compare_password A given session.token_hash) session
    next_hash ← lift (hash_password A salt next_refresh_token)
    renewed ← rotated next_hash (now + thirty_days) checked
    save_session M renewed
    answer_refresh renewed.user_id next_refresh_token

  unfoldable pub refresh_token :
      String → ℕ → Date → RefreshTokenCommand → Action (AuthDb M) Error RefreshTokenResult
  refresh_token next_refresh_token salt now c = do
    found ← find_session M c.session_id
    session ← or_raise found session_not_found
    refresh_loaded next_refresh_token salt now c.refresh_token session

  -- LogoutUseCase
  unfoldable pub logout : Uuid → Action (AuthDb M) Error (Unit {0})
  logout session_id = do
    found ← find_session M session_id
    session ← or_raise found session_not_found
    save_session M (revoke session)
    pure tt

  -- RevokeSessionsUseCase
  abbrev pub revoke_sessions : Uuid → Action (AuthDb M) Error (Unit {0})
  revoke_sessions user_id = revoke_all_by_user_id M user_id

  -- ChangePasswordUseCase
  unfoldable pub change_password_of :
      ℕ → Uuid → Date → ChangePasswordCommand → Action (AuthDb M) Error (Unit {0})
  change_password_of salt event_id occurred_at c = do
    found ← find_user M c.user_id
    user ← or_raise found user_not_found
    raise_if (not (compare_password A c.old_password user.password_hash)) old_password_invalid
    raise_if (not (is_satisfied_by c.new_password)) policy_unmet
    new_hash ← lift (hash_password A salt c.new_password)
    save_user M (change_password new_hash occurred_at event_id user)
    pure tt

module _ (M : AuthSchema) where
  -- GetCurrentActorUseCase
  unfoldable pub get_current_actor : Uuid → Action (AuthDb M) Error ActorReadModel
  get_current_actor user_id = do
    found ← find_user M user_id
    user ← or_raise found user_not_found
    pure (record { id = user.id; email = user.email; role = user.role; status = user.status })

  -- `AuthModuleApiFacade.authenticateAccessToken`, over the verifier of tokens, which answers the
  -- subject of a token or the text of its refusal; `T` is the type of the tokens.
  abbrev pub refused : Result String Uuid → Result Error Uuid
  refused (ok sub) = ok sub
  refused (err text) = err (token_refused text)

  abbrev pub authenticate_access_token :
      {T : Type 0} → (T → Result String Uuid) → T → Action (AuthDb M) Error ActorReadModel
  authenticate_access_token verify token = do
    sub ← lift (refused (verify token))
    get_current_actor sub
