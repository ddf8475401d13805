-- ===== src/Auth/Controller.antt =====
-- The routes of the auth module, auth/interfaces/http/auth.controller.ts, down to the use cases that
-- its commands and queries reach, and up to the answer that the exception filter gives. `url` and
-- `correlation_id` are those of the request.
pub mod Answers
use flatrent.Base.{
  ℕ, String, Option, none, some, List, [], ◌∷◌, Uuid, Date, Result, ok, err, Action, if◌then◌else◌,
}
use flatrent.Base.Text.{codes, codes_eq}
use flatrent.Shared.Http.{Text, Issue, Exception, error, http_exception, HttpException}
use flatrent.Shared.Validation.{
  Zod, string, uuid, email, min, one_of, field, parsed, given, thrown, Response, respond,
}
use flatrent.Auth.Errors.{Error, message, UserRole, landlord, tenant}
use flatrent.Auth.Hasher.{Argon2}
use flatrent.Auth.Database.{AuthSchema, AuthDb}
use flatrent.Auth.UseCases.{
  RegisterUserCommand, RegisterUserResult, LoginCommand, LoginResult, RefreshTokenCommand,
  RefreshTokenResult, ChangePasswordCommand, ActorReadModel, register_user, login, refresh_token,
  logout, change_password_of, get_current_actor,
}
use flatrent.Auth.Tokens.{JsonWebToken, Claims, guard, unauthorized_exception}

pub record RegisterBody : Type 0 where
  pub id : Option String
  pub email : Option String
  pub password : Option String
  pub role : Option String

pub record LoginBody : Type 0 where
  pub email : Option String
  pub password : Option String

pub record RefreshBody : Type 0 where
  pub session_id : Option String
  pub refresh_token : Option String

pub record LogoutBody : Type 0 where
  pub session_id : Option String

pub record ChangePasswordBody : Type 0 where
  pub old_password : Option String
  pub new_password : Option String

-- `validated.role as UserRole`
abbrev pub role_of : String → UserRole
role_of s = if codes_eq (codes s) (codes "LANDLORD") then landlord else tenant

module _ (Z : Zod) where
  -- `RegisterSchema`, `LoginSchema`, `RefreshSchema`, `LogoutSchema` and `ChangePasswordSchema`
  abbrev pub register_issues : RegisterBody → List Issue
  register_issues b = field Z "id" uuid b.id (
      field Z "email" email b.email (
        field Z "password" (min 8) b.password
          (field Z "role" (one_of ("LANDLORD" ∷ "TENANT" ∷ [])) b.role [])))

  abbrev pub login_issues : LoginBody → List Issue
  login_issues b = field Z "email" email b.email (field Z "password" string b.password [])

  abbrev pub refresh_issues : RefreshBody → List Issue
  refresh_issues b =
      field Z "sessionId" uuid b.session_id (field Z "refreshToken" string b.refresh_token [])

  abbrev pub logout_issues : LogoutBody → List Issue
  logout_issues b = field Z "sessionId" uuid b.session_id []

  abbrev pub change_password_issues : ChangePasswordBody → List Issue
  change_password_issues b =
      field Z "oldPassword" string b.old_password (field Z "newPassword" (min 8) b.new_password [])

  abbrev pub register_command : RegisterBody → RegisterUserCommand
  register_command b = record {
    id = Z.uuid_of (given b.id);
    email = codes (given b.email);
    password = given b.password;
    role = role_of (given b.role);
  }

abbrev pub login_command : LoginBody → LoginCommand
login_command b = record { email = codes (given b.email); raw_password = given b.password }

abbrev pub change_password_command : Uuid → ChangePasswordBody → ChangePasswordCommand
change_password_command user_id b = record {
  user_id = user_id;
  old_password = given b.old_password;
  new_password = given b.new_password;
}

module _ (Z : Zod) (M : AuthSchema) (A : Argon2) (driver : String) (correlation_id : Uuid)
    (url : Text) where
  -- POST register
  unfoldable pub register_route :
      ℕ → Uuid → Date → RegisterBody → AuthDb M → Response RegisterUserResult × AuthDb M
  register_route salt event_id occurred_at b db = respond 201 correlation_id url (
      parsed Z (register_issues Z b)
        (λ s.
          thrown (message driver)
            (register_user M A salt event_id occurred_at (register_command Z b) s))
        db)

  -- POST login
  unfoldable pub login_route :
      Uuid → String → ℕ → Date → LoginBody → AuthDb M → Response LoginResult × AuthDb M
  login_route session_id refresh_token salt now b db = respond 200 correlation_id url (
      parsed Z (login_issues Z b)
        (λ s.
          thrown (message driver) (login M A session_id refresh_token salt now (login_command b) s))
        db)

  -- POST refresh
  unfoldable pub refresh_route :
      String → ℕ → Date → RefreshBody → AuthDb M → Response RefreshTokenResult × AuthDb M
  refresh_route next_refresh_token salt now b db =
      let c : RefreshTokenCommand = record {
        session_id = Z.uuid_of (given b.session_id);
        refresh_token = given b.refresh_token;
      } in
      respond 200 correlation_id url (
        parsed Z (refresh_issues Z b)
          (λ s. thrown (message driver) (refresh_token M A next_refresh_token salt now c s)) db)

  -- POST logout
  unfoldable pub logout_route : LogoutBody → AuthDb M → Response (Unit {0}) × AuthDb M
  logout_route b db = respond 204 correlation_id url (
      parsed Z (logout_issues Z b)
        (λ s. thrown (message driver) (logout M A (Z.uuid_of (given b.session_id)) s)) db)

  module _ (J : JsonWebToken) (key : J.PrivateKey) where
    -- `req.user.sub`, where the guard has let the request through.
    abbrev pub guarded :
        {B : Type 0}
        → Result HttpException Claims
        → (Uuid → AuthDb M → Result Exception B × AuthDb M)
        → AuthDb M
        → Result Exception B × AuthDb M
    guarded (err e) handler db = (err (http_exception e), db)
    guarded (ok c) handler db = elim (c.sub) [
      | none ↦ (err (http_exception (unauthorized_exception "Malformed token payload")), db)
      | some sub ↦ handler sub db
    ]

    -- POST change-password, where `now` is in seconds
    unfoldable pub change_password_route :
        ℕ
        → Option J.Token
        → ℕ
        → Uuid
        → Date
        → ChangePasswordBody
        → AuthDb M
        → Response (Unit {0}) × AuthDb M
    change_password_route now token salt event_id occurred_at b db =
        respond 204 correlation_id url (
          guarded (guard J key now token)
            (λ sub. parsed Z (change_password_issues Z b) (λ s.
              thrown (message driver) (
                change_password_of M A salt event_id occurred_at (change_password_command sub b)
                  s)))
            db)

    -- GET me
    unfoldable pub me_route : ℕ → Option J.Token → AuthDb M → Response ActorReadModel × AuthDb M
    me_route now token db = respond 200 correlation_id url (
        guarded (guard J key now token)
          (λ sub s. thrown (message driver) (get_current_actor M sub s)) db)
