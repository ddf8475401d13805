-- ===== src/Auth/Controller/Answers.antt =====
-- What the routes of the auth module answer.
use mathlib.Core.Path.{subst}
use flatrent.Base.{
  ℕ, ◌≡◌, refl, sym, String, true, false, none, some, List, [], Uuid, Date, ok, err, arith,
  Bool-cases, inl, inr,
}
use flatrent.Base.Text.{codes, codes_eq}
use flatrent.Shared.Http.{Text, error, answer}
use flatrent.Shared.Validation.{Zod, given, Response}
use flatrent.Shared.Validation.Answers.{parsed_answers, http_status}
use flatrent.Auth.Email.{create_email}
use flatrent.Auth.Errors.{message, invalid_credentials}
use flatrent.Auth.Account.{UserAccount, is_blocked}
use flatrent.Auth.Hasher.{Argon2, hash_password, compare_password}
use flatrent.Auth.Database.{AuthSchema, AuthDb, UserAccountEntity}
use flatrent.Auth.Repositories.{find_user_by_email}
use flatrent.Auth.Repositories.Reads.{find_user_by_email_reads}
use flatrent.Auth.UseCases.{LoginResult, login, register_user, change_password_of}
use flatrent.Auth.Statuses.{answer-auth_status}
use flatrent.Auth.UseCases.Accounts.Registration.{Enrols, enrolled, register_user-Enrols}
use flatrent.Auth.UseCases.Accounts.Passwords.{Rehashes, rehashed, change_password_of-Rehashes}
use flatrent.Auth.Tokens.{JsonWebToken, JwtPayload, issue_access_token, unauthorized_exception}
use flatrent.Auth.Tokens.Lifetime.{is_current, guard-issue_access_token}
use flatrent.Auth.Controller.{
  RegisterBody, LoginBody, ChangePasswordBody, register_issues, login_issues,
  change_password_issues, register_command, change_password_command, register_route, login_route,
  change_password_route,
}

module _ (Z : Zod) (M : AuthSchema) (A : Argon2) (driver : String) (correlation_id : Uuid)
    (url : Text) where
  -- The body passes, and no account has the e-mail.
  abbrev pub Unknown : LoginBody → AuthDb M → Type 0
  Unknown b db =
      (login_issues Z b ≡ [])
      × (email : List ℕ) × (create_email (codes (given b.email)) ≡ ok email)
      × ((find_user_by_email M email db).0 ≡ ok none)

  -- The body passes, and the account of the e-mail is not blocked and has another password.
  abbrev pub Mismatched : LoginBody → AuthDb M → Type 0
  Mismatched b db =
      (login_issues Z b ≡ [])
      × (email : List ℕ) × (u : UserAccount) × (create_email (codes (given b.email)) ≡ ok email)
      × ((find_user_by_email M email db).0 ≡ ok (some u))
      × (is_blocked u ≡ false)
      × (compare_password A (given b.password) u.password_hash ≡ false)

  -- The answer of a login with wrong credentials.
  abbrev pub rejection : Response LoginResult
  rejection =
      let p = answer correlation_id url (error (message driver invalid_credentials) none) in
      record { status = p.status; body = err p }

  login_route-Unknown :
      (session_id : Uuid) (token : String) (salt : ℕ) (now : Date) (b : LoginBody) (db : AuthDb M)
      → Unknown b db
      → login_route Z M A driver correlation_id url session_id token salt now b db ≡ (rejection, db)
  unfolding login_route login
  login_route-Unknown session_id token salt now b db (passed, email, good, missing) =
      ground (arith, passed, good, missing, find_user_by_email_reads M email db)

  login_route-Mismatched :
      (session_id : Uuid) (token : String) (salt : ℕ) (now : Date) (b : LoginBody) (db : AuthDb M)
      → Mismatched b db
      → login_route Z M A driver correlation_id url session_id token salt now b db ≡ (rejection, db)
  unfolding login_route login
  login_route-Mismatched session_id token salt now b db
        (passed, email, u, good, found, free, wrong) =
      ground (arith, passed, good, found, free, wrong, find_user_by_email_reads M email db)

  -- A login with an e-mail that no account has and a login with a wrong password for an account that
  -- is not blocked get one and the same answer, with status 401, and change nothing: the answer does
  -- not tell whether the account exists.
  pub login_route_uniform :
      (session_id session_id' : Uuid) (token token' : String) (salt salt' : ℕ) (now now' : Date)
      (b b' : LoginBody) (db db' : AuthDb M)
      → Unknown b db
      → Mismatched b' db'
      → (login_route Z M A driver correlation_id url session_id token salt now b db
          ≡ (rejection, db))
        × (login_route Z M A driver correlation_id url session_id' token' salt' now' b' db'
            ≡ (rejection, db'))
        × (rejection.status ≡ 401)
  login_route_uniform session_id session_id' token token' salt salt' now now' b b' db db' un mis = (
    login_route-Unknown session_id token salt now b db un,
    login_route-Mismatched session_id' token' salt' now' b' db' mis,
    answer-auth_status driver correlation_id url invalid_credentials none refl,
  )

  -- A registration that is answered with 201 had a body that passes the schema, and the use case has
  -- answered: the account is stored, active, with a hash of the password that the body gives, under
  -- an identifier and an e-mail that no account had, its event is recorded, and no session and no delivery changes.
  pub register_route-Enrols :
      (salt : ℕ) (event_id : Uuid) (at : Date) (b : RegisterBody) (db : AuthDb M)
      → (register_route Z M A driver correlation_id url salt event_id at b db).0.status ≡ 201
      → (register_issues Z b ≡ [])
        × (email : List ℕ) × (hash : String) × (create_email (codes (given b.email)) ≡ ok email)
        × (M.users.get_one db.users (λ e. codes_eq e.email email) ≡ none)
        × (hash_password A salt (given b.password) ≡ ok hash)
        × Enrols M db
            (register_route Z M A driver correlation_id url salt event_id at b db).1
            (enrolled M A (register_command Z b) email hash)
            at
            event_id
  unfolding register_route
  register_route-Enrols salt event_id at b db created =
      let c = register_command Z b in
      let (passed, a, answered, kept) =
        parsed_answers Z correlation_id url (message driver) 201 (register_issues Z b)
          (register_user M A salt event_id at c) db (omega arith) created in
      let (email, hash, good, free, strong, hashed, told, effect) =
        register_user-Enrols M A c salt event_id at db a answered in
      (
        passed,
        email,
        hash,
        good,
        free,
        hashed,
        subst (λ d. Enrols M db d (enrolled M A c email hash) at event_id) (sym kept) effect,
      )

  module _ (J : JsonWebToken) (key : J.PrivateKey) where
    -- A change of password that comes with an access token which was issued for a user, and that is
    -- answered with 204, comes within fifteen minutes of the issue; it is the account of this user
    -- whose password was checked, and whose hash becomes a hash of the new password, at the next
    -- version and with the e-mail in its normalized form; the event is recorded, and nothing else
    -- changes.
    pub change_password_route-Rehashes :
        (now issued_at : ℕ) (jwtid : Uuid) (p : JwtPayload) (salt : ℕ) (event_id : Uuid) (at : Date)
        (b : ChangePasswordBody) (db : AuthDb M)
        → (change_password_route Z M A driver correlation_id url J key now
            (some (issue_access_token J key issued_at jwtid p))
            salt
            event_id
            at
            b
            db).0.status
          ≡ 204
        → (is_current J key now issued_at ≡ true)
          × (e : UserAccountEntity) × (email : List ℕ) × (hash : String) × (M.users.find_one
                db.users p.sub
              ≡ some e)
          × (create_email e.email ≡ ok email)
          × (compare_password A (given b.old_password) e.password_hash ≡ true)
          × (hash_password A salt (given b.new_password) ≡ ok hash)
          × Rehashes M db
              (change_password_route Z M A driver correlation_id url J key now
                (some (issue_access_token J key issued_at jwtid p))
                salt
                event_id
                at
                b
                db).1
              (rehashed M e email hash)
              at
              event_id
    unfolding change_password_route
    change_password_route-Rehashes now issued_at jwtid p salt event_id at b db changed =
        elim (Bool-cases (is_current J key now issued_at)) [
          | inr late ↦ absurd (
              ground (
                arith,
                late,
                http_status Z correlation_id url (message driver)
                    (unauthorized_exception "Unauthorized"),
                guard-issue_access_token J key now issued_at jwtid p,
              ))
          | inl current ↦
              let c = change_password_command p.sub b in
              let admitted = guard-issue_access_token J key now issued_at jwtid p in
              let (passed, a, answered, kept) =
                parsed_answers Z correlation_id url (message driver) 204
                  (change_password_issues Z b) (change_password_of M A salt event_id at c) db
                  (omega arith) (ground (arith, current, admitted)) in
              let (e, email, hash, found, good, right, strong, hashed, effect) =
                change_password_of-Rehashes M A c salt event_id at db answered in
              (
                current,
                e,
                email,
                hash,
                found,
                good,
                right,
                hashed,
                subst (λ d. Rehashes M db d (rehashed M e email hash) at event_id)
                    {x = (change_password_of M A salt event_id at c db).1}
                    (ground (arith, current, admitted, kept)) effect,
              )
        ]
