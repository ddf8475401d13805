-- ===== src/Auth/UseCases/Accounts/Credentials.antt =====
-- The login that follows a registration.
use mathlib.Core.Path.{subst}
use flatrent.Base.{
  ℕ, ◌+◌, ◌≡◌, refl, ◌∙◌, String, Bool, true, false, none, some, List, [], ◌∷◌, Uuid, Date, Result,
  ok, err, ◌⊎◌, inl, inr, arith, Bool-cases, Option-cases,
}
use flatrent.Base.Text.{codes_eq, is_empty}
use flatrent.Auth.Email.{create_email}
use flatrent.Auth.Email.Format.{create_email-create_email}
use flatrent.Auth.Errors.{Error, invalid_credentials, database_failure, UserRole}
use flatrent.Auth.Account.{UserAccount, is_blocked}
use flatrent.Auth.Session.{new_session}
use flatrent.Auth.Hasher.{Argon2, compare_password}
use flatrent.Auth.Database.{
  AuthSchema, AuthDb, UserAccountEntity, RefreshSessionEntity, user_to_domain, account_of,
}
use flatrent.Auth.Repositories.{find_user_by_email}
use flatrent.Auth.Repositories.Reads.{find_user_by_email_reads}
use flatrent.Auth.UseCases.{
  thirty_days, LoginCommand, LoginResult, RegisterUserCommand, RegisterUserResult, login,
  register_user,
}
use flatrent.Auth.UseCases.Sessions.{opens}
use flatrent.Auth.UseCases.Sessions.Rows.{save_session_new, compare_password-hash_password}
use flatrent.Auth.UseCases.Sessions.Steps.{hash_password_some}
use flatrent.Auth.UseCases.Accounts.Registration.{Adds, enrolled, register_user-Enrols}

codes_eq_refl : (s : List ℕ) → codes_eq s s ≡ true
codes_eq_refl [] = refl
codes_eq_refl (c ∷ s) = ground (arith, codes_eq_refl s)

module _ (M : AuthSchema) (A : Argon2) where
  -- The one row with the e-mail is the row that was added.
  get_one-Adds :
      (db db' : AuthDb M) (e : UserAccountEntity)
      → M.users.get_one db.users (λ r. codes_eq r.email e.email) ≡ none
      → Adds M db db' e
      → M.users.get_one db'.users (λ r. codes_eq r.email e.email) ≡ some e
  get_one-Adds db db' e gone (fresh, adds) =
      let p : UserAccountEntity → Bool = λ r. codes_eq r.email e.email in
      elim (Option-cases (M.users.get_one db'.users p)) [
        | inl missing ↦ ground (
          arith,
          adds e.id,
          codes_eq_refl e.email,
          M.users.get_one-none db'.users p e.id e missing,
        )
        | inr (x, found) ↦
            let hit = M.users.get_one-some db'.users p x found in
            ground (arith, found, hit, adds x.id, M.users.get_one-none db.users p x.id x gone)
      ]

  find_user_by_email-Adds :
      (db db' : AuthDb M) (e : UserAccountEntity)
      → M.users.get_one db.users (λ r. codes_eq r.email e.email) ≡ none
      → create_email e.email ≡ ok e.email
      → Adds M db db' e
      → (find_user_by_email M e.email db').0 ≡ ok (some (account_of e e.email))
  unfolding find_user_by_email user_to_domain
  find_user_by_email-Adds db db' e gone good adds =
      ground (arith, good, get_one-Adds db db' e gone adds)

  -- The row of the session that a login opens.
  abbrev pub opened_row : Uuid → Uuid → ℕ → String → Date → RefreshSessionEntity
  opened_row id user_id salt token now = record {
    id = id;
    user_id = user_id;
    token_hash = A.hash salt token;
    expires_at = now + thirty_days;
    is_revoked = false;
    version = 0;
  }

  -- What becomes of a login, with the row that it would write: a wrong password is refused, the right
  -- one is answered with the token and the row is stored, unless the table rejects the row.
  abbrev pub Grants :
      RefreshSessionEntity
      → String
      → UserRole
      → AuthDb M
      → Bool
      → Result Error LoginResult × AuthDb M
      → Type 0
  Grants row token role db false r = r ≡ (err invalid_credentials, db)
  Grants row token role db true r =
      ((M.sessions.save db.sessions row ≡ none) × (r ≡ (err database_failure, db)))
      ⊎ ((rows : M.Sessions) × (M.sessions.save db.sessions row ≡ some rows)
          × (r ≡ (
            ok (record {
              user_id = row.user_id;
              role = role;
              session_id = row.id;
              refresh_token = token;
            }),
            record db { sessions = rows },
          )))

  -- A login with an e-mail and a password, where the account that the e-mail finds is known.
  login_found :
      (c : LoginCommand) (id : Uuid) (token : String) (salt : ℕ) (now : Date) (db : AuthDb M)
      (email : List ℕ) (u : UserAccount)
      → is_empty token ≡ false
      → create_email c.email ≡ ok email
      → (find_user_by_email M email db).0 ≡ ok (some u)
      → is_blocked u ≡ false
      → M.sessions.find_one db.sessions id ≡ none
      → Grants
          (opened_row id u.id salt token now)
          token
          u.role
          db
          (compare_password A c.raw_password u.password_hash)
          (login M A id token salt now c db)
  unfolding login
  login_found c id token salt now db email u full good found free fresh =
      let reads = find_user_by_email_reads M email db in
      let s = new_session id u.id (A.hash salt token) (now + thirty_days) in
      elim (Bool-cases (compare_password A c.raw_password u.password_hash)) [
        | inr wrong ↦ ground (arith, good, reads, found, free, wrong)
        | inl right ↦
            let hashed = hash_password_some M A salt token full in
            elim (save_session_new M s db fresh) [
              | inl (rejected, failed) ↦
                  rw right (
                    inl (rejected, ground (arith, good, reads, found, free, right, hashed, failed)))
              | inr (rows, written, saved) ↦ rw right (
                  inr
                    (rows, written, ground (arith, good, reads, found, free, right, hashed, saved)))
            ]
      ]

  -- After a registration that answers, a login with any spelling of its e-mail and a new session id
  -- is refused with every password but the registered one and changes nothing; with that one it is
  -- answered with the token and stores a live session of the account for thirty days, and fails,
  -- changing nothing, only if the table of sessions rejects that row.
  pub register_user-login :
      (c : RegisterUserCommand) (salt : ℕ) (event_id : Uuid) (at : Date) (db : AuthDb M)
      (r : RegisterUserResult) (l : LoginCommand) (id : Uuid) (token : String) (salt' : ℕ)
      (now : Date)
      → (register_user M A salt event_id at c db).0 ≡ ok r
      → create_email l.email ≡ create_email c.email
      → is_empty token ≡ false
      → M.sessions.find_one db.sessions id ≡ none
      → Grants
          (opened_row id c.id salt' token now)
          token
          c.role
          (register_user M A salt event_id at c db).1
          (opens l.raw_password c.password)
          (login M A id token salt' now l (register_user M A salt event_id at c db).1)
  register_user-login c salt event_id at db r l id token salt' now answered spelled full fresh =
      let (email, hash, good, gone, strong, hashed, told, (adds, j, d, o, dl, kept)) =
        register_user-Enrols M A c salt event_id at db r answered in
      let db' = (register_user M A salt event_id at c db).1 in
      let again = (create_email-create_email c.email email good).1 in
      let found = find_user_by_email-Adds db db' (enrolled M A c email hash) gone again adds in
      subst
        (λ b.
          Grants (opened_row id c.id salt' token now) token c.role db' b
            (login M A id token salt' now l db'))
        (compare_password-hash_password M A salt c.password hash l.raw_password hashed)
        (login_found l id token salt' now db' email (account_of (enrolled M A c email hash) email)
          full (spelled ∙ good) found refl (ground (arith, kept, fresh)))
