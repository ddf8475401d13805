-- ===== src/Auth/UseCases/Sessions/Opening.antt =====
-- What a login checks, and the session that it opens.
use mathlib.Core.Path.{subst}
use flatrent.Base.{
  ℕ, ◌+◌, ◌≡◌, refl, sym, ◌∙◌, String, true, false, none, some, List, Uuid, Date, ok, inl, inr,
  arith, pure, ◌>>◌, Bool-cases, Result-cases,
}
use flatrent.Base.Text.{is_empty}
use flatrent.Auth.Email.{create_email}
use flatrent.Auth.Account.{UserAccount, is_blocked}
use flatrent.Auth.Session.{RefreshSession, new_session}
use flatrent.Auth.Hasher.{Argon2, compare_password}
use flatrent.Auth.Database.{AuthSchema, AuthDb, session_to_entity}
use flatrent.Auth.Repositories.{find_user_by_email, save_session}
use flatrent.Auth.Repositories.Reads.{find_user_by_email_reads}
use flatrent.Auth.UseCases.{thirty_days, LoginCommand, LoginResult, login}
use flatrent.Auth.UseCases.Sessions.{Ticket, live, Fits, Represents}
use flatrent.Auth.UseCases.Sessions.Rows.{
  save_session_new, compare_password-hash_password, HasRow-written,
}
use flatrent.Auth.UseCases.Sessions.Steps.{hash_password_some}

module _ (M : AuthSchema) (A : Argon2) where
  -- The account that a login finds under the e-mail of the command, and what it checks of it.
  abbrev pub Admits : LoginCommand → AuthDb M → UserAccount → Type 0
  Admits c db u =
      (email : List ℕ) × (create_email c.email ≡ ok email)
      × ((find_user_by_email M email db).0 ≡ ok (some u))
      × (is_blocked u ≡ false)
      × (compare_password A c.raw_password u.password_hash ≡ true)

  abbrev fresh_session : Uuid → Uuid → String → ℕ → Date → RefreshSession
  fresh_session id user_id token salt now =
      new_session id user_id (A.hash salt token) (now + thirty_days)

  abbrev pub told : Uuid → String → UserAccount → LoginResult
  told id token u = record { user_id = u.id; role = u.role; session_id = id; refresh_token = token }

  login_admitted :
      (c : LoginCommand) (id : Uuid) (token : String) (salt : ℕ) (now : Date) (db : AuthDb M)
      (r : LoginResult)
      → is_empty token ≡ false
      → (login M A id token salt now c db).0 ≡ ok r
      → (u : UserAccount) × Admits c db u
        × (login M A id token salt now c db
            ≡ (save_session M (fresh_session id u.id token salt now) >> pure (told id token u)) db)
  unfolding login
  login_admitted c id token salt now db r full answered =
      elim (Result-cases (create_email c.email)) [
        | inr (x, bad) ↦ ground (arith, bad)
        | inl (email, good) ↦
            let reads = find_user_by_email_reads M email db in
            elim (Result-cases (find_user_by_email M email db).0) [
              | inr (x, failed) ↦ ground (arith, good, reads, failed)
              | inl (none, missing) ↦ ground (arith, good, reads, missing)
              | inl (some u, found) ↦ elim (Bool-cases (is_blocked u)) [
                | inl shut ↦ ground (arith, good, reads, found, shut)
                | inr free ↦ elim (Bool-cases (compare_password A c.raw_password u.password_hash)) [
                  | inr wrong ↦ ground (arith, good, reads, found, free, wrong)
                  | inl right ↦ (
                    u,
                    (email, good, found, free, right),
                    ground (
                      arith,
                      good,
                      reads,
                      found,
                      free,
                      right,
                      hash_password_some M A salt token full,
                    ),
                  )
                ]
              ]
            ]
      ]

  -- A login that answers was admitted by an active account whose password it verified, and leaves a
  -- live session of that account which answers to the returned token, and to no other, for thirty days.
  pub login_opens :
      (c : LoginCommand) (id : Uuid) (token : String) (salt : ℕ) (now : Date) (db : AuthDb M)
      (r : LoginResult)
      → is_empty token ≡ false
      → M.sessions.find_one db.sessions id ≡ none
      → (login M A id token salt now c db).0 ≡ ok r
      → (u : UserAccount) × Admits c db u
        × (r ≡ told id token u)
        × Represents M A
            (login M A id token salt now c db).1
            id
            (live (record { owner = u.id; secret = token; deadline = now + thirty_days }))
  login_opens c id token salt now db r full fresh answered =
      let (u, admits, run) = login_admitted c id token salt now db r full answered in
      let s = fresh_session id u.id token salt now in
      let t : Ticket = record { owner = u.id; secret = token; deadline = now + thirty_days } in
      let fits : Fits M A (session_to_entity s) t = (
        refl,
        refl,
        λ g.
            compare_password-hash_password M A salt token (A.hash salt token) g
              (hash_password_some M A salt token full),
      ) in
      elim (save_session_new M s db fresh) [
        | inl failed ↦ ground (arith, run, failed)
        | inr (rows, written, saved) ↦
            let opened : (save_session M s >> pure (told id token u)) db
                ≡ (ok (told id token u), record db { sessions = rows }) =
              ground (arith, saved) in
            (
              u,
              admits,
              ground (arith, run, saved),
              subst (λ p. Represents M A p.1 id (live t)) (sym (run ∙ opened))
                  (HasRow-written M A db (session_to_entity s) t rows fits written),
            )
      ]
