-- ===== src/Auth/UseCases/Sessions/Refinement.antt =====
-- `refresh_token` refines the abstract session.
use mathlib.Core.Path.{subst}
use flatrent.Base.{
  ℕ, ◌+◌, ◌≡◌, refl, String, Bool, true, false, some, Uuid, Date, Result, err, sym, inl, inr, arith,
  ltb, Bool-cases,
}
use flatrent.Base.Text.{is_empty}
use flatrent.Auth.Errors.{Error, session_not_found}
use flatrent.Auth.Hasher.{Argon2, compare_password}
use flatrent.Auth.Database.{AuthSchema, AuthDb, RefreshSessionEntity, session_to_domain}
use flatrent.Auth.UseCases.{
  thirty_days, RefreshTokenCommand, RefreshTokenResult, refresh_loaded, refresh_token,
}
use flatrent.Auth.UseCases.Sessions.{
  Ticket, SessionState, unknown, closed, live, Outcome, not_found, expired, reused, renewed,
  present, Fits, HasRow, Represents, Refines,
}
use flatrent.Auth.UseCases.Sessions.Steps.{
  Refines-by, refresh_expired, refresh_reused, refresh_renewed, verified_revoked, verified_wrong,
}

module _ (M : AuthSchema) (A : Argon2) where
  -- The code, given the row.
  refresh_row :
      (c : RefreshTokenCommand) (next : String) (salt : ℕ) (now : Date) (db : AuthDb M)
      (e : RefreshSessionEntity)
      → M.sessions.find_one db.sessions c.session_id ≡ some e
      → refresh_token M A next salt now c db
        ≡ refresh_loaded M A next salt now c.refresh_token (session_to_domain e) db
  unfolding refresh_token
  refresh_row c next salt now db e found = ground (arith, found)

  Refines-at :
      (db : AuthDb M) (id : Uuid) (next : String) (p : Result Error RefreshTokenResult × AuthDb M)
      (step step' : Outcome × SessionState)
      → step ≡ step'
      → Refines M A db id next p step
      → Refines M A db id next p step'
  Refines-at db id next p step step' = subst (Refines M A db id next p)

  refresh_closed :
      (next : String) (salt : ℕ) (now : Date) (given : String) (db : AuthDb M)
      (e : RefreshSessionEntity) (t : Ticket)
      → M.sessions.find_one db.sessions e.id ≡ some e
      → e.is_revoked ≡ true
      → Fits M A e t
      → Refines M A db e.id next
          (refresh_loaded M A next salt now given (session_to_domain e) db)
          (present given next now (closed t))
  refresh_closed next salt now given db e t found shut fits =
      let s = session_to_domain e in
      let at = Refines-at db e.id next (refresh_loaded M A next salt now given s db) in
      elim (Bool-cases (ltb e.expires_at now)) [
        | inl late ↦
            at (expired, closed t) (present given next now (closed t))
              (ground (arith, late, fits.0, fits.1))
              (refresh_expired M A next salt now given db e t found fits late)
        | inr soon ↦
            at (reused, closed t) (present given next now (closed t))
              (ground (arith, soon, fits.0, fits.1))
              (refresh_reused M A next salt now given db e t found fits soon
                (verified_revoked M A (compare_password A given e.token_hash) s db shut))
      ]

  refresh_live :
      (next : String) (salt : ℕ) (now : Date) (given : String) (db : AuthDb M)
      (e : RefreshSessionEntity) (t : Ticket)
      → is_empty next ≡ false
      → M.sessions.find_one db.sessions e.id ≡ some e
      → e.is_revoked ≡ false
      → Fits M A e t
      → Refines M A db e.id next
          (refresh_loaded M A next salt now given (session_to_domain e) db)
          (present given next now (live t))
  refresh_live next salt now given db e t full found valid fits =
      let s = session_to_domain e in
      let at = Refines-at db e.id next (refresh_loaded M A next salt now given s db) in
      elim (Bool-cases (ltb e.expires_at now)) [
        | inl late ↦
            at (expired, closed t) (present given next now (live t)) (ground (arith, late, fits.1))
              (refresh_expired M A next salt now given db e t found fits late)
        | inr soon ↦ elim (Bool-cases (compare_password A given e.token_hash)) [
          | inl matches ↦
              at (renewed t.owner, live (record t { secret = next; deadline = now + thirty_days }))
                (present given next now (live t))
                (ground (arith, soon, matches, fits.1, fits.2 given))
                (refresh_renewed M A next salt now given db e t full found valid fits soon matches)
          | inr wrong ↦
              at (reused, closed t) (present given next now (live t))
                (ground (arith, soon, wrong, fits.1, fits.2 given))
                (refresh_reused M A next salt now given db e t found fits soon
                  (verified_wrong M A (compare_password A given e.token_hash) s db wrong valid))
        ]
      ]

  refresh_some :
      (c : RefreshTokenCommand) (next : String) (salt : ℕ) (now : Date) (db : AuthDb M)
      (is_revoked : Bool) (t : Ticket) (st : SessionState)
      → ((e : RefreshSessionEntity)
          → M.sessions.find_one db.sessions e.id ≡ some e
          → e.is_revoked ≡ is_revoked
          → Fits M A e t
          → Refines M A db e.id next
              (refresh_loaded M A next salt now c.refresh_token (session_to_domain e) db)
              (present c.refresh_token next now st))
      → HasRow M A db c.session_id is_revoked t
      → Refines M A db c.session_id next
          (refresh_token M A next salt now c db)
          (present c.refresh_token next now st)
  refresh_some c next salt now db is_revoked t st body (e, found, flag, fits) =
      let is_key = M.sessions.find_one-key db.sessions c.session_id e found in
      Refines-by M A db c.session_id next (present c.refresh_token next now st)
        (refresh_row c next salt now db e found)
        (subst
          (λ k.
            Refines M A db k next
              (refresh_loaded M A next salt now c.refresh_token (session_to_domain e) db)
              (present c.refresh_token next now st))
          is_key
          (body e (subst (λ k. M.sessions.find_one db.sessions k ≡ some e) (sym is_key) found) flag
            fits))

  -- Where the next token is not empty, a presentation of a token to a session, stored or not, makes the
  -- step of the abstract session that its row stands for and tells its outcome, or the database refuses
  -- the write and nothing changes.
  pub refresh_token-Refines :
      (c : RefreshTokenCommand) (next : String) (salt : ℕ) (now : Date) (db : AuthDb M)
      (st : SessionState)
      → is_empty next ≡ false
      → Represents M A db c.session_id st
      → Refines M A db c.session_id next
          (refresh_token M A next salt now c db)
          (present c.refresh_token next now st)
  unfolding refresh_token
  refresh_token-Refines c next salt now db unknown full gone =
      Refines-by M A db c.session_id next (not_found, unknown) {q = (err session_not_found, db)}
        (ground (arith, gone)) (inr (refl, gone))
  refresh_token-Refines c next salt now db (closed t) full row =
      refresh_some c next salt now db true t (closed t)
        (λ e found shut fits. refresh_closed next salt now c.refresh_token db e t found shut fits)
        row
  refresh_token-Refines c next salt now db (live t) full row =
      refresh_some c next salt now db false t (live t)
        (λ e found valid fits.
          refresh_live next salt now c.refresh_token db e t full found valid fits)
        row
