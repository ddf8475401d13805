-- ===== src/Auth/UseCases/Sessions/Steps.antt =====
-- The branches of `refresh_token`: an expired session, a token that does not match, and a renewal.
use mathlib.Core.Path.{subst}
use flatrent.Base.{
  ℕ, ◌+◌, ◌≡◌, refl, String, Bool, true, false, none, some, Uuid, Date, Result, ok, err, raise,
  ◌>>◌, ap, sym, inl, inr, arith, ltb, Result-cases, if◌then◌else◌,
}
use flatrent.Base.Text.{is_empty}
use flatrent.Auth.Errors.{Error, session_expired, token_reuse_detected}
use flatrent.Auth.Session.{RefreshSession, rotate, revoke, verify_token}
use flatrent.Auth.Hasher.{Argon2, hash_password, compare_password}
use flatrent.Auth.Database.{AuthSchema, AuthDb, RefreshSessionEntity, session_to_domain}
use flatrent.Auth.Repositories.{save_session, find_user, loaded_user}
use flatrent.Auth.UseCases.{
  thirty_days, RefreshTokenResult, refuse_expired, verified, rotated, answer_refresh,
  refresh_loaded,
}
use flatrent.Auth.UseCases.Sessions.{
  Ticket, SessionState, closed, live, Outcome, expired, reused, renewed, Fits, Refines,
}
use flatrent.Auth.UseCases.Sessions.Rows.{
  next_row, save_session_loaded, compare_password-hash_password, HasRow-written,
}

module _ (M : AuthSchema) (A : Argon2) where
  refuse_expired_late :
      (now : Date) (s : RefreshSession) (db : AuthDb M)
      → ltb s.expires_at now ≡ true
      → refuse_expired M A now s db ≡ (save_session M (revoke s) >> raise session_expired) db
  unfolding refuse_expired
  refuse_expired_late now s db late =
      ap (λ b. if b then (save_session M (revoke s) >> raise session_expired) db else (ok tt, db))
        late

  pub refuse_expired_soon :
      (now : Date) (s : RefreshSession) (db : AuthDb M)
      → ltb s.expires_at now ≡ false
      → refuse_expired M A now s db ≡ (ok tt, db)
  unfolding refuse_expired
  refuse_expired_soon now s db soon =
      ap (λ b. if b then (save_session M (revoke s) >> raise session_expired) db else (ok tt, db))
        soon

  pub Refines-by :
      (db : AuthDb M) (id : Uuid) (next : String) (step : Outcome × SessionState)
      {p q : Result Error RefreshTokenResult × AuthDb M}
      → p ≡ q
      → Refines M A db id next q step
      → Refines M A db id next p step
  Refines-by db id next step e = subst (λ p. Refines M A db id next p step) (sym e)

  pub refresh_expired :
      (next : String) (salt : ℕ) (now : Date) (given : String) (db : AuthDb M)
      (e : RefreshSessionEntity) (t : Ticket)
      → M.sessions.find_one db.sessions e.id ≡ some e
      → Fits M A e t
      → ltb e.expires_at now ≡ true
      → Refines M A db e.id next
          (refresh_loaded M A next salt now given (session_to_domain e) db)
          (expired, closed t)
  refresh_expired next salt now given db e t found fits late =
      let s = session_to_domain e in
      let shut = refuse_expired_late now s db late in
      elim (save_session_loaded M (revoke s) db e found refl) [
        | inl failed ↦ inl (ground (arith, shut, failed))
        | inr (rows, written, saved) ↦
            Refines-by db e.id next (expired, closed t)
              {q = (err session_expired, record db { sessions = rows })}
              (ground (arith, shut, saved))
              (inr (refl, HasRow-written M A db (next_row (revoke s)) t rows fits written))
      ]

  pub verified_revoked :
      (is_valid : Bool) (s : RefreshSession) (db : AuthDb M)
      → s.is_revoked ≡ true
      → verified M A is_valid s db ≡ (save_session M (revoke s) >> raise token_reuse_detected) db
  unfolding verified verify_token
  verified_revoked is_valid s db r = ground (
    arith,
    ap
        (λ b.
          ◌>>◌ {B = RefreshSession} (save_session M (record s { is_revoked = b }))
            (raise token_reuse_detected) db)
        r,
  )

  pub verified_wrong :
      (is_valid : Bool) (s : RefreshSession) (db : AuthDb M)
      → is_valid ≡ false
      → s.is_revoked ≡ false
      → verified M A is_valid s db ≡ (save_session M (revoke s) >> raise token_reuse_detected) db
  unfolding verified verify_token
  verified_wrong is_valid s db wrong r = ground (arith, wrong, r)

  pub verified_valid :
      (s : RefreshSession) (db : AuthDb M)
      → s.is_revoked ≡ false
      → verified M A true s db ≡ (ok s, db)
  unfolding verified verify_token
  verified_valid s db r = ground (arith, r)

  -- A presentation that is refused as a reuse, whichever session it saves.
  pub refresh_reused :
      (next : String) (salt : ℕ) (now : Date) (given : String) (db : AuthDb M)
      (e : RefreshSessionEntity) (t : Ticket)
      → M.sessions.find_one db.sessions e.id ≡ some e
      → Fits M A e t
      → ltb e.expires_at now ≡ false
      → verified M A (compare_password A given e.token_hash) (session_to_domain e) db
        ≡ (save_session M (revoke (session_to_domain e)) >> raise token_reuse_detected) db
      → Refines M A db e.id next
          (refresh_loaded M A next salt now given (session_to_domain e) db)
          (reused, closed t)
  refresh_reused next salt now given db e t found fits soon reuse =
      let s = session_to_domain e in
      let open_still = refuse_expired_soon now s db soon in
      elim (save_session_loaded M (revoke s) db e found refl) [
        | inl failed ↦ inl (ground (arith, open_still, reuse, failed))
        | inr (rows, written, saved) ↦
            Refines-by db e.id next (reused, closed t)
              {q = (err token_reuse_detected, record db { sessions = rows })}
              (ground (arith, open_still, reuse, saved))
              (inr (refl, HasRow-written M A db (next_row (revoke s)) t rows fits written))
      ]

  pub rotated_live :
      (hash : String) (deadline : Date) (s : RefreshSession) (db : AuthDb M)
      → s.is_revoked ≡ false
      → rotated M A hash deadline s db
        ≡ (ok (record s { token_hash = hash; expires_at = deadline }), db)
  unfolding rotated rotate
  rotated_live hash deadline s db r = ground (arith, r)

  pub hash_password_some :
      (salt : ℕ) (password : String)
      → is_empty password ≡ false
      → hash_password A salt password ≡ ok (A.hash salt password)
  unfolding hash_password
  hash_password_some salt password full = ground (arith, full)

  answer_refresh_reads :
      (owner : Uuid) (next : String) (db : AuthDb M)
      → answer_refresh M A owner next db ≡ ((answer_refresh M A owner next db).0, db)
  unfolding find_user
  answer_refresh_reads owner next db =
      elim (Result-cases (loaded_user M (M.users.find_one db.users owner))) [
        | inl (none, e) ↦ ground (arith, e)
        | inl (some u, e) ↦ ground (arith, e)
        | inr (x, e) ↦ ground (arith, e)
      ]

  pub refresh_renewed :
      (next : String) (salt : ℕ) (now : Date) (given : String) (db : AuthDb M)
      (e : RefreshSessionEntity) (t : Ticket)
      → is_empty next ≡ false
      → M.sessions.find_one db.sessions e.id ≡ some e
      → e.is_revoked ≡ false
      → Fits M A e t
      → ltb e.expires_at now ≡ false
      → compare_password A given e.token_hash ≡ true
      → Refines M A db e.id next
          (refresh_loaded M A next salt now given (session_to_domain e) db)
          (renewed t.owner, live (record t { secret = next; deadline = now + thirty_days }))
  refresh_renewed next salt now given db e t full found valid fits soon matches =
      let s = session_to_domain e in
      let step : Outcome × SessionState =
        (renewed t.owner, live (record t { secret = next; deadline = now + thirty_days })) in
      let fresh : RefreshSession = record s {
        token_hash = A.hash salt next;
        expires_at = now + thirty_days;
      } in
      let open_still = refuse_expired_soon now s db soon in
      let checked = verified_valid s db valid in
      let hashed = hash_password_some salt next full in
      let turned = rotated_live (A.hash salt next) (now + thirty_days) s db valid in
      elim (save_session_loaded M fresh db e found refl) [
        | inl failed ↦ inl (ground (arith, open_still, checked, hashed, turned, failed, matches))
        | inr (rows, written, saved) ↦
            Refines-by db e.id next step
              {q = (
                (answer_refresh M A t.owner next (record db { sessions = rows })).0,
                record db { sessions = rows },
              )}
              (ground (
                arith,
                open_still,
                checked,
                hashed,
                turned,
                saved,
                matches,
                answer_refresh_reads t.owner next (record db { sessions = rows }),
              ))
              (inr (
                refl,
                (
                  next_row fresh,
                  ground (
                    arith,
                    M.sessions.find_one-save db.sessions rows (next_row fresh) e.id written,
                  ),
                  valid,
                  (
                    fits.0,
                    refl,
                    λ g. compare_password-hash_password M A salt next (A.hash salt next) g hashed,
                  ),
                ),
              ))
      ]
