-- ===== src/Auth/UseCases/Sessions/Lifetime.antt =====
-- The life of a refresh session over several requests: opened by a login, used, and closed by a
-- logout, a revocation or a reuse.
use mathlib.Core.Path.{subst}
use flatrent.Base.{
  ℕ, ◌≡◌, refl, ap, sym, pure, ◌>>◌, String, Bool, true, false, ◌&&◌, not, some, List, [], ◌∷◌,
  Uuid, Date, Result, ok, err, ◌⊎◌, inl, inr, arith, ltb, ◌==◌, Bool-cases, Option-cases,
  if◌then◌else◌,
}
use flatrent.Base.Text.{is_empty}
use flatrent.Auth.Errors.{Error, database_failure}
use flatrent.Auth.Session.{revoke}
use flatrent.Auth.Hasher.{Argon2}
use flatrent.Auth.Database.{AuthSchema, AuthDb, RefreshSessionEntity, session_to_domain}
use flatrent.Auth.Repositories.{save_session, revoke_all_by_user_id}
use flatrent.Auth.UseCases.{RefreshTokenResult, refresh_token, logout, revoke_sessions}
use flatrent.Auth.UseCases.Sessions.{
  Ticket, SessionState, closed, live, Outcome, expired, reused, opens, present, HasRow, Represents,
  Tells,
}
use flatrent.Auth.UseCases.Sessions.Rows.{next_row, save_session_loaded, HasRow-written}
use flatrent.Auth.UseCases.Sessions.Refinement.{refresh_token-Refines}

-- A presentation of a token, with what the generators and the clock then give.
pub record Attempt : Type 0 where
  pub token : String
  pub next : String
  pub salt : ℕ
  pub now : Date

-- Generated tokens are not empty.
abbrev pub all_full : List Attempt → Bool
all_full [] = true
all_full (a ∷ rest) = not (is_empty a.next) && all_full rest

abbrev pub is_refused : Result Error RefreshTokenResult → Bool
is_refused (ok r) = false
is_refused (err e) = true

abbrev pub all_refused : List (Result Error RefreshTokenResult) → Bool
all_refused [] = true
all_refused (r ∷ rest) = is_refused r && all_refused rest

module _ (M : AuthSchema) (A : Argon2) where
  -- Presentations one after the other.
  abbrev pub attempt : Uuid → Attempt → AuthDb M → Result Error RefreshTokenResult × AuthDb M
  attempt id a =
      refresh_token M A a.next a.salt a.now (record { session_id = id; refresh_token = a.token })

  abbrev pub attempts : Uuid → List Attempt → AuthDb M → List (Result Error RefreshTokenResult)
  attempts id [] db = []
  attempts id (a ∷ rest) db = let (r, db') = attempt id a db in r ∷ attempts id rest db'

  refusal :
      (b : Bool) (db : AuthDb M) (next : String) (r : Result Error RefreshTokenResult)
      → Tells M A db next r (if b then expired else reused)
      → is_refused r ≡ true
  refusal true db next r told = ap is_refused told
  refusal false db next r told = ap is_refused told

  closed_attempt :
      (id : Uuid) (a : Attempt) (db : AuthDb M) (t : Ticket)
      → is_empty a.next ≡ false
      → Represents M A db id (closed t)
      → (is_refused (attempt id a db).0 ≡ true) × Represents M A (attempt id a db).1 id (closed t)
  closed_attempt id a db t full shut =
      elim (refresh_token-Refines M A (record { session_id = id; refresh_token = a.token }) a.next
        a.salt a.now db (closed t) full shut) [
          | inl (failed, same) ↦
              (ap is_refused failed, subst (λ d. Represents M A d id (closed t)) (sym same) shut)
          | inr (told, kept) ↦ (
            refusal (ltb t.deadline a.now) (attempt id a db).1 a.next (attempt id a db).0 told,
            kept,
          )
        ]

  -- A closed session refuses every further token.
  pub attempts_closed :
      (id : Uuid) (rest : List Attempt) (db : AuthDb M) (t : Ticket)
      → all_full rest ≡ true
      → Represents M A db id (closed t)
      → all_refused (attempts id rest db) ≡ true
  attempts_closed id [] db t full shut = refl
  attempts_closed id (a ∷ rest) db t full shut =
      let step = closed_attempt id a db t (ground (arith, full)) shut in
      ground
        (arith, step.0, attempts_closed id rest (attempt id a db).1 t (ground (arith, full)) step.1)

  -- The outcome of a step of `attempt`.
  abbrev Kept : Uuid → Attempt → AuthDb M → Outcome × SessionState → Type 0
  Kept id a db (o, st) =
      Tells M A (attempt id a db).1 a.next (attempt id a db).0 o
      × Represents M A (attempt id a db).1 id st

  present_wrong :
      (given next : String) (now : Date) (t : Ticket)
      → opens given t.secret ≡ false
      → present given next now (live t) ≡ (if ltb t.deadline now then expired else reused, closed t)
  present_wrong given next now t wrong = ground (arith, wrong)

  reuse_step :
      (id : Uuid) (a : Attempt) (rest : List Attempt) (db : AuthDb M) (t : Ticket)
      → all_full rest ≡ true
      → Kept id a db (if ltb t.deadline a.now then expired else reused, closed t)
      → all_refused (attempts id (a ∷ rest) db) ≡ true
  reuse_step id a rest db t full (told, kept) = ground (
    arith,
    refusal (ltb t.deadline a.now) (attempt id a db).1 a.next (attempt id a db).0 told,
    attempts_closed id rest (attempt id a db).1 t full kept,
  )

  -- Once a token has been presented that is not the session's, and the database has answered, the
  -- session refuses every further token, its own included.
  pub attempts_after_reuse :
      (id : Uuid) (a : Attempt) (rest : List Attempt) (db : AuthDb M) (t : Ticket)
      → all_full (a ∷ rest) ≡ true
      → Represents M A db id (live t)
      → opens a.token t.secret ≡ false
      → ((attempt id a db).0 ≡ err database_failure)
        ⊎ (all_refused (attempts id (a ∷ rest) db) ≡ true)
  attempts_after_reuse id a rest db t full row wrong =
      elim (refresh_token-Refines M A (record { session_id = id; refresh_token = a.token }) a.next
        a.salt a.now db (live t) (ground (arith, full)) row) [
          | inl (failed, same) ↦ inl failed
          | inr step ↦ inr (
              reuse_step id a rest db t (ground (arith, full))
                (subst (Kept id a db) (present_wrong a.token a.next a.now t wrong) step))
        ]

  logout_row :
      (id : Uuid) (db : AuthDb M) (e : RefreshSessionEntity)
      → M.sessions.find_one db.sessions id ≡ some e
      → logout M A id db ≡ (save_session M (revoke (session_to_domain e)) >> pure tt) db
  unfolding logout
  logout_row id db e found = ground (arith, found)

  -- After a logout that succeeds the session refuses every token.
  pub logout_closes :
      (id : Uuid) (rest : List Attempt) (db : AuthDb M) (t : Ticket) (is_revoked : Bool)
      → all_full rest ≡ true
      → HasRow M A db id is_revoked t
      → (logout M A id db).0 ≡ ok tt
      → all_refused (attempts id rest (logout M A id db).1) ≡ true
  logout_closes id rest db t is_revoked full (e, found, flag, fits) done =
      let is_key = M.sessions.find_one-key db.sessions id e found in
      let at_key = subst (λ k. M.sessions.find_one db.sessions k ≡ some e) (sym is_key) found in
      let s = revoke (session_to_domain e) in
      elim (save_session_loaded M s db e at_key refl) [
        | inl failed ↦ ground (arith, failed, logout_row id db e found)
        | inr (rows, written, saved) ↦ attempts_closed id rest (logout M A id db).1 t full (
            subst (λ k. Represents M A (logout M A id db).1 k (closed t)) is_key
              (subst (λ d. Represents M A d e.id (closed t)) {x = record db { sessions = rows }}
                {y = (logout M A id db).1} (ground (arith, saved, logout_row id db e found))
                (HasRow-written M A db (next_row s) t rows fits written)))
      ]

  revoked_row :
      (user_id id : Uuid) (db : AuthDb M) (rows : M.Sessions) (t : Ticket)
      → M.revoke_all db.sessions user_id ≡ some rows
      → Represents M A db id (live t)
      → Represents M A
          (record db { sessions = rows })
          id
          (if t.owner == user_id then closed t else live t)
  revoked_row user_id id db rows t revoked (e, found, flag, fits) =
      elim (Bool-cases (t.owner == user_id)) [
        | inl own ↦
            subst (Represents M A (record db { sessions = rows }) id) {x = closed t}
              (ground (arith, own))
              (
                record e { is_revoked = true },
                ground (
                  arith,
                  found,
                  fits.0,
                  own,
                  M.find_one-revoke_all db.sessions rows user_id id revoked,
                ),
                refl,
                fits,
              )
        | inr other ↦
            subst (Represents M A (record db { sessions = rows }) id) {x = live t}
              (ground (arith, other))
              (
                e,
                ground (
                  arith,
                  found,
                  fits.0,
                  other,
                  M.find_one-revoke_all db.sessions rows user_id id revoked,
                ),
                flag,
                fits,
              )
      ]

  -- Revoking the sessions of a user closes each session of that user, and leaves those of others.
  pub revoke_sessions_closes :
      (user_id id : Uuid) (db : AuthDb M) (t : Ticket)
      → Represents M A db id (live t)
      → (revoke_sessions M A user_id db).0 ≡ ok tt
      → Represents M A
          (revoke_sessions M A user_id db).1
          id
          (if t.owner == user_id then closed t else live t)
  unfolding revoke_all_by_user_id
  revoke_sessions_closes user_id id db t row done =
      elim (Option-cases (M.revoke_all db.sessions user_id)) [
        | inl failed ↦ ground (arith, failed)
        | inr (rows, revoked) ↦
            subst (λ d. Represents M A d id (if t.owner == user_id then closed t else live t))
              {x = record db { sessions = rows }} {y = (revoke_sessions M A user_id db).1}
              (ground (arith, revoked)) (revoked_row user_id id db rows t revoked row)
      ]
