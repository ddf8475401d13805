-- ===== src/Auth/UseCases/Sessions.antt =====
-- Refresh sessions against an abstract session: who holds it, the one token that it answers to, and
-- its deadline.
pub mod Rows
pub mod Steps
pub mod Refinement
pub mod Opening
pub mod Lifetime
pub mod Races
pub mod Schedules
use mathlib.Core.Path.{subst}
use flatrent.Base.{
  ℕ, ◌+◌, ◌≡◌, refl, String, Bool, true, false, not, ◌&&◌, Option, none, some, List, [], ◌∷◌, Uuid,
  Date, Result, ok, err, Action, raise, ◌>>◌, ap, sym, ◌⊎◌, inl, inr, arith, ltb, Bool-cases,
  Option-cases, Result-cases, if◌then◌else◌,
}
use text.Mathlib.Text.{◌==◌ as str_eq}
use flatrent.Base.Text.{is_empty}
use flatrent.Shared.{increment_version}
use flatrent.Auth.Errors.{
  Error, session_not_found, session_expired, session_revoked, token_reuse_detected, password_empty,
  database_failure,
}
use flatrent.Auth.Session.{RefreshSession, new_session, is_expired, rotate, revoke, verify_token}
use flatrent.Auth.Hasher.{Argon2, hash_password, compare_password}
use flatrent.Auth.Database.{
  AuthSchema, AuthDb, RefreshSessionEntity, session_to_entity, session_to_domain,
}
use flatrent.Auth.Repositories.{save_session, find_session, find_user, loaded_user}
use flatrent.Auth.UseCases.{
  thirty_days, RefreshTokenCommand, RefreshTokenResult, refuse_expired, verified, rotated,
  answer_refresh, refresh_loaded, refresh_token,
}

pub record Ticket : Type 0 where
  pub owner : Uuid
  pub secret : String
  pub deadline : Date

pub data SessionState : Type 0 where
  unknown : SessionState
  closed live : Ticket → SessionState

pub data Outcome : Type 0 where
  not_found expired reused : Outcome
  -- the owner of the renewed session
  renewed : Uuid → Outcome

abbrev pub opens : String → String → Bool
opens given secret = not (is_empty given) && str_eq secret given

-- A token is presented: the outcome, and the session afterwards.
abbrev pub present : String → String → Date → SessionState → Outcome × SessionState
present given next now unknown = (not_found, unknown)
present given next now (closed t) = (if ltb t.deadline now then expired else reused, closed t)
present given next now (live t) =
    if ltb t.deadline now
    then (expired, closed t)
    else if opens given t.secret
    then (renewed t.owner, live (record t { secret = next; deadline = now + thirty_days }))
    else (reused, closed t)

module _ (M : AuthSchema) (A : Argon2) where
  -- The row stands for the ticket: its hash answers to the secret only.
  abbrev pub Fits : RefreshSessionEntity → Ticket → Type 0
  Fits e t =
      (e.user_id ≡ t.owner)
      × (e.expires_at ≡ t.deadline)
      × ((given : String) → compare_password A given e.token_hash ≡ opens given t.secret)

  abbrev pub HasRow : AuthDb M → Uuid → Bool → Ticket → Type 0
  HasRow db id is_revoked t =
      (e : RefreshSessionEntity) × (M.sessions.find_one db.sessions id ≡ some e)
      × (e.is_revoked ≡ is_revoked)
      × Fits e t

  abbrev pub Represents : AuthDb M → Uuid → SessionState → Type 0
  Represents db id unknown = M.sessions.find_one db.sessions id ≡ none
  Represents db id (closed t) = HasRow db id true t
  Represents db id (live t) = HasRow db id false t

  -- What the caller is told.
  abbrev pub Tells : AuthDb M → String → Result Error RefreshTokenResult → Outcome → Type 0
  Tells db next r not_found = r ≡ err session_not_found
  Tells db next r expired = r ≡ err session_expired
  Tells db next r reused = r ≡ err token_reuse_detected
  Tells db next r (renewed owner) = r ≡ (answer_refresh M A owner next db).0

  -- Either the database refused a write, and nothing has changed, or the abstract session made the
  -- step.
  abbrev pub Refines :
      AuthDb M
      → Uuid
      → String
      → Result Error RefreshTokenResult × AuthDb M
      → Outcome × SessionState
      → Type 0
  Refines db id next (r, db') (outcome, st) =
      ((r ≡ err database_failure) × (db' ≡ db)) ⊎ (Tells db' next r outcome × Represents db' id st)
