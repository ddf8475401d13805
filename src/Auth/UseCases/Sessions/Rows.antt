-- ===== src/Auth/UseCases/Sessions/Rows.antt =====
-- What the repository of sessions writes, and which row then stands for which abstract session.

use flatrent.Base.{
  ℕ, ◌+◌, ◌≡◌, refl, String, none, some, ok, err, ◌⊎◌, inl, inr, arith, Option-cases,
}
use flatrent.Shared.{increment_version}
use flatrent.Auth.Errors.{database_failure}
use flatrent.Auth.Session.{RefreshSession}
use flatrent.Auth.Hasher.{Argon2, hash_password, compare_password}
use flatrent.Auth.Database.{AuthSchema, AuthDb, RefreshSessionEntity, session_to_entity}
use flatrent.Auth.Repositories.{save_session}
use flatrent.Auth.UseCases.Sessions.{Ticket, opens, Fits, HasRow}

-- The row that `save` writes for a session that was loaded at the stored version, and the session
-- that it returns.
abbrev pub next_row : RefreshSession → RefreshSessionEntity
next_row s = record (session_to_entity s) { version = s.aggregate_version + 1 }

abbrev pub counted : RefreshSession → RefreshSession
counted s = record s { root = increment_version s.root }

module _ (M : AuthSchema) where
  pub save_session_loaded :
      (s : RefreshSession) (db : AuthDb M) (e : RefreshSessionEntity)
      → M.sessions.find_one db.sessions s.id ≡ some e
      → e.version ≡ s.aggregate_version
      → (save_session M s db ≡ (err database_failure, db))
        ⊎ ((rows : M.Sessions) × (M.sessions.save db.sessions (next_row s) ≡ some rows)
            × (save_session M s db ≡ (ok (counted s), record db { sessions = rows })))
  unfolding save_session
  save_session_loaded s db e found fits =
      elim (Option-cases (M.sessions.save db.sessions (next_row s))) [
        | inl rejected ↦ inl (ground arith)
        | inr (rows, written) ↦ inr (rows, written, ground arith)
      ]

  pub save_session_new :
      (s : RefreshSession) (db : AuthDb M)
      → M.sessions.find_one db.sessions s.id ≡ none
      → ((M.sessions.save db.sessions (record (session_to_entity s) { version = 0 }) ≡ none)
          × (save_session M s db ≡ (err database_failure, db)))
        ⊎ ((rows : M.Sessions) × (M.sessions.save db.sessions
                (record (session_to_entity s) { version = 0 })
              ≡ some rows)
            × (save_session M s db ≡ (ok s, record db { sessions = rows })))
  unfolding save_session
  save_session_new s db fresh =
      elim (Option-cases
        (M.sessions.save db.sessions (record (session_to_entity s) { version = 0 }))) [
          | inl rejected ↦ inl (rejected, ground arith)
          | inr (rows, written) ↦ inr (rows, written, ground arith)
        ]

module _ (M : AuthSchema) (A : Argon2) where
  -- The hash of a token answers to the token.
  pub compare_password-hash_password :
      (salt : ℕ) (secret hash given : String)
      → hash_password A salt secret ≡ ok hash
      → compare_password A given hash ≡ opens given secret
  unfolding hash_password compare_password
  compare_password-hash_password salt secret hash given e =
      ground (arith, A.verify-hash salt secret given, A.is_empty-hash salt secret)

  -- After the writing of a row that fits the ticket.
  pub HasRow-written :
      (db : AuthDb M) (e : RefreshSessionEntity) (t : Ticket) (rows : M.Sessions)
      → Fits M A e t
      → M.sessions.save db.sessions e ≡ some rows
      → HasRow M A (record db { sessions = rows }) e.id e.is_revoked t
  HasRow-written db e t rows fits written =
      (e, ground (arith, M.sessions.find_one-save db.sessions rows e e.id written), refl, fits)
