-- ===== src/Auth/UseCases/Sessions/Races.antt =====
-- Two presentations of a refresh token at once. The use case runs outside a transaction, so its
-- statements on the row of the session interleave: it loads the session and works on its copy, `save`
-- reads the row and compares the versions, and only then writes. A refused presentation also writes;
-- here its load and that write are one step.
use flatrent.Base.{
  ℕ, ◌+◌, String, none, some, List, [], ◌∷◌, Uuid, Date, Result, ok, err, Action, lift, ◌>>=◌, ◌>>◌,
}
use flatrent.Shared.Versions.{next_version, version_of}
use flatrent.Auth.Errors.{Error, version_mismatch}
use flatrent.Auth.Session.{RefreshSession}
use flatrent.Auth.Hasher.{Argon2, hash_password, compare_password}
use flatrent.Auth.Database.{
  AuthSchema, AuthDb, RefreshSessionEntity, session_to_entity, session_to_domain,
}
use flatrent.Auth.UseCases.{thirty_days, refuse_expired, verified, rotated}

pub record Presentation : Type 0 where
  pub given : String
  pub next : String
  pub salt : ℕ
  pub now : Date

-- How far a presentation has come: the session as it would save it, the row as it will write it.
pub data Progress : Type 0 where
  begun : Progress
  renewed : RefreshSession → Progress
  passed : RefreshSessionEntity → Progress
  answered refused : Progress

pub data Turn : Type 0 where
  first second : Turn

module _ (M : AuthSchema) (A : Argon2) where
  -- The use case from the loaded session up to the saving.
  abbrev pub renew : Presentation → RefreshSession → Action (AuthDb M) Error RefreshSession
  renew p session = do
    refuse_expired M A p.now session
    checked ← verified M A (compare_password A p.given session.token_hash) session
    next_hash ← lift (hash_password A p.salt p.next)
    rotated M A next_hash (p.now + thirty_days) checked

  abbrev pub reached : Result Error RefreshSession × AuthDb M → Progress × AuthDb M
  reached (ok s, db) = (renewed s, db)
  reached (err e, db) = (refused, db)

  -- `findById`, and the work on the copy
  abbrev pub load : Uuid → Presentation → AuthDb M → Progress × AuthDb M
  load id p db = elim (M.sessions.find_one db.sessions id) [
    | none ↦ (refused, db)
    | some e ↦ reached (renew p (session_to_domain e) db)
  ]

  -- `findOne` in `save`, and the comparison of the versions
  abbrev pub compare_versions : RefreshSession → AuthDb M → Progress × AuthDb M
  compare_versions s db =
      elim (next_version version_mismatch s.aggregate_version
        (version_of (λ e. e.version) (M.sessions.find_one db.sessions s.id))) [
          | err e ↦ (refused, db)
          | ok version ↦ (passed (record (session_to_entity s) { version = version }), db)
        ]

  -- `repo.save(entity)`
  abbrev pub write_row : RefreshSessionEntity → AuthDb M → Progress × AuthDb M
  write_row row db = elim (M.sessions.save db.sessions row) [
    | none ↦ (refused, db)
    | some rows ↦ (answered, record db { sessions = rows })
  ]

  abbrev pub move : Uuid → Presentation → Progress → AuthDb M → Progress × AuthDb M
  move id p begun db = load id p db
  move id p (renewed s) db = compare_versions s db
  move id p (passed row) db = write_row row db
  move id p answered db = (answered, db)
  move id p refused db = (refused, db)

  pub record Race : Type 0 where
    pub db : AuthDb M
    pub one : Progress
    pub two : Progress

  module _ (id : Uuid) (p q : Presentation) where
    abbrev pub turn : Turn → Race → Race
    turn first r = let (one, db) = move id p r.one r.db in record r { one = one; db = db }
    turn second r = let (two, db) = move id q r.two r.db in record r { two = two; db = db }

    unfoldable pub race : List Turn → Race → Race
    race [] r = r
    race (t ∷ ts) r = race ts (turn t r)

  abbrev pub starting : AuthDb M → Race
  starting db = record { db = db; one = begun; two = begun }
