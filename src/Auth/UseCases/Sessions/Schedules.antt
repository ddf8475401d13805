-- ===== src/Auth/UseCases/Sessions/Schedules.antt =====
-- The orders in which the statements of two presentations can interleave, up to their writes.
use flatrent.Base.{ℕ, zero, suc, ◌+◌, ◌≡◌, true, false, List, [], ◌∷◌, Uuid, ltb}
use flatrent.Base.Text.{is_empty}
use flatrent.Auth.Hasher.{Argon2}
use flatrent.Auth.Database.{AuthSchema, RefreshSessionEntity, session_to_domain}
use flatrent.Auth.UseCases.{thirty_days}
use flatrent.Auth.UseCases.Sessions.{Ticket, opens, HasRow}
use flatrent.Auth.UseCases.Sessions.Races.{
  Presentation, Progress, begun, renewed, passed, answered, Turn, first, second, Race,
}

abbrev pub other : Turn → Turn
other first = second
other second = first

-- How often it is the turn of one of the two.
abbrev pub count : Turn → List Turn → ℕ
count t [] = 0
count first (first ∷ ts) = suc (count first ts)
count second (second ∷ ts) = suc (count second ts)
count t (_ ∷ ts) = count t ts

abbrev pub whose : Presentation → Presentation → Turn → Presentation
whose p q first = p
whose p q second = q

module _ (M : AuthSchema) (A : Argon2) where
  -- The row that a presentation of the ticket's token writes.
  abbrev pub renewed_row : RefreshSessionEntity → Presentation → RefreshSessionEntity
  renewed_row e p = record e {
    token_hash = A.hash p.salt p.next;
    expires_at = p.now + thirty_days;
    version = e.version + 1;
  }

  -- A presentation of the ticket's token, in time, that asks for a token that is not empty.
  abbrev pub IsRightful : Ticket → Presentation → Type 0
  IsRightful t p =
      (ltb t.deadline p.now ≡ false) × (opens p.given t.secret ≡ true) × (is_empty p.next ≡ false)

  -- Both are answered, and the session answers to the new token of `p` alone.
  abbrev pub IsAnswered : Uuid → Presentation → Ticket → Race M A → Type 0
  IsAnswered id p t r =
      (r.one ≡ answered)
      × (r.two ≡ answered)
      × HasRow M A r.db id false (record t { secret = p.next; deadline = p.now + thirty_days })

  -- A presentation before its write: not begun, loaded and renewed, or with its versions compared.
  abbrev stage : RefreshSessionEntity → Presentation → ℕ → Progress
  stage e p zero = begun
  stage e p (suc zero) = renewed (record (session_to_domain e) {
    token_hash = A.hash p.salt p.next;
    expires_at = p.now + thirty_days;
  })
  stage e p (suc (suc n)) = passed (renewed_row e p)
