-- ===== src/Auth/Session.antt =====
-- The refresh session, auth/domain/model/refresh-session.entity.ts. A method takes the session to its
-- new value and the error thrown, if any.
use flatrent.Base.{String, Bool, true, false, not, Uuid, Date, ok, err, Action, ltb, if◌then◌else◌}
use flatrent.Shared.{AggregateRoot, new_root}
use flatrent.Auth.Errors.{Error, session_revoked, token_reuse_detected}

-- The aggregate records no events of its own.
pub record RefreshSession : Type 0 where
  pub root : AggregateRoot (Unit {0})
  pub open root use *
  pub user_id : Uuid
  pub token_hash : String
  pub expires_at : Date
  pub is_revoked : Bool

abbrev pub new_session : Uuid → Uuid → String → Date → RefreshSession
new_session id user_id token_hash expires_at = record {
  root = new_root id;
  user_id = user_id;
  token_hash = token_hash;
  expires_at = expires_at;
  is_revoked = false;
}

abbrev pub is_expired : Date → RefreshSession → Bool
is_expired now s = ltb s.expires_at now

unfoldable pub rotate : String → Date → Action RefreshSession Error (Unit {0})
rotate new_token_hash new_expires_at s =
    if s.is_revoked
    then (err session_revoked, s)
    else (ok tt, record s { token_hash = new_token_hash; expires_at = new_expires_at })

abbrev pub revoke : RefreshSession → RefreshSession
revoke s = record s { is_revoked = true }

unfoldable pub verify_token : Bool → Action RefreshSession Error (Unit {0})
verify_token is_valid s =
    if s.is_revoked
    then (err token_reuse_detected, s)
    else if not is_valid
    then (err token_reuse_detected, revoke s)
    else (ok tt, s)
