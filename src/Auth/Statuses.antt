-- ===== src/Auth/Statuses.antt =====
-- The HTTP statuses that the errors of the auth module get from the filter, which reads their messages.
use flatrent.Base.{ℕ, ◌≡◌, refl, String, Bool, true, false, Option, List, Uuid, arith}
use flatrent.Base.Text.{includes_codes, begins_with}
use flatrent.Shared.Http.{Text, Issue, error, answer, verdict_of}
use flatrent.Auth.Email.{email_empty, email_invalid}
use flatrent.Auth.Errors.{
  Error, message, email_refused, policy_unmet, user_exists, invalid_credentials, account_blocked,
  old_password_invalid, user_not_found, associated_user_not_found, session_not_found,
  session_expired, session_revoked, token_reuse_detected, password_empty, version_mismatch,
  database_failure, token_refused,
}

-- The errors whose message holds no text from elsewhere.
abbrev pub is_fixed : Error → Bool
is_fixed (email_refused (email_invalid value)) = false
is_fixed database_failure = false
is_fixed (token_refused text) = false
is_fixed _ = true

abbrev pub auth_status : Error → ℕ
auth_status user_exists = 409
auth_status user_not_found = 404
auth_status associated_user_not_found = 404
auth_status session_not_found = 404
auth_status policy_unmet = 401
auth_status invalid_credentials = 401
auth_status account_blocked = 403
auth_status session_expired = 400
auth_status session_revoked = 400
auth_status token_reuse_detected = 400
-- an empty e-mail, a wrong current password, an empty password, a version conflict
auth_status _ = 500

-- Every error of the auth module with a fixed message gets the status of the table: in particular a
-- wrong current password and a version conflict are internal errors, and a new password that does not
-- meet the policy is a failure to authenticate.
pub answer-auth_status :
    (driver : String) (id : Uuid) (url : Text) (e : Error) (issues : Option (List Issue))
    → is_fixed e ≡ true
    → (answer id url (error (message driver e) issues)).status ≡ auth_status e
unfolding answer verdict_of includes_codes begins_with
answer-auth_status driver id url (email_refused email_empty) issues fixed = refl
answer-auth_status driver id url (email_refused (email_invalid value)) issues fixed =
    absurd (ground (arith, fixed))
answer-auth_status driver id url policy_unmet issues fixed = refl
answer-auth_status driver id url user_exists issues fixed = refl
answer-auth_status driver id url invalid_credentials issues fixed = refl
answer-auth_status driver id url account_blocked issues fixed = refl
answer-auth_status driver id url old_password_invalid issues fixed = refl
answer-auth_status driver id url user_not_found issues fixed = refl
answer-auth_status driver id url associated_user_not_found issues fixed = refl
answer-auth_status driver id url session_not_found issues fixed = refl
answer-auth_status driver id url session_expired issues fixed = refl
answer-auth_status driver id url session_revoked issues fixed = refl
answer-auth_status driver id url token_reuse_detected issues fixed = refl
answer-auth_status driver id url password_empty issues fixed = refl
answer-auth_status driver id url version_mismatch issues fixed = refl
answer-auth_status driver id url database_failure issues fixed = absurd (ground (arith, fixed))
answer-auth_status driver id url (token_refused text) issues fixed = absurd (ground (arith, fixed))
