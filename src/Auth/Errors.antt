-- ===== src/Auth/Errors.antt =====
-- The enumerations of the auth module's accounts, and what its code throws, with the messages.
use Prim.Native.String.{String}
use flatrent.Base.{ℕ, List, ◌++◌, Result, ok, err}
use flatrent.Base.Text.{codes}
use flatrent.Auth.Email.{EmailError, email_empty, email_invalid}

-- `enum UserStatus`
pub data UserStatus : Type 0 where
  active blocked : UserStatus

-- `enum UserRole`
pub data UserRole : Type 0 where
  landlord tenant : UserRole

pub data Error : Type 0 where
  email_refused : EmailError → Error
  policy_unmet user_exists invalid_credentials account_blocked old_password_invalid : Error
  user_not_found associated_user_not_found session_not_found : Error
  session_expired session_revoked token_reuse_detected : Error
  password_empty : Error
  version_mismatch : Error
  -- the database rejected a statement
  database_failure : Error
  -- the token library rejected a token, with this message
  token_refused : String → Error

-- `e.message`, as character codes; the text of a database failure is the driver's.
module _ (driver_message : String) where
  abbrev pub message : Error → List ℕ
  message (email_refused email_empty) = codes "Email cannot be empty"
  message (email_refused (email_invalid value)) = codes "Invalid email format: " ++ value
  message policy_unmet =
      codes
        "Password does not meet safety standards (min 8 characters, containing letters and numbers)."
  message user_exists = codes "User with this email already exists"
  message invalid_credentials = codes "Invalid email or password."
  message account_blocked = codes "The user account is blocked."
  message old_password_invalid = codes "The current password provided is invalid."
  message user_not_found = codes "User account not found."
  message associated_user_not_found = codes "Associated user not found."
  message session_not_found = codes "The requested refresh session was not found."
  message session_expired = codes "The refresh session has expired."
  message session_revoked = codes "The refresh session has been revoked."
  message token_reuse_detected =
      codes "Token reuse detected! Revoking the session family to prevent unauthorized access."
  message password_empty = codes "Password cannot be empty"
  message version_mismatch = codes "Optimistic Lock Conflict: version mismatch."
  message database_failure = codes driver_message
  message (token_refused text) = codes text

-- `Email.create` as the use cases call it.
abbrev pub email_result : Result EmailError (List ℕ) → Result Error (List ℕ)
email_result (ok email) = ok email
email_result (err e) = err (email_refused e)
