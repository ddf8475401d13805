-- ===== src/Auth/Hasher.antt =====
-- The password hasher, auth/infrastructure/security/argon2-password-hasher.ts, over the Argon2
-- library, which is a parameter. A salt, which the library draws by itself, is an argument.
use flatrent.Base.{
  ℕ, ◌≡◌, String, Bool, false, ◌||◌, Option, none, some, Result, ok, err, if◌then◌else◌,
}
use text.Mathlib.Text.{◌==◌ as str_eq}
use flatrent.Base.Text.{is_empty}
use flatrent.Auth.Errors.{Error, password_empty}

pub record Argon2 : Type 0 where
  -- `argon2.hash(password, options)`
  pub hash : ℕ → String → String
  -- `argon2.verify(hash, password)`; `none` is a rejected promise
  pub verify : String → String → Option Bool
  pub verify-hash :
      (salt : ℕ) (password given : String)
      → verify (hash salt password) given ≡ some (str_eq password given)
  pub is_empty-hash : (salt : ℕ) (password : String) → is_empty (hash salt password) ≡ false

module _ (A : Argon2) where
  unfoldable pub hash_password : ℕ → String → Result Error String
  hash_password salt password =
      if is_empty password then err password_empty else ok (A.hash salt password)

  abbrev pub or_false : Option Bool → Bool
  or_false none = false
  or_false (some b) = b

  unfoldable pub compare_password : String → String → Bool
  compare_password password hash =
      if is_empty password || is_empty hash then false else or_false (A.verify hash password)
