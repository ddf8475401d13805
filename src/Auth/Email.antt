-- ===== src/Auth/Email.antt =====
-- The e-mail address, auth/domain/model/email.value-object.ts. A text is the list of its character
-- codes.
pub mod Format
use flatrent.Base.{
  ℕ, Bool, true, false, not, ◌&&◌, ◌||◌, List, [], ◌∷◌, Result, ok, err, length, ◌==◌,
  if◌then◌else◌,
}
use flatrent.Base.Text.{is_space, trim, to_lower_case}

-- `[^\s@]`
unfoldable pub is_word : ℕ → Bool
is_word c = not (is_space c) && not (c == b'@')

-- `[^\s@]*$`
unfoldable pub only_words : List ℕ → Bool
only_words [] = true
only_words (c ∷ s) = is_word c && only_words s

-- `[^\s@]*\.[^\s@]+$`
unfoldable pub dotted : List ℕ → Bool
dotted [] = false
dotted (c ∷ s) = is_word c && ((c == b'.' && not (length s == 0) && only_words s) || dotted s)

-- `[^\s@]+\.[^\s@]+$`
unfoldable pub is_domain : List ℕ → Bool
is_domain [] = false
is_domain (c ∷ s) = is_word c && dotted s

-- `[^\s@]*@[^\s@]+\.[^\s@]+$`
unfoldable pub ends_in_domain : List ℕ → Bool
ends_in_domain [] = false
ends_in_domain (c ∷ s) = (c == b'@' && is_domain s) || (is_word c && ends_in_domain s)

-- `EMAIL_REGEX`
unfoldable pub is_email : List ℕ → Bool
is_email [] = false
is_email (c ∷ s) = is_word c && ends_in_domain s

pub data EmailError : Type 0 where
  email_empty : EmailError
  email_invalid : List ℕ → EmailError

-- `Email.create`; the object is its value.
unfoldable pub create_email : List ℕ → Result EmailError (List ℕ)
create_email value =
    let normalized : List ℕ = to_lower_case (trim value) in
    if length value == 0
    then err email_empty
    else if not (is_email normalized)
    then err (email_invalid value)
    else ok normalized
