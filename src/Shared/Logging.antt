-- ===== src/Shared/Logging.antt =====
-- The logger, shared/infrastructure/logging/json-logger.service.ts. Texts are lists of character codes;
-- the timestamp is an argument, and the writing of the line is the choice of its stream.
pub mod Redaction
use flatrent.Base.{
  ℕ, String, Bool, true, false, not, ◌&&◌, ◌||◌, Option, none, some, List, [], ◌∷◌, some_of, Date,
  leb, ◌==◌, if◌then◌else◌,
}
use flatrent.Base.Text.{codes, includes_codes, begins_with, is_space, to_lower_case}
use flatrent.Shared.Http.{Text, or_else}

-- What can be logged. A value that is none of the others, such as a number, is told apart by a code.
mutual
  pub data Value : Type 0 where
    null undefined : Value
    other : ℕ → Value
    text : Text → Value
    array : Items → Value
    object : Fields → Value

  pub data Items : Type 0 where
    no_items : Items
    item : Value → Items → Items

  pub data Fields : Type 0 where
    no_fields : Fields
    field : Text → Value → Fields → Fields

-- `[A-Za-z0-9-_=]`, in lower case
unfoldable pub is_token_char : ℕ → Bool
is_token_char c =
    (leb b'a' c && leb c b'z') || (leb b'0' c && leb c b'9') || c == b'-' || c == b'_' || c == b'='

-- What is left of a text behind a character of a class, if it begins with one, and behind all of them.
abbrev pub after_one : (ℕ → Bool) → Text → Option Text
after_one p [] = none
after_one p (c ∷ s) = if p c then some s else none

unfoldable pub skip : (ℕ → Bool) → Text → Text
skip p [] = []
skip p (c ∷ s) = if p c then skip p s else c ∷ s

abbrev pub after_some : (ℕ → Bool) → Text → Option Text
after_some p s = elim (after_one p s) [ none ↦ none | some rest ↦ some (skip p rest) ]

abbrev pub then_after : Option Text → (Text → Option Text) → Option Text
then_after none k = none
then_after (some s) k = k s

abbrev pub drop : List ℕ → Text → Text
drop [] s = s
drop (d ∷ t) [] = []
drop (d ∷ t) (c ∷ s) = drop t s

abbrev pub is_some : Option Text → Bool
is_some none = false
is_some (some s) = true

-- `\s+[…]+\.[…]+`; the rest of the pattern matches the empty text.
unfoldable pub is_credential : Text → Bool
is_credential s = is_some (
    then_after (after_some is_space s) (λ a.
      then_after (after_some is_token_char a)
        (λ b. then_after (after_one (λ c. c == b'.') b) (after_some is_token_char))))

-- `/bearer…/i.test`, on a text in lower case
unfoldable pub has_bearer : Text → Bool
has_bearer [] = false
has_bearer (c ∷ s) =
    (begins_with (c ∷ s) (codes "bearer") && is_credential (drop (codes "bearer") (c ∷ s)))
    || has_bearer s

unfoldable pub is_sensitive_text : Text → Bool
is_sensitive_text s =
    has_bearer (to_lower_case s) || includes_codes (to_lower_case s) (codes "auth")

abbrev pub sensitive_words : List String
sensitive_words =
    "password" ∷ "token" ∷ "authorization" ∷ "secret" ∷ "key" ∷ "credential" ∷ "hash" ∷ "salt" ∷ []

unfoldable pub is_sensitive_key : Text → Bool
is_sensitive_key key = some_of (λ w. includes_codes (to_lower_case key) (codes w)) sensitive_words

abbrev pub redacted_text : Text → Text
redacted_text s = if is_sensitive_text s then codes "[REDACTED_SENSITIVE_STRING]" else s

-- `JsonLogger.redact`
unfoldable mutual
  pub redact : Value → Value
  redact null = null
  redact undefined = undefined
  redact (other n) = other n
  redact (text s) = text (redacted_text s)
  redact (array items) = array (redact_items items)
  redact (object fields) = object (redact_fields fields)

  pub redact_items : Items → Items
  redact_items no_items = no_items
  redact_items (item v items) = item (redact v) (redact_items items)

  pub redact_fields : Fields → Fields
  redact_fields no_fields = no_fields
  redact_fields (field key v fields) =
      field key (if is_sensitive_key key then text (codes "[REDACTED]") else redact v)
        (redact_fields fields)

pub data Level : Type 0 where
  info error_level warn debug verbose : Level

pub data Stream : Type 0 where
  standard_output standard_error : Stream

pub record LogObject : Type 0 where
  pub timestamp : Date
  pub level : Level
  pub context : Text
  pub message : Value
  pub optional_params : Option Items

-- `typeof message === 'string' ? message : this.redact(message)`
abbrev pub logged_message : Value → Value
logged_message (text s) = text s
logged_message v = redact v

abbrev pub logged_params : Items → Option Items
logged_params no_items = none
logged_params (item v items) = some (redact_items (item v items))

abbrev pub stream_of : Level → Stream
stream_of error_level = standard_error
stream_of warn = standard_error
stream_of _ = standard_output

-- `logMessage`
unfoldable pub log_message : Date → Level → Value → Option Text → Items → Stream × LogObject
unfolding redact redact_items
log_message timestamp level message context params = (
  stream_of level,
  record {
    timestamp = timestamp;
    level = level;
    context = or_else context (codes "Application");
    message = logged_message message;
    optional_params = logged_params params;
  },
)

abbrev pub trace_value : Option Text → Value
trace_value none = undefined
trace_value (some s) = text s

-- `log`, and `error` with its trace; `warn`, `debug` and `verbose` are as `log` at their levels.
abbrev pub log : Date → Value → Option Text → Items → Stream × LogObject
log timestamp message context params = log_message timestamp info message context params

abbrev pub log_error : Date → Value → Option Text → Option Text → Items → Stream × LogObject
log_error timestamp message trace context params =
    log_message timestamp error_level message context (item (trace_value trace) params)
