-- ===== src/Shared/Logging/Redaction.antt =====
-- What redaction leaves in a value, and what it depends on.
use flatrent.Base.{
  ◌≡◌, refl, ap, Bool, true, false, not, ◌&&◌, Option, none, some, Date, arith, if◌then◌else◌,
  Bool-cases, inl, inr,
}
use flatrent.Base.Text.{codes, codes_eq, includes_codes, begins_with, to_lower_case, lower}
use flatrent.Shared.Http.{Text}
use flatrent.Shared.Logging.{
  Value, Items, Fields, null, undefined, other, text, array, object, no_items, item, no_fields,
  field, has_bearer, is_sensitive_text, is_sensitive_key, redacted_text, redact, redact_items,
  redact_fields, Level, log_message, logged_message, logged_params,
}

abbrev pub is_mask : Value → Bool
is_mask (text s) = codes_eq s (codes "[REDACTED]")
is_mask _ = false

-- No text is sensitive, and what stands under a sensitive key is masked.
unfoldable mutual
  pub is_clean : Value → Bool
  is_clean null = true
  is_clean undefined = true
  is_clean (other n) = true
  is_clean (text s) = not (is_sensitive_text s)
  is_clean (array items) = are_clean items
  is_clean (object fields) = are_clean_fields fields

  pub are_clean : Items → Bool
  are_clean no_items = true
  are_clean (item v items) = is_clean v && are_clean items

  pub are_clean_fields : Fields → Bool
  are_clean_fields no_fields = true
  are_clean_fields (field key v fields) =
      (if is_sensitive_key key then is_mask v else is_clean v) && are_clean_fields fields

-- The value with other values under its sensitive keys.
module _ (secret : Text → Value) where
  unfoldable mutual
    pub overwrite : Value → Value
    overwrite null = null
    overwrite undefined = undefined
    overwrite (other n) = other n
    overwrite (text s) = text s
    overwrite (array items) = array (overwrite_items items)
    overwrite (object fields) = object (overwrite_fields fields)

    pub overwrite_items : Items → Items
    overwrite_items no_items = no_items
    overwrite_items (item v items) = item (overwrite v) (overwrite_items items)

    pub overwrite_fields : Fields → Fields
    overwrite_fields no_fields = no_fields
    overwrite_fields (field key v fields) =
        field key (if is_sensitive_key key then secret key else overwrite v)
          (overwrite_fields fields)

  mutual
    unfolding redact overwrite

    -- What stands under a sensitive key does not influence the redacted value.
    pub redact-overwrite : (v : Value) → redact (overwrite v) ≡ redact v
    redact-overwrite null = refl
    redact-overwrite undefined = refl
    redact-overwrite (other n) = refl
    redact-overwrite (text s) = refl
    redact-overwrite (array items) = ap array (redact_items-overwrite_items items)
    redact-overwrite (object fields) = ap object (redact_fields-overwrite_fields fields)

    redact_items-overwrite_items :
        (items : Items) → redact_items (overwrite_items items) ≡ redact_items items
    redact_items-overwrite_items no_items = refl
    redact_items-overwrite_items (item v items) =
        ground (arith, redact-overwrite v, redact_items-overwrite_items items)

    redact_fields-overwrite_fields :
        (fields : Fields) → redact_fields (overwrite_fields fields) ≡ redact_fields fields
    redact_fields-overwrite_fields no_fields = refl
    redact_fields-overwrite_fields (field key v fields) = elim (Bool-cases (is_sensitive_key key)) [
      | inl hidden ↦ ground (arith, hidden, redact_fields-overwrite_fields fields)
      | inr shown ↦ ground (arith, shown, redact-overwrite v, redact_fields-overwrite_fields fields)
    ]

mask_harmless : is_sensitive_text (codes "[REDACTED_SENSITIVE_STRING]") ≡ false
unfolding is_sensitive_text has_bearer to_lower_case lower includes_codes begins_with
mask_harmless = refl

redacted_text_harmless : (s : Text) → is_sensitive_text (redacted_text s) ≡ false
redacted_text_harmless s = elim (Bool-cases (is_sensitive_text s)) [
  | inl found ↦ ground (arith, found, mask_harmless)
  | inr fine ↦ ground (arith, fine)
]

mutual
  unfolding redact is_clean

  pub redact-is_clean : (v : Value) → is_clean (redact v) ≡ true
  redact-is_clean null = refl
  redact-is_clean undefined = refl
  redact-is_clean (other n) = refl
  redact-is_clean (text s) = ground (arith, redacted_text_harmless s)
  redact-is_clean (array items) = redact_items-are_clean items
  redact-is_clean (object fields) = redact_fields-are_clean_fields fields

  pub redact_items-are_clean : (items : Items) → are_clean (redact_items items) ≡ true
  redact_items-are_clean no_items = refl
  redact_items-are_clean (item v items) =
      ground (arith, redact-is_clean v, redact_items-are_clean items)

  redact_fields-are_clean_fields :
      (fields : Fields) → are_clean_fields (redact_fields fields) ≡ true
  redact_fields-are_clean_fields no_fields = refl
  redact_fields-are_clean_fields (field key v fields) = elim (Bool-cases (is_sensitive_key key)) [
    | inl hidden ↦ ground (arith, hidden, redact_fields-are_clean_fields fields)
    | inr shown ↦ ground (arith, shown, redact-is_clean v, redact_fields-are_clean_fields fields)
  ]

abbrev pub is_text : Value → Bool
is_text (text s) = true
is_text _ = false

abbrev pub are_clean_params : Option Items → Bool
are_clean_params none = true
are_clean_params (some items) = are_clean items

logged_params-are_clean_params : (params : Items) → are_clean_params (logged_params params) ≡ true
logged_params-are_clean_params no_items = refl
logged_params-are_clean_params (item v items) = redact_items-are_clean (item v items)

logged_message-is_clean : (v : Value) → is_text v ≡ false → is_clean (logged_message v) ≡ true
logged_message-is_clean null e = redact-is_clean null
logged_message-is_clean undefined e = redact-is_clean undefined
logged_message-is_clean (other n) e = redact-is_clean (other n)
logged_message-is_clean (text s) e = absurd (ground (arith, e))
logged_message-is_clean (array items) e = redact-is_clean (array items)
logged_message-is_clean (object fields) e = redact-is_clean (object fields)

-- In what is logged, the parameters hold no sensitive text and nothing but a mask under a sensitive
-- key, and nor does the message, unless it is itself a text, which is logged as it is. The context is
-- always logged as it is, and nothing is stated of it.
pub log_message-is_clean :
    (timestamp : Date) (level : Level) (message : Value) (context : Option Text) (params : Items)
    → is_text message ≡ false
    → (is_clean (log_message timestamp level message context params).1.message ≡ true)
      × (are_clean_params (log_message timestamp level message context params).1.optional_params
          ≡ true)
unfolding log_message
log_message-is_clean timestamp level message context params e =
    (logged_message-is_clean message e, logged_params-are_clean_params params)

logged_message-overwrite :
    (secret : Text → Value) (v : Value) → logged_message (overwrite secret v) ≡ logged_message v
unfolding overwrite
logged_message-overwrite secret null = refl
logged_message-overwrite secret undefined = refl
logged_message-overwrite secret (other n) = refl
logged_message-overwrite secret (text s) = refl
logged_message-overwrite secret (array items) = redact-overwrite secret (array items)
logged_message-overwrite secret (object fields) = redact-overwrite secret (object fields)

logged_params-overwrite_items :
    (secret : Text → Value) (params : Items)
    → logged_params (overwrite_items secret params) ≡ logged_params params
unfolding overwrite
logged_params-overwrite_items secret no_items = refl
logged_params-overwrite_items secret (item v items) =
    ap some (redact_items-overwrite_items secret (item v items))

-- The line that is logged, and its stream, do not depend on what stands under sensitive keys, in the
-- message or in a parameter.
pub log_message-overwrite :
    (secret : Text → Value) (timestamp : Date) (level : Level) (message : Value)
    (context : Option Text) (params : Items)
    → log_message timestamp level (overwrite secret message) context (overwrite_items secret params)
      ≡ log_message timestamp level message context params
unfolding log_message
log_message-overwrite secret timestamp level message context params =
    ground
      (arith, logged_message-overwrite secret message, logged_params-overwrite_items secret params)
