-- ===== src/Shared/Http.antt =====
-- The filter that answers a request whose handler threw, shared/interfaces/http/http-exception.filter.ts.
-- Texts are lists of character codes; the correlation id and the address of the request are arguments,
-- and the line that it logs is left out.
use flatrent.Base.{
  ℕ, String, Bool, Option, none, some, List, [], ◌∷◌, ◌++◌, map, some_of, Uuid, ◌==◌, if◌then◌else◌,
}
use flatrent.Base.Text.{codes, includes_codes, to_lower_case}

abbrev pub Text : Type 0
Text = List ℕ

-- What an `HttpException` was made of: a text, or an object with these fields.
pub data Content : Type 0 where
  text_content : Text → Content
  object_content : Option Text → Option Text → Content

pub record HttpException : Type 0 where
  pub status : ℕ
  pub name : Text
  pub content : Content
  pub message : Text

-- One of the `issues` of a ZodError: its path, and its message.
pub record Issue : Type 0 where
  pub path : List Text
  pub message : Text

pub data Exception : Type 0 where
  http_exception : HttpException → Exception
  -- any other `Error`, and its `issues`, where it has an array of them
  error : Text → Option (List Issue) → Exception
  -- what is thrown need not be an `Error`
  other : Exception

pub record InvalidParam : Type 0 where
  pub name : Text
  pub reason : Text

-- The body of the answer, whose header names it as `application/problem+json`.
pub record Problem : Type 0 where
  pub type_uri : Text
  pub title : Text
  pub status : ℕ
  pub detail : Text
  pub instance_uri : Text
  pub error_code : Text
  pub correlation_id : Uuid
  pub invalid_params : Option (List InvalidParam)

-- `a || b` on texts that may be missing or empty
abbrev pub or_else : Option Text → Text → Text
or_else none b = b
or_else (some []) b = b
or_else (some (c ∷ s)) b = c ∷ s

pub record Verdict : Type 0 where
  pub status : ℕ
  pub title : Text
  pub error_code : Text

abbrev pub includes_any : Text → List String → Bool
includes_any msg words = some_of (λ w. includes_codes msg (codes w)) words

abbrev pub internal : Verdict
internal = record {
  status = 500;
  title = codes "Internal Server Error";
  error_code = codes "INTERNAL_SERVER_ERROR";
}

abbrev pub conflict_verdict : Verdict
conflict_verdict = record {
  status = 409;
  title = codes "Conflict";
  error_code = codes "RESOURCE_ALREADY_EXISTS";
}

abbrev pub not_found_verdict : Verdict
not_found_verdict = record {
  status = 404;
  title = codes "Not Found";
  error_code = codes "RESOURCE_NOT_FOUND";
}

abbrev pub unauthorized : Verdict
unauthorized = record {
  status = 401;
  title = codes "Unauthorized";
  error_code = codes "INVALID_CREDENTIALS";
}

abbrev pub forbidden : Verdict
forbidden = record { status = 403; title = codes "Forbidden"; error_code = codes "ACCOUNT_BLOCKED" }

abbrev pub bad_request : Verdict
bad_request = record {
  status = 400;
  title = codes "Bad Request";
  error_code = codes "VALIDATION_FAILED";
}

abbrev pub conflict_words : List String
conflict_words = "already exists" ∷ "unique constraint" ∷ "conflict" ∷ []

abbrev pub not_found_words : List String
not_found_words = "not found" ∷ "NotFound" ∷ []

abbrev pub credential_words : List String
credential_words = "Invalid email or password" ∷ "credentials" ∷ "Password does not meet" ∷ []

abbrev pub blocked_words : List String
blocked_words = "blocked" ∷ []

abbrev pub validation_words : List String
validation_words =
    "validation" ∷ "Invalid" ∷ "ZodError" ∷ "Token reuse detected" ∷ "revoked" ∷ "expired" ∷ []

-- The chain of tests on the message of an error.
unfoldable pub verdict_of : Text → Verdict
verdict_of msg =
    if includes_any msg conflict_words
    then conflict_verdict
    else if includes_any msg not_found_words
    then not_found_verdict
    else if includes_any msg credential_words
    then unauthorized
    else if includes_any msg blocked_words
    then forbidden
    else if includes_any msg validation_words
    then bad_request
    else internal

-- `issue.path.join('.')`
abbrev pub join : List Text → Text
join [] = []
join (p ∷ []) = p
join (p ∷ q ∷ rest) = p ++ (b'.' ∷ join (q ∷ rest))

abbrev pub invalid_param : Issue → InvalidParam
invalid_param i = record { name = join i.path; reason = i.message }

abbrev pub params_of : Option (List Issue) → Option (List InvalidParam)
params_of none = none
params_of (some issues) = some (map invalid_param issues)

-- Only the branch of a bad request reads the issues.
abbrev pub invalid_params_of : Text → Option (List Issue) → Option (List InvalidParam)
invalid_params_of msg issues = if (verdict_of msg).status == 400 then params_of issues else none

-- `errorCode.toLowerCase().replace(/_/g, '-')`
abbrev pub dashed : Text → Text
dashed = map (λ c. if c == b'_' then b'-' else c)

abbrev pub problem : Uuid → Text → Verdict → Text → Option (List InvalidParam) → Problem
problem correlation_id url v detail invalid_params = record {
  type_uri = codes "https://flatren.example/problems/" ++ dashed (to_lower_case v.error_code);
  title = v.title;
  status = v.status;
  detail = detail;
  instance_uri = url;
  error_code = v.error_code;
  correlation_id = correlation_id;
  invalid_params = invalid_params;
}

-- `exception.name || 'HTTP Exception'` and `resContent.errorCode || 'HTTP_ERROR'`
abbrev pub http_verdict : HttpException → Verdict
http_verdict e = record {
  status = e.status;
  title = or_else (some e.name) (codes "HTTP Exception");
  error_code = elim (e.content) [
    | text_content text ↦ codes "HTTP_ERROR"
    | object_content message error_code ↦ or_else error_code (codes "HTTP_ERROR")
  ];
}

abbrev pub http_detail : HttpException → Text
http_detail e = elim (e.content) [
  | text_content text ↦ text
  | object_content message error_code ↦ or_else message e.message
]

-- `HttpExceptionFilter.catch`
unfoldable pub answer : Uuid → Text → Exception → Problem
answer correlation_id url (http_exception e) =
    problem correlation_id url (http_verdict e) (http_detail e) none
answer correlation_id url (error msg issues) =
    problem correlation_id url (verdict_of msg) msg (invalid_params_of msg issues)
answer correlation_id url other =
    problem correlation_id url internal (codes "An unexpected error occurred on the server.") none
