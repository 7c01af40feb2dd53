-- ===== src/Broker.antt =====
-- worker/byok-broker.mjs: the broker of one capability, a Durable Object that keeps a provider's
-- credential and lets the holder of an opaque token use it. Its state, what reaches it and what it
-- answers; the validators. The handlers are in the child modules.
pub mod Identity
pub mod Issue
pub mod Poll
pub mod Forward
pub mod World
pub mod Fetch
mod Tests
use clawsembly_kernel.Prelude.{
  ℕ, ◌+◌, String, Bool, true, false, not, ◌&&◌, ◌||◌, Option, none, some, List, [], ◌∷◌,
  if◌then◌else◌, ◌==◌, nat_eq, string_eq, codes_eq, leb, ltb, length, all, any, drop, take, codes,
}
use clawsembly_kernel.Js.{Js, str, property, is_record, is_array, is_text, items}
use clawsembly_kernel.JsText.{Text, is_digit, is_lower, is_upper}
use clawsembly_kernel.Bridge.{fixed_length_equal}
use clawsembly_kernel.Byok.{
  ApiPath, chat_completions, responses, ModelApi, openai_completions, openai_chatgpt_responses,
  OpenClawProvider, clawsembly_byok, openai,
}

abbrev pub Bytes : Type 0
Bytes = List ℕ

-- `2 * 1024 * 1024`, of requests and of responses.
abbrev pub max_request_bytes : ℕ
max_request_bytes = 2097152

abbrev pub max_response_bytes : ℕ
max_response_bytes = 2097152

-- `DEFAULT_TTL_SECONDS * 1_000`
abbrev pub ttl_ms : ℕ
ttl_ms = 1800000

abbrev pub default_max_requests : ℕ
default_max_requests = 64

abbrev pub device_ttl_ms : ℕ
device_ttl_ms = 900000

abbrev pub default_poll_interval_ms : ℕ
default_poll_interval_ms = 5000

abbrev pub min_poll_interval_ms : ℕ
min_poll_interval_ms = 1000

abbrev pub refresh_skew_ms : ℕ
refresh_skew_ms = 60000

pub data AuthType : Type 0 where
  api_key_auth openai_oauth : AuthType

pub data SessionState : Type 0 where
  pending ready : SessionState

-- The keys of `BYOK_PROVIDERS`.
pub data Provider : Type 0 where
  openai_provider openrouter : Provider

abbrev pub upstream_of : Provider → String
upstream_of openai_provider = "https://api.openai.com/v1/chat/completions"
upstream_of openrouter = "https://openrouter.ai/api/v1/chat/completions"

abbrev pub label_of : Provider → String
label_of openai_provider = "OpenAI"
label_of openrouter = "OpenRouter"

-- What is stored under `SESSION_KEY`; a field that is `null` or missing is `none`.
pub record Session : Type 0 where
  pub auth_type : AuthType
  pub state : SessionState
  pub api_key : Option Text
  pub access_token : Option Text
  pub refresh_token : Option Text
  pub account_id : Option Text
  pub token_expires_at : ℕ
  pub provider : Provider
  pub provider_label : String
  pub model : Text
  pub api_path : ApiPath
  pub model_api : ModelApi
  pub open_claw_provider : OpenClawProvider
  pub device_auth_id : Option Text
  pub user_code : Option Text
  pub interval_ms : ℕ
  pub next_poll_at : ℕ
  pub guest_digest : Option Text
  pub poll_digest : Option Text
  pub admin_digest : Text
  pub created_at : ℕ
  pub expires_at : ℕ
  pub max_requests : ℕ
  pub request_count : ℕ
  pub revoked : Bool

-- The object's storage, and the time of its alarm.
pub record Store : Type 0 where
  pub session : Option Session
  pub alarm : Option ℕ

-- `content_length` is `Number` of the header where that is a natural number.
pub record Request : Type 0 where
  pub method : String
  pub content_type : Option Text
  pub content_length : Option ℕ
  pub authorization : Option Text
  pub body : Bytes

-- What a ready capability is described by; times are milliseconds.
pub record Grant : Type 0 where
  pub token : Text
  pub admin_token : Option Text
  pub provider : Provider
  pub provider_label : String
  pub model : Text
  pub api_path : ApiPath
  pub model_api : ModelApi
  pub open_claw_provider : OpenClawProvider
  pub expires_at : ℕ
  pub max_requests : ℕ

pub record Device : Type 0 where
  pub user_code : Text
  pub interval_ms : ℕ
  pub expires_at : ℕ
  pub poll_token : Text
  pub admin_token : Text

-- `streamed` is the upstream's answer: the chunks that are passed on, and whether the limit of the
-- body cut it off.
pub data Body : Type 0 where
  error_body : String → Body
  granted : Grant → Body
  started : Device → Body
  retry_after : ℕ → Body
  was_revoked : Bool → Body
  streamed : List (Text × Text) → List Bytes → Bool → Body

-- A response, or a handler that throws.
pub data Reply : Type 0 where
  reply : ℕ → Body → Reply
  rejected : Reply

-- The requests to OpenAI's authorization service, and their answers, with the body parsed or `{}`.
pub data OauthRequest : Type 0 where
  user_code_request : OauthRequest
  device_token_request : Option Text → Option Text → OauthRequest
  exchange_request : Text → Text → OauthRequest
  refresh_request : Option Text → OauthRequest

pub record OauthResponse : Type 0 where
  pub status : ℕ
  pub value : Js

-- The body goes as it came, or as a JSON value that is printed.
pub data UpstreamBody : Type 0 where
  original : Bytes → UpstreamBody
  printed : Js → UpstreamBody

pub record UpstreamRequest : Type 0 where
  pub url : String
  pub credential : Option Text
  pub account_id : Option Text
  pub accepts_stream : Bool
  pub body : UpstreamBody

pub record UpstreamResponse : Type 0 where
  pub status : ℕ
  pub headers : List (Text × Text)
  pub chunks : List Bytes

-- The platform and the environment: `none` is an exception. `decode_segment` is `atob` with
-- `JSON.parse`; `milliseconds` and `epoch_ms` read a number, or a text of one, in seconds:
-- the first where it is positive, the second where it is finite.
pub record Env : Type 0 where
  pub oauth : OauthRequest → Option OauthResponse
  pub provider_fetch : UpstreamRequest → Option UpstreamResponse
  pub digest : Text → Text
  pub parse_json : Bytes → Option Js
  pub decode_segment : Text → Option Js
  pub milliseconds : Js → Option ℕ
  pub epoch_ms : Js → Option ℕ

-- A part of a handler: it goes on with a value, or answers.
pub data Flow {ℓ} (A : Type ℓ) : Type ℓ where
  stop : Reply → Flow A
  go : A → Flow A

infixl 5 ◌>>=◌ ◌>>◌
abbrev pub ◌>>=◌ {ℓ κ} : {A : Type ℓ} {B : Type κ} (part : Flow A) (rest : A → Flow B) → Flow B
stop answer >>= rest = stop answer
go value >>= rest = rest value

abbrev pub ◌>>◌ {ℓ} : {B : Type ℓ} (part : Flow (Unit {0})) (rest : Flow B) → Flow B
part >> rest = part >>= λ _. rest

-- `errorResponse` and `openAiError`
abbrev pub error_response : String → ℕ → Reply
error_response code status = reply status (error_body code)

-- `if (!test) return errorResponse(code, status)`
abbrev pub require : (test : Bool) (code : String) (status : ℕ) → Flow (Unit {0})
require false code status = stop (error_response code status)
require true code status = go tt

abbrev pub present {ℓ} : {A : Type ℓ} → Option A → (code : String) (status : ℕ) → Flow A
present none code status = stop (error_response code status)
present (some value) code status = go value

unfoldable pub is_post : Request → Bool
is_post request = request.method == "POST"

-- An empty text is falsy.
abbrev pub is_truthy : Option Text → Bool
is_truthy none = false
is_truthy (some t) = not (t == [])

abbrev pub truthy : Option Text → Option Text
truthy none = none
truthy (some t) = if t == [] then none else some t

-- `fixedLengthEqual`, where a value that is no string is unequal.
unfoldable pub digest_equal : Text → Option Text → Bool
digest_equal left none = false
digest_equal left (some right) = fixed_length_equal left right

unfoldable pub after_prefix : Text → Text → Text
after_prefix [] value = value
after_prefix (p ∷ prefix) [] = []
after_prefix (p ∷ prefix) (v ∷ value) =
    let rest = after_prefix prefix value in if p == v then rest else []

unfoldable pub bearer_token : Request → Text
bearer_token request = elim request.authorization [
  | none ↦ []
  | some value ↦ after_prefix (codes "Bearer ") value
]

unfoldable pub is_control : ℕ → Bool
is_control c = leb c 31 || c == 127

abbrev pub keep_if : Bool → Text → Option Text
keep_if false value = none
keep_if true value = some value

unfoldable pub is_api_key : Text → Bool
is_api_key value = leb 8 (length value) && (leb (length value) 2048 && not (any is_control value))

unfoldable pub valid_api_key : Js → Option Text
valid_api_key (str s) = keep_if (is_api_key (codes s)) (codes s)
valid_api_key _ = none

unfoldable pub is_alphanumeric : ℕ → Bool
is_alphanumeric c = is_upper c || (is_lower c || is_digit c)

unfoldable pub is_model_char : ℕ → Bool
is_model_char c =
    is_alphanumeric c || (c == b'.' || (c == b'_' || (c == b':' || (c == b'/' || c == b'-'))))

-- `/^[A-Za-z0-9][A-Za-z0-9._:/-]{0,159}$/u`
unfoldable pub is_model : Text → Bool
is_model [] = false
is_model (c ∷ cs) = is_alphanumeric c && (leb (length cs) 159 && all is_model_char cs)

unfoldable pub valid_model : Js → Option Text
valid_model (str s) = keep_if (is_model (codes s)) (codes s)
valid_model _ = none

unfoldable pub provider_of : Js → Option Provider
provider_of v =
    if is_text "openai" v
    then some openai_provider
    else if is_text "openrouter" v
    then some openrouter
    else none

-- `toLowerCase` on the letters of the prefix.
unfoldable pub to_lower : ℕ → ℕ
to_lower c = if is_upper c then c + 32 else c

unfoldable pub has_prefix_lower : Text → Text → Bool
has_prefix_lower [] value = true
has_prefix_lower (p ∷ prefix) [] = false
has_prefix_lower (p ∷ prefix) (v ∷ value) = p == to_lower v && has_prefix_lower prefix value

abbrev pub or_empty : Option Text → Text
or_empty none = []
or_empty (some t) = t

abbrev pub is_within : Option ℕ → Bool
is_within none = true
is_within (some n) = leb n max_request_bytes

module _ (env : Env) where
  -- `readBoundedJson`, with the answers that its callers give to what it throws.
  unfoldable pub read_bounded_json : Request → Flow Js
  read_bounded_json request = do
    require (has_prefix_lower (codes "application/json") (or_empty request.content_type))
        "invalid_request" 400
    require (is_within request.content_length) "body_too_large" 413
    require (leb (length request.body) max_request_bytes) "body_too_large" 413
    present (env.parse_json request.body) "invalid_request" 400

unfoldable pub is_nonempty_array : Js → Bool
is_nonempty_array v = is_array v && not (length (items v) == 0)

abbrev pub is_model_of : Text → Js → Bool
is_model_of model (str s) = codes s == model
is_model_of model _ = false

unfoldable pub validate_completion : Js → Text → Bool
validate_completion value model =
    is_record value
    && (is_model_of model (property value "model") && is_nonempty_array (property value "messages"))

unfoldable pub validate_responses : Js → Text → Bool
validate_responses value model =
    is_record value
    && (is_model_of model (property value "model") && is_nonempty_array (property value "input"))
