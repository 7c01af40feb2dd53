-- ===== src/Byok.antt =====
-- src/byok-capability-handoff.ts: the model capability that one page hands to the next part of
-- itself through a global slot, which is emptied when it is read.
pub mod Handoff
pub mod Config
mod Tests
use clawsembly_kernel.Prelude.{
  String, Bool, true, false, not, ◌&&◌, ◌||◌, Option, none, some, if◌then◌else◌, ◌==◌, string_eq,
}
use clawsembly_kernel.Js.{Js, str, obj, end, field, property, is_record, is_text, as_string}

pub data ApiPath : Type 0 where
  chat_completions responses : ApiPath

pub data ModelApi : Type 0 where
  openai_completions openai_chatgpt_responses : ModelApi

pub data OpenClawProvider : Type 0 where
  clawsembly_byok openai : OpenClawProvider

abbrev pub api_path_text : ApiPath → String
api_path_text chat_completions = "/v1/chat/completions"
api_path_text responses = "/v1/responses"

abbrev pub model_api_text : ModelApi → String
model_api_text openai_completions = "openai-completions"
model_api_text openai_chatgpt_responses = "openai-chatgpt-responses"

abbrev pub provider_text : OpenClawProvider → String
provider_text clawsembly_byok = "clawsembly-byok"
provider_text openai = "openai"

-- `ByokCapabilityHandoff`; its `providerId` has only one value.
pub record Capability : Type 0 where
  pub api_key : String
  pub api_path : ApiPath
  pub base_url : String
  pub expires_at : String
  pub model_api : ModelApi
  pub model : String
  pub open_claw_provider : OpenClawProvider

abbrev pub js_of : Capability → Js
js_of c = obj (
    field "apiKey" (str c.api_key) (
      field "apiPath" (str (api_path_text c.api_path)) (
        field "baseUrl" (str c.base_url) (
          field "expiresAt" (str c.expires_at) (
            field "modelApi" (str (model_api_text c.model_api)) (
              field "model" (str c.model) (
                field "openClawProvider" (str (provider_text c.open_claw_provider))
                  (field "providerId" (str "clawsembly-byok") end))))))))

-- The parts of a parsed `URL` that the source reads.
pub record Url : Type 0 where
  pub protocol : String
  pub hostname : String

unfoldable pub is_loopback : String → Bool
is_loopback hostname = hostname == "localhost" || (hostname == "127.0.0.1" || hostname == "[::1]")

unfoldable pub is_secure_url : Option Url → Bool
is_secure_url none = false
is_secure_url (some url) =
    url.protocol == "https:" || url.protocol == "http:" && is_loopback url.hostname

infixl 5 ◌>>=◌ ◌>>◌
abbrev pub ◌>>=◌ {ℓ κ} : {A : Type ℓ} {B : Type κ} → Option A → (A → Option B) → Option B
none >>= k = none
some a >>= k = k a

abbrev pub ◌>>◌ {ℓ} : {B : Type ℓ} → Option (Unit {0}) → Option B → Option B
m >> k = m >>= λ _. k

abbrev pub guard : Bool → Option (Unit {0})
guard true = some tt
guard false = none

-- `typeof value === "string" && value.length !== 0`
unfoldable pub filled_string : Js → Option String
filled_string (str s) = if s == "" then none else some s
filled_string _ = none

unfoldable pub api_path_of : Js → Option ApiPath
api_path_of v =
    if is_text "/v1/chat/completions" v
    then some chat_completions
    else if is_text "/v1/responses" v
    then some responses
    else none

unfoldable pub model_api_of : Js → Option ModelApi
model_api_of v =
    if is_text "openai-completions" v
    then some openai_completions
    else if is_text "openai-chatgpt-responses" v
    then some openai_chatgpt_responses
    else none

unfoldable pub provider_of : Js → Option OpenClawProvider
provider_of v =
    if is_text "clawsembly-byok" v
    then some clawsembly_byok
    else if is_text "openai" v
    then some openai
    else none

-- The global slot: `undefined` when it is not set.
abbrev pub Slot : Type 0
Slot = Js

-- `new URL(value)`, which throws on what is no URL.
module _ (parse_url : String → Option Url) where
  unfoldable pub is_secure_byok_base_url : String → Bool
  is_secure_byok_base_url value = is_secure_url (parse_url value)

  unfoldable pub capability_of : Js → Option Capability
  capability_of value = do
    guard (is_record value)
    guard (is_text "clawsembly-byok" (property value "providerId"))
    api_key ← filled_string (property value "apiKey")
    api_path ← api_path_of (property value "apiPath")
    base_url ← as_string (property value "baseUrl")
    guard (is_secure_byok_base_url base_url)
    expires_at ← as_string (property value "expiresAt")
    model_api ← model_api_of (property value "modelApi")
    model ← filled_string (property value "model")
    open_claw_provider ← provider_of (property value "openClawProvider")
    some (record {
      api_key = api_key;
      api_path = api_path;
      base_url = base_url;
      expires_at = expires_at;
      model_api = model_api;
      model = model;
      open_claw_provider = open_claw_provider;
    })

  -- What is read, and the slot, which is deleted in every case.
  unfoldable pub consume_byok_capability_handoff : Slot → Option Capability × Slot
  consume_byok_capability_handoff slot = (capability_of slot, Js.undefined)

-- The copy `{ ...capability }` of an object has the same fields.
unfoldable pub stage_byok_capability_handoff : Js → Slot → Slot
stage_byok_capability_handoff capability slot = capability

unfoldable pub clear_byok_capability_handoff : Slot → Slot
clear_byok_capability_handoff slot = Js.undefined
