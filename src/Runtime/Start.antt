-- ===== src/Runtime/Start.antt =====
-- src/byok-runtime.ts: the messages that start the runtime.
use clawsembly_kernel.Prelude.{
  ◌≡◌, refl, ◌∙◌, String, Bool, true, false, not, ◌&&◌, ◌||◌, Option, arith, is_some, string_eq,
}
use clawsembly_kernel.Js.{
  Js, undefined, null, bool, num, other_num, str, arr_with, obj, property, is_record, is_array,
  is_text, as_string,
}
use clawsembly_kernel.Byok.{
  Url, ApiPath, chat_completions, responses, ModelApi, openai_completions, openai_chatgpt_responses,
  OpenClawProvider, clawsembly_byok, openai, Capability, filled_string, api_path_of, model_api_of,
  provider_of, is_secure_byok_base_url, ◌>>=◌, ◌>>◌, guard, capability_of,
}
use clawsembly_kernel.Runtime.{is_filled, is_secure_text, is_string, is_start_capability}

module _ (r : Bool) where
  guard_step :
      (b : Bool) (m : Option Capability) → is_some m ≡ r → is_some (guard b >> m) ≡ (b && r)
  guard_step true m e = e
  guard_step false m e = refl

  filled_step :
      (v : Js) (k : String → Option Capability)
      → ((s : String) → is_some (k s) ≡ r)
      → is_some (filled_string v >>= k) ≡ (is_filled v && r)
  unfolding filled_string is_filled
  filled_step (str s) k e = ground (arith, e s)
  filled_step undefined k e = refl
  filled_step null k e = refl
  filled_step (bool b) k e = refl
  filled_step (num n) k e = refl
  filled_step (other_num n) k e = refl
  filled_step (arr_with vs fs) k e = refl
  filled_step (obj fs) k e = refl

  string_step :
      (v : Js) (k : String → Option Capability)
      → ((s : String) → is_some (k s) ≡ r)
      → is_some (as_string v >>= k) ≡ (is_string v && r)
  string_step (str s) k e = e s
  string_step undefined k e = refl
  string_step null k e = refl
  string_step (bool b) k e = refl
  string_step (num n) k e = refl
  string_step (other_num n) k e = refl
  string_step (arr_with vs fs) k e = refl
  string_step (obj fs) k e = refl

  secure_step :
      (secure : String → Bool) (v : Js) (k : String → Option Capability)
      → ((s : String) → is_some (k s) ≡ r)
      → is_some (as_string v >>= λ s. guard (secure s) >> k s) ≡ (is_secure_text secure v && r)
  secure_step secure (str s) k e = guard_step (secure s) (k s) (e s)
  secure_step secure undefined k e = refl
  secure_step secure null k e = refl
  secure_step secure (bool b) k e = refl
  secure_step secure (num n) k e = refl
  secure_step secure (other_num n) k e = refl
  secure_step secure (arr_with vs fs) k e = refl
  secure_step secure (obj fs) k e = refl

  path_step :
      (v : Js) (k : ApiPath → Option Capability)
      → ((c : ApiPath) → is_some (k c) ≡ r)
      → is_some (api_path_of v >>= k)
        ≡ ((is_text "/v1/chat/completions" v || is_text "/v1/responses" v) && r)
  unfolding api_path_of
  path_step v k e = ground (arith, e chat_completions, e responses)

  api_step :
      (v : Js) (k : ModelApi → Option Capability)
      → ((c : ModelApi) → is_some (k c) ≡ r)
      → is_some (model_api_of v >>= k)
        ≡ ((is_text "openai-completions" v || is_text "openai-chatgpt-responses" v) && r)
  unfolding model_api_of
  api_step v k e = ground (arith, e openai_completions, e openai_chatgpt_responses)

provider_step :
    (v : Js) (k : OpenClawProvider → Option Capability)
    → ((c : OpenClawProvider) → is_some (k c) ≡ true)
    → is_some (provider_of v >>= k) ≡ (is_text "clawsembly-byok" v || is_text "openai" v)
unfolding provider_of
provider_step v k e = ground (arith, e clawsembly_byok, e openai)

-- Only an object or an array has a `providerId`.
record_step :
    (v : Js) (r : Bool)
    → (is_record v && (is_text "clawsembly-byok" (property v "providerId") && r))
      ≡ (not (is_array v) && (is_text "clawsembly-byok" (property v "providerId") && r))
unfolding property
record_step (obj fs) r = refl
record_step undefined r = refl
record_step null r = refl
record_step (bool b) r = refl
record_step (num n) r = refl
record_step (other_num n) r = refl
record_step (str s) r = refl
record_step (arr_with vs fs) r = refl

-- The handoff takes exactly the capabilities that the validator of the start message takes and that
-- are no arrays; an array with the properties of a capability passes only the latter.
pub is_start_capability_lem :
    (parse_url : String → Option Url) (v : Js)
    → is_some (capability_of parse_url v) ≡ (not (is_array v) && is_start_capability parse_url v)
unfolding is_start_capability capability_of
is_start_capability_lem parse_url v =
    let secure = is_secure_byok_base_url parse_url in
    let r6 =
      is_text "clawsembly-byok" (property v "openClawProvider")
      || is_text "openai" (property v "openClawProvider") in
    let r5 = is_filled (property v "model") && r6 in
    let r4 =
      (is_text "openai-completions" (property v "modelApi")
        || is_text "openai-chatgpt-responses" (property v "modelApi"))
      && r5 in
    let r3 = is_string (property v "expiresAt") && r4 in
    let r2 = is_secure_text secure (property v "baseUrl") && r3 in
    let r1 =
      (is_text "/v1/chat/completions" (property v "apiPath")
        || is_text "/v1/responses" (property v "apiPath"))
      && r2 in
    let r0 = is_filled (property v "apiKey") && r1 in
    let provider = is_text "clawsembly-byok" (property v "providerId") in
    guard_step (provider && r0) (is_record v) _ (
      guard_step r0 provider _ (
        filled_step r1 (property v "apiKey") _ λ key. path_step r2 (property v "apiPath") _ λ path.
          secure_step r3 secure (property v "baseUrl") _ λ url.
            string_step r4 (property v "expiresAt") _ λ date.
              api_step r5 (property v "modelApi") _ λ api.
                filled_step r6 (property v "model") _
                  λ model. provider_step (property v "openClawProvider") _ λ given. refl))
    ∙ record_step v r0
