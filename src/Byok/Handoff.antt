-- ===== src/Byok/Handoff.antt =====
-- src/byok-capability-handoff.ts: staging a capability and consuming it.
use clawsembly_kernel.Prelude.{◌≡◌, ◌≢◌, refl, String, true, Option, none, some, string_eq, ==_ne}
use clawsembly_kernel.Js.{str, property, field_of}
use clawsembly_kernel.Byok.{
  ApiPath, chat_completions, responses, ModelApi, openai_completions, openai_chatgpt_responses,
  OpenClawProvider, clawsembly_byok, openai, api_path_text, model_api_text, provider_text,
  Capability, js_of, Url, filled_string, api_path_of, model_api_of, provider_of,
  is_secure_byok_base_url, capability_of, consume_byok_capability_handoff,
  stage_byok_capability_handoff, Slot,
}

-- What the source asks of a capability beyond its type.
pub record IsUsable (parse_url : String → Option Url) (c : Capability) : Type 0 where
  pub keyed : c.api_key ≢ ""
  pub modelled : c.model ≢ ""
  pub secure : is_secure_byok_base_url parse_url c.base_url ≡ true

filled_string_lem : (s : String) → s ≢ "" → filled_string (str s) ≡ some s
unfolding filled_string
filled_string_lem s n = rw (==_ne s "" n) refl

api_path_of_lem : (p : ApiPath) → api_path_of (str (api_path_text p)) ≡ some p
unfolding api_path_of
api_path_of_lem chat_completions = refl
api_path_of_lem responses = refl

model_api_of_lem : (p : ModelApi) → model_api_of (str (model_api_text p)) ≡ some p
unfolding model_api_of
model_api_of_lem openai_completions = refl
model_api_of_lem openai_chatgpt_responses = refl

provider_of_lem : (p : OpenClawProvider) → provider_of (str (provider_text p)) ≡ some p
unfolding provider_of
provider_of_lem clawsembly_byok = refl
provider_of_lem openai = refl

-- A staged capability with a key, a model and a secure base URL is handed over exactly once:
-- whatever the slot held before, consuming gives that capability and empties the slot, and
-- consuming again gives none.
pub consume-stage :
    (parse_url : String → Option Url) (c : Capability) (slot : Slot)
    → IsUsable parse_url c
    → let first =
        consume_byok_capability_handoff parse_url (stage_byok_capability_handoff (js_of c) slot) in
      (first.0 ≡ some c) × ((consume_byok_capability_handoff parse_url first.1).0 ≡ none)
unfolding consume_byok_capability_handoff stage_byok_capability_handoff capability_of property
    field_of
consume-stage parse_url c slot u = (
  simp (
    filled_string_lem c.api_key u.keyed,
    api_path_of_lem c.api_path,
    u.secure,
    model_api_of_lem c.model_api,
    filled_string_lem c.model u.modelled,
    provider_of_lem c.open_claw_provider,
  ),
  refl,
)
