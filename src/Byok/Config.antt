-- ===== src/Byok/Config.antt =====
-- src/openclaw-capability-config.ts: the part of OpenClaw's configuration that a capability stands
-- for, and the test that a configuration has it.
use Prim.Native.String.{◌++◌}
use clawsembly_kernel.Prelude.{
  ◌≡◌, refl, String, Bool, true, false, ◌&&◌, Option, none, some, any, ==_refl, string_eq,
  if◌then◌else◌,
}
use clawsembly_kernel.Js.{
  Js, bool, num, str, arr, obj, nil, cons, end, field, field_of, property, is_record, is_text,
  items,
}
use clawsembly_kernel.Byok.{
  ModelApi, openai_completions, openai_chatgpt_responses, OpenClawProvider, model_api_text,
  provider_text, Capability,
}

pub record Summary : Type 0 where
  pub model : String
  pub model_api : ModelApi
  pub primary_model : String
  pub provider_id : OpenClawProvider

-- `{}` where the value is no record.
abbrev pub as_record : Js → Js
as_record v = if is_record v then v else obj end

abbrev pub is_chatgpt : ModelApi → Bool
is_chatgpt openai_chatgpt_responses = true
is_chatgpt openai_completions = false

unfoldable pub primary_model_of : Capability → String
primary_model_of c = provider_text c.open_claw_provider ++ ("/" ++ c.model)

unfoldable pub summary_of : Capability → Summary
summary_of c = record {
  model = c.model;
  model_api = c.model_api;
  primary_model = primary_model_of c;
  provider_id = c.open_claw_provider;
}

unfoldable pub provider_config : Capability → Js
provider_config c =
    let responses = is_chatgpt c.model_api in
    let cost =
      field "input" (num 0)
        (field "output" (num 0) (field "cacheRead" (num 0) (field "cacheWrite" (num 0) end))) in
    obj (
      field "api" (str (model_api_text c.model_api)) (
        field "apiKey" (str c.api_key) (
          field "baseUrl" (str "http://localhost:18794/v1") (
            field "models"
              (arr (
                cons
                  (obj (
                    field "id" (str c.model) (
                      field "name" (str (if responses then "OpenAI ChatGPT" else c.model)) (
                        field "reasoning" (bool responses) (
                          field "input" (arr (cons (str "text") (cons (str "image") nil))) (
                            field "cost" (obj cost) (
                              field "contextWindow" (num (if responses then 200000 else 128000))
                                (field "maxTokens" (num 16384) end))))))))
                  nil))
              end))))

-- The patch of `createOpenClawCapabilityPatch`; its summary is `summary_of`.
unfoldable pub patch_of : Capability → Js
patch_of c = obj (
    field "agents"
      (obj (
        field "defaults"
          (obj (field "model" (obj (field "primary" (str (primary_model_of c)) end)) end)) end))
      (field "models"
        (obj (
          field "providers"
            (obj (field (provider_text c.open_claw_provider) (provider_config c) end)) end))
        end))

unfoldable pub is_model : String → Js → Bool
is_model model candidate = is_text model (property (as_record candidate) "id")

unfoldable pub has_config : Js → Summary → String → Bool
has_config parsed summary key =
    let root = as_record parsed in
    let defaults = as_record (property (as_record (property root "agents")) "defaults") in
    let model = as_record (property defaults "model") in
    let providers = as_record (property (as_record (property root "models")) "providers") in
    let provider = as_record (property providers (provider_text summary.provider_id)) in
    is_text summary.primary_model (property model "primary")
    && (is_text (model_api_text summary.model_api) (property provider "api")
        && (is_text key (property provider "apiKey")
            && (is_text "http://localhost:18794/v1" (property provider "baseUrl")
                && any (is_model summary.model) (items (property provider "models")))))

unfoldable pub has_parsed_config : Option Js → Summary → String → Bool
has_parsed_config none summary key = false
has_parsed_config (some parsed) summary key = has_config parsed summary key

-- `JSON.parse`, which throws on what is no JSON.
unfoldable pub has_open_claw_capability_config :
    (parse : String → Option Js) → String → Summary → String → Bool
has_open_claw_capability_config parse raw summary key = has_parsed_config (parse raw) summary key

provider_found :
    (p : OpenClawProvider) (v : Js)
    → property (obj (field (provider_text p) v end)) (provider_text p) ≡ v
unfolding property field_of
provider_found p v = rw (==_refl (provider_text p)) refl

-- A configuration that is the patch of a capability has that capability: a text that parses to the
-- patch passes the test for the summary of the capability and its key.
pub has_open_claw_capability_config-patch :
    (parse : String → Option Js) (raw : String) (c : Capability)
    → parse raw ≡ some (patch_of c)
    → has_open_claw_capability_config parse raw (summary_of c) c.api_key ≡ true
unfolding has_open_claw_capability_config has_parsed_config has_config patch_of summary_of
    provider_config property field_of is_model any
has_open_claw_capability_config-patch parse raw c e = rw e (
    simp (
      ==_refl (provider_text c.open_claw_provider),
      ==_refl (primary_model_of c),
      ==_refl (model_api_text c.model_api),
      ==_refl c.api_key,
      ==_refl c.model,
    ))
