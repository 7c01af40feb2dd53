-- ===== src/Byok/Tests.antt =====
-- Tests of the capability's handoff.
use clawsembly_kernel.Prelude.{◌≡◌, refl, true, String, Option, none, some, string_eq}
use clawsembly_kernel.Js.{num}
use clawsembly_kernel.Byok.{
  chat_completions, openai_completions, clawsembly_byok, Capability, js_of, Url, is_secure_url,
  is_loopback, is_secure_byok_base_url, consume_byok_capability_handoff,
  stage_byok_capability_handoff,
}
use clawsembly_kernel.Byok.Config.{
  summary_of, patch_of, has_open_claw_capability_config, has_open_claw_capability_config-patch,
}
use clawsembly_kernel.Byok.Handoff.{IsUsable, consume-stage}

abbrev local_url : String → Option Url
local_url value = some (record { protocol = "http:"; hostname = "localhost" })

abbrev capability : Capability
capability = record {
  api_key = "key";
  api_path = chat_completions;
  base_url = "http://localhost/v1";
  expires_at = "2026";
  model_api = openai_completions;
  model = "m";
  open_claw_provider = clawsembly_byok;
}

capability-IsUsable : IsUsable local_url capability
unfolding is_secure_byok_base_url is_secure_url is_loopback
capability-IsUsable = record { keyed = λ e. cc; modelled = λ e. cc; secure = refl }

consume-stage_example :
    let first =
      consume_byok_capability_handoff local_url
        (stage_byok_capability_handoff (js_of capability) (num 3)) in
    (first.0 ≡ some capability) × ((consume_byok_capability_handoff local_url first.1).0 ≡ none)
consume-stage_example = consume-stage local_url capability (num 3) capability-IsUsable

has_open_claw_capability_config-patch_example :
    has_open_claw_capability_config
      (λ raw. some (patch_of capability))
      "raw"
      (summary_of capability)
      "key"
    ≡ true
has_open_claw_capability_config-patch_example =
    has_open_claw_capability_config-patch (λ raw. some (patch_of capability)) "raw" capability refl
