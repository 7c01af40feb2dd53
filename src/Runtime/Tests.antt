-- ===== src/Runtime/Tests.antt =====
-- Tests of the runtime frame.
use clawsembly_kernel.Prelude.{
  ◌≡◌, ◌≤◌, refl, String, true, false, Option, none, some, not, ◌&&◌, List, [], ◌∷◌, is_some,
  string_eq,
}
use clawsembly_kernel.Js.{
  Js, str, obj, arr_with, nil, Fields, end, field, field_of, property, is_array,
}
use clawsembly_kernel.Byok.{
  Url, capability_of, filled_string, api_path_of, model_api_of, provider_of,
  is_secure_byok_base_url, is_secure_url, is_loopback,
}
use clawsembly_kernel.Runtime.{Runtime, is_filled, is_start_capability}
use clawsembly_kernel.Runtime.Start.{is_start_capability_lem}
use clawsembly_kernel.Runtime.Once.{
  Event, port_message, window_message, handle_all, probes, starts_once,
}

abbrev no_url : String → Option Url
no_url value = none

abbrev fresh_runtime : Runtime
fresh_runtime = record {
  started = false;
  shared_runtime_port = true;
  shared_runtime_owner = false;
  shared_owner_started = false;
  shared_owner_message_listener = false;
  has_page = true;
  status_state = "";
  status_text = "";
  result_text = "";
  slot = Js.undefined;
  effects = [];
}

abbrev typed : String → Js
typed type = obj (field "type" (str type) end)

-- The page starts the runtime, the worker makes the frame the owner and starts it twice.
abbrev events : List Event
events =
    window_message true (typed "clawsembly:onboarding-runtime-start")
    ∷ port_message (typed "clawsembly:shared-runtime-owner")
    ∷ port_message (typed "clawsembly:shared-runtime-owner-start")
    ∷ port_message (typed "clawsembly:shared-runtime-owner-start")
    ∷ []

starts_once_example : probes (handle_all no_url events fresh_runtime).effects ≤ 1
starts_once_example = starts_once no_url events fresh_runtime refl refl refl

abbrev local_url : String → Option Url
local_url value = some (record { protocol = "http:"; hostname = "localhost" })

abbrev capability_fields : Fields
capability_fields = field "providerId" (str "clawsembly-byok") (
    field "apiKey" (str "k") (
      field "apiPath" (str "/v1/responses") (
        field "baseUrl" (str "http://localhost/v1") (
          field "expiresAt" (str "2026") (
            field "modelApi" (str "openai-completions")
              (field "model" (str "m") (field "openClawProvider" (str "openai") end)))))))

-- An array with the properties of a capability.
abbrev named_array : Js
named_array = arr_with nil capability_fields

array_starts : is_start_capability local_url named_array ≡ true
unfolding is_start_capability is_filled property field_of is_secure_byok_base_url is_secure_url
    is_loopback
array_starts = refl

object_taken : is_some (capability_of local_url (obj capability_fields)) ≡ true
unfolding capability_of filled_string api_path_of model_api_of provider_of property field_of
    is_secure_byok_base_url is_secure_url is_loopback
object_taken = refl

is_start_capability_lem_example :
    is_some (capability_of local_url named_array)
    ≡ (not (is_array named_array) && is_start_capability local_url named_array)
is_start_capability_lem_example = is_start_capability_lem local_url named_array
