-- ===== src/Worker/Tests.antt =====
-- Tests of the worker's model: an issued capability and its first use.
use clawsembly_kernel.Prelude.{
  ℕ, ◌≡◌, ◌↔◌, ◌⊎◌, refl, true, none, some, [], ◌∷◌, ◌++◌, arith, all, any, codes, list_beq, ◌==◌,
  if◌then◌else◌, nat_eq, codes_eq, string_eq,
}
use clawsembly_kernel.Js.{
  Js, null, str, arr, obj, nil, cons, end, field, property, field_of, is_true,
}
use clawsembly_kernel.JsText.{Text, is_hex, is_id_char, is_digit, is_lower, is_upper}
use clawsembly_kernel.Bridge.Compare.{AreUnits}
use clawsembly_kernel.Broker.{
  Env, original, go, is_post, read_bounded_json, has_prefix_lower, to_lower, validate_completion,
  is_nonempty_array, openai_provider, is_api_key, is_control, is_model, is_model_char,
  is_alphanumeric, valid_api_key, valid_model, provider_of,
}
use clawsembly_kernel.Broker.Issue.{IssueInput, issue_input}
use clawsembly_kernel.Broker.Poll.{PollTimes}
use clawsembly_kernel.Broker.Forward.{completion_kind}
use clawsembly_kernel.Broker.World.Admission.{IsReadable}
use clawsembly_kernel.Worker.{
  Incoming, is_same_origin, is_object_id, is_secret, parse_routed_capability, routed,
}
use clawsembly_kernel.Worker.Capability.{
  Objects, Platform, model, creating_request, model_request, issue_byok_capability,
  route_byok_capability,
}
use clawsembly_kernel.Worker.Laws.{parse_routed_capability_iff}
use clawsembly_kernel.Worker.EndToEnd.{
  IsRefused, IsRouted, route_byok_capability-IsRefused, route_byok_capability-issue_byok_capability,
}

abbrev object_id : Text
object_id = codes "0123456789abcdef0123456789abcdef0123456789abcdef0123456789abcdef"

abbrev guest : Text
guest = codes "abcdefghijklmnopqrstuvwxyz-_0123"

is_id : is_object_id object_id ≡ true
unfolding is_object_id is_hex all
is_id = refl

is_guest : is_secret guest ≡ true
unfolding is_secret is_id_char all
is_guest = refl

parse_routed_capability_iff_example :
    (parse_routed_capability (some (codes "Bearer " ++ routed object_id guest))
      ≡ some (object_id, guest))
    ↔ ((some (codes "Bearer " ++ routed object_id guest)
          ≡ some (codes "Bearer " ++ routed object_id guest))
        × (is_object_id object_id ≡ true)
        × (is_secret guest ≡ true))
parse_routed_capability_iff_example =
    parse_routed_capability_iff (some (codes "Bearer " ++ routed object_id guest)) object_id guest

abbrev completion : Js
completion = obj (field "model" (str "m") (field "messages" (arr (cons null nil)) end))

abbrev issuing_body : Js
issuing_body = obj (
    field "provider" (str "openai") (field "apiKey" (str "sk-12345") (field "model" (str "m") end)))

abbrev broker : Env
broker = record {
  oauth = λ r. none;
  provider_fetch = λ r. none;
  digest = λ t. codes "d";
  parse_json = λ b. if b == codes "{}" then some completion else some issuing_body;
  decode_segment = λ t. none;
  milliseconds = λ v. none;
  epoch_ms = λ v. none;
}

abbrev at : ℕ → PollTimes
at t = record { now = t; answered = t; exchanged = t; settled = t }

abbrev platform : Platform
platform = record {
  namespace = true;
  new_id = object_id;
  id_from_string = λ t. some t;
  broker = broker;
  secrets = record { guest = guest; admin = codes "admin" };
  times = at 3;
}

abbrev unused : Objects
unused id = record { session = none; alarm = none }

abbrev issuing : Incoming
issuing = record {
  method = "POST";
  pathname = codes "/api/byok/capabilities";
  url_origin = codes "https://k";
  origin = some (codes "https://k");
  content_type = some (codes "application/json");
  authorization = none;
  body = codes "i";
}

abbrev usage : Incoming
usage = record issuing {
  authorization = some (codes "Bearer " ++ routed object_id guest);
  body = codes "{}";
}

same_origin : is_same_origin issuing ≡ true
unfolding is_same_origin list_beq
same_origin = refl

abbrev input : IssueInput
input = record { provider = openai_provider; api_key = codes "sk-12345"; model = codes "m" }

issued_input : issue_input broker (creating_request issuing) (unused object_id) ≡ go input
unfolding issue_input is_post read_bounded_json has_prefix_lower to_lower list_beq property field_of
    valid_api_key is_api_key is_control valid_model is_model is_model_char is_alphanumeric
    provider_of any all is_upper is_lower is_digit
issued_input = refl

units : AreUnits (codes "d")
units = (omega arith, tt)

readable : IsReadable broker (model_request guest usage) completion
unfolding has_prefix_lower to_lower list_beq
readable = record { is_json = refl; announced = refl; short = omega arith; parses = refl }

valid : validate_completion completion (codes "m") ≡ true
unfolding validate_completion is_nonempty_array property field_of list_beq
valid = refl

route_byok_capability-issue_byok_capability_example :
    (route_byok_capability
      (record platform { times = at 9 })
      (model completion_kind)
      usage
      (issue_byok_capability platform issuing unused).objects).sent
    ≡ record {
      url = "https://api.openai.com/v1/chat/completions";
      credential = some (codes "sk-12345");
      account_id = none;
      accepts_stream = is_true (property completion "stream");
      body = original (codes "{}");
    }
      ∷ []
route_byok_capability-issue_byok_capability_example =
    route_byok_capability-issue_byok_capability platform (at 9) issuing usage unused input
      completion refl same_origin refl issued_input is_id is_guest refl units refl refl readable
      valid (omega arith)

route_byok_capability-IsRefused_example :
    IsRefused unused (route_byok_capability platform (model completion_kind) usage unused)
    ⊎ IsRouted platform
        (model completion_kind)
        usage
        unused
        (route_byok_capability platform (model completion_kind) usage unused)
route_byok_capability-IsRefused_example =
    route_byok_capability-IsRefused platform (model completion_kind) usage unused
