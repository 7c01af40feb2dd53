-- ===== src/Bridge/Tests.antt =====
-- Tests of the bridge, at one request.
use clawsembly_kernel.Prelude.{
  ◌≡◌, ◌↔◌, refl, true, false, some, List, [], ◌∷◌, arith, codes, all, list_beq, string_eq, nat_eq,
  codes_eq,
}
use clawsembly_kernel.Js.{Js, num, str, arr, obj, nil, end, field, property, field_of}
use clawsembly_kernel.JsText.{is_request_id, is_id_char}
use clawsembly_kernel.Byok.{chat_completions, openai_completions, clawsembly_byok, Capability}
use clawsembly_kernel.Bridge.{
  done, BridgeRequest, file_entry, DirectoryEntry, Host, Bridge, bit_xor, bit_or, difference,
  fixed_length_equal, is_id_value, required_string, is_valid_payload, id_of_name, parse_request,
  admit, process_all,
}
use clawsembly_kernel.Bridge.Compare.{fixed_length_equal_iff}
use clawsembly_kernel.Bridge.Outgoing.{AreAllowed, process_all-AreAllowed}
use clawsembly_kernel.Bridge.Safety.{
  IsBalanced, process_all-IsBalanced, IsPermitted, admit-IsPermitted,
}

abbrev capability : Capability
capability = record {
  api_key = "k";
  api_path = chat_completions;
  base_url = "https://host/v1";
  expires_at = "";
  model_api = openai_completions;
  model = "m";
  open_claw_provider = clawsembly_byok;
}

abbrev request_value : Js
request_value = obj (
    field "schemaVersion" (num 1) (
      field "method" (str "POST") (
        field "path" (str "/v1/chat/completions") (
          field "id" (str "a")
            (field "authorization" (str "Bearer k") (field "body" (str "{}") end))))))

abbrev host : Host
host = record {
  read_request = λ path. done request_value;
  parse_body = λ text. done (obj (field "model" (str "m") (field "messages" (arr nil) end)));
  encoded_length = λ text. 2;
  fetch = λ url key body.
      done (record { status = 200; body = 1 ∷ []; content_type = some "application/json" });
  null_error = "null";
  write_throws = λ path. false;
  remove_throws = λ path. false;
}

abbrev bridge_request : BridgeRequest
bridge_request = record { authorization = "Bearer k"; body = "{}"; id = "a" }

admitted : admit host capability (codes "a.json") ≡ done bridge_request
unfolding admit parse_request is_id_value required_string is_valid_payload is_request_id is_id_char
    property field_of id_of_name fixed_length_equal difference bit_xor bit_or all list_beq
admitted = refl

admit-IsPermitted_example : IsPermitted host capability (codes "a.json") bridge_request
admit-IsPermitted_example =
    admit-IsPermitted host capability (codes "a.json") bridge_request admitted

abbrev start : Bridge
start = record { failed = 1; forwarded = 2; requests_seen = 3; effects = [] }

abbrev entries : List DirectoryEntry
entries = record { name = codes "a.json"; type = file_entry } ∷ []

process_all-IsBalanced_example : IsBalanced (process_all host capability entries start)
process_all-IsBalanced_example = process_all-IsBalanced host capability entries start (omega arith)

fixed_length_equal_iff_example :
    (fixed_length_equal (codes "kj") (codes "kk") ≡ true) ↔ (codes "kj" ≡ codes "kk")
fixed_length_equal_iff_example =
    fixed_length_equal_iff (codes "kj") (codes "kk") (omega arith, (omega arith, tt))
      (omega arith, (omega arith, tt))

process_all-AreAllowed_example :
    AreAllowed host capability (process_all host capability entries start)
process_all-AreAllowed_example = process_all-AreAllowed host capability entries start tt
