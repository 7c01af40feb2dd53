-- ===== src/Broker/Forward/Sanitize.antt =====
-- worker/byok-broker.mjs: `sanitizeCodexResponses`.
use clawsembly_kernel.Prelude.{
  String, Bool, false, not, List, [], ◌∷◌, if◌then◌else◌, ◌==◌, string_eq, codes_eq, codes,
}
use clawsembly_kernel.Js.{Js, str, obj, Fields, end, field, property, put_field}
use clawsembly_kernel.AgentTurn.{trim}

-- `delete value[key]`
unfoldable pub delete_field : String → Fields → Fields
delete_field k end = end
delete_field k (field j v fs) =
    let rest = delete_field k fs in if j == k then rest else field j v rest

unfoldable pub delete_fields : List String → Fields → Fields
delete_fields [] fs = fs
delete_fields (k ∷ keys) fs = delete_fields keys (delete_field k fs)

abbrev pub refused_keys : List String
refused_keys =
    "max_output_tokens" ∷ "metadata" ∷ "prompt_cache_retention" ∷ "service_tier" ∷ "store"
    ∷ "temperature" ∷ "top_p" ∷ []

abbrev pub default_instructions : Js
default_instructions = str "You are a helpful assistant."

-- A text that is not white space.
unfoldable pub has_words : Js → Bool
has_words (str s) = not (trim (codes s) == [])
has_words _ = false

unfoldable pub with_instructions : Fields → Fields
with_instructions fs =
    if has_words (property (obj fs) "instructions")
    then fs
    else put_field "instructions" default_instructions fs

abbrev pub put_text : Fields → Fields → Fields
put_text end fs = delete_field "text" fs
put_text (field k v rest) fs = put_field "text" (obj (field k v rest)) fs

unfoldable pub without_format : Js → Fields → Fields
without_format (obj text) fs = put_text (delete_field "format" text) fs
without_format _ fs = fs

unfoldable pub sanitize_codex_responses : Js → Js
sanitize_codex_responses (obj fs) =
    let instructed = with_instructions (delete_fields refused_keys fs) in
    obj (without_format (property (obj instructed) "text") instructed)
sanitize_codex_responses v = v
