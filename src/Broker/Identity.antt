-- ===== src/Broker/Identity.antt =====
-- worker/byok-broker.mjs: what is read of OpenAI's answers (`decodeJwtPayload`,
-- `resolveOpenAiIdentity`, tokens and their expiry).
use clawsembly_kernel.Prelude.{
  ℕ, zero, suc, ◌+◌, ◌-◌, ◌*◌, ◌/◌, Option, none, some, List, [], ◌∷◌, ◌++◌, map, if◌then◌else◌,
  ◌==◌, nat_eq, codes_eq, leb, length, codes, or_else,
}
use clawsembly_kernel.Js.{Js, undefined, str, property, is_record}
use clawsembly_kernel.JsText.{Text, split}
use clawsembly_kernel.AgentTurn.{trim}
use clawsembly_kernel.Broker.{Env}

-- `Math.max`
unfoldable pub max : ℕ → ℕ → ℕ
max a b = if leb a b then b else a

-- `replaceAll("-", "+").replaceAll("_", "/")`
unfoldable pub to_base64_char : ℕ → ℕ
to_base64_char c = if c == b'-' then b'+' else if c == b'_' then b'/' else c

unfoldable pub repeat : ℕ → ℕ → Text
repeat zero c = []
repeat (suc n) c = c ∷ repeat n c

-- `padEnd(Math.ceil(length / 4) * 4, "=")`
unfoldable pub pad_base64 : Text → Text
pad_base64 value = value ++ repeat ((length value + 3) / 4 * 4 - length value) b'='

abbrev pub record_or_undefined : Option Js → Js
record_or_undefined none = undefined
record_or_undefined (some v) = if is_record v then v else undefined

-- A text value without the white space around it, or "".
unfoldable pub trimmed : Js → Text
trimmed (str s) = trim (codes s)
trimmed _ = []

abbrev pub nonempty : Text → Option Text
nonempty value = if value == [] then none else some value

pub record OpenAiIdentity : Type 0 where
  pub account_id : Option Text
  pub expires_at : Option ℕ

module _ (env : Env) where
  abbrev pub decode_parts : List Text → Js
  decode_parts (first ∷ payload ∷ last ∷ []) =
      record_or_undefined (env.decode_segment (pad_base64 (map to_base64_char payload)))
  decode_parts parts = undefined

  -- `undefined` where the token is no JSON Web Token with an object in it.
  unfoldable pub decode_jwt_payload : Text → Js
  decode_jwt_payload token = decode_parts (split b'.' token)

  unfoldable pub resolve_open_ai_identity : Text → OpenAiIdentity
  resolve_open_ai_identity access_token =
      let payload = decode_jwt_payload access_token in
      record {
        account_id = nonempty (
            trimmed
              (property (property payload "https://api.openai.com/auth") "chatgpt_account_id"));
        expires_at = env.epoch_ms (property payload "exp");
      }

  -- `positiveMillisecondsFromSeconds`
  unfoldable pub positive_milliseconds : Js → Option ℕ
  positive_milliseconds v = elim (env.milliseconds v) [ none ↦ none | some ms ↦ some (max 1000 ms) ]

  -- The time at which a token that came at `now` expires, by its answer or by itself.
  unfoldable pub token_expiry : ℕ → Js → Option ℕ → ℕ
  token_expiry now expires_in by_token =
      now + or_else (positive_milliseconds expires_in) (max 1000 (or_else by_token now - now))
