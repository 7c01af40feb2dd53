-- ===== src/Bridge.antt =====
-- src/byok-http-bridge.ts: the bridge that answers the guest's model requests, which are files of a
-- shared directory, by requests to the provider of the capability.
pub mod Compare
pub mod Safety
pub mod Outgoing
mod Tests
use clawsembly_kernel.Prelude.{
  ℕ, zero, suc, ◌+◌, ◌*◌, ◌-◌, ◌/◌, ◌%◌, String, Bool, true, false, not, ◌&&◌, ◌||◌, Option, none,
  some, List, [], ◌∷◌, ◌++◌, if◌then◌else◌, ◌==◌, nat_eq, string_eq, codes_eq, leb, length, take,
  drop, codes,
}
use clawsembly_kernel.Js.{Js, null, str, property, is_array, is_text, is_num, as_string}
use clawsembly_kernel.JsText.{Text, is_request_id}
use clawsembly_kernel.Byok.{ApiPath, chat_completions, responses, api_path_text, Capability}

abbrev pub Bytes : Type 0
Bytes = List ℕ

-- `2 * 1024 * 1024`
abbrev pub max_body_bytes : ℕ
max_body_bytes = 2097152

-- A call that gives a value or throws an error with a message.
pub data Attempt {ℓ} (A : Type ℓ) : Type ℓ where
  thrown : String → Attempt A
  done : A → Attempt A

-- `if (!test) throw new Error(message)`
abbrev pub guard : (test : Bool) (message : String) → Attempt (Unit {0})
guard false message = thrown message
guard true message = done tt

infixl 5 ◌>>=◌ ◌>>◌
abbrev pub ◌>>=◌ {ℓ κ} :
    {A : Type ℓ} {B : Type κ} (m : Attempt A) (next : A → Attempt B) → Attempt B
thrown message >>= next = thrown message
done value >>= next = next value

abbrev pub ◌>>◌ {ℓ} : {B : Type ℓ} (m : Attempt (Unit {0})) (next : Attempt B) → Attempt B
check >> next = check >>= λ _. next

-- `^` and `|` on numbers of `width` bits.
unfoldable pub bit_xor : ℕ → ℕ → ℕ → ℕ
bit_xor zero a b = 0
bit_xor (suc width) a b = (a + b) % 2 + 2 * bit_xor width (a / 2) (b / 2)

unfoldable pub bit_or : ℕ → ℕ → ℕ → ℕ
bit_or zero a b = 0
bit_or (suc width) a b = (a % 2 + b % 2 - (a % 2) * (b % 2)) + 2 * bit_or width (a / 2) (b / 2)

-- The loop of `fixedLengthEqual` over two texts of one length; a code unit has 16 bits.
unfoldable pub difference : Text → Text → ℕ → ℕ
difference (a ∷ left) (b ∷ right) acc = difference left right (bit_or 16 acc (bit_xor 16 a b))
difference _ _ acc = acc

unfoldable pub fixed_length_equal : Text → Text → Bool
fixed_length_equal left right =
    if length left == length right then difference left right 0 == 0 else false

pub record BridgeRequest : Type 0 where
  pub authorization : String
  pub body : String
  pub id : String

pub record Upstream : Type 0 where
  pub status : ℕ
  pub body : Bytes
  pub content_type : Option String

-- The body before `base64`: the JSON text of an error code, or what the provider sent.
pub data Body : Type 0 where
  error_json : String → Body
  payload : Bytes → Body

pub record BridgeResponse : Type 0 where
  pub body : Body
  pub content_type : Option String
  pub status : ℕ

pub data EntryType : Type 0 where
  file_entry dir_entry unknown_entry : EntryType

pub record DirectoryEntry : Type 0 where
  pub name : Text
  pub type : EntryType

-- The platform: reading a request and `JSON.parse` of its text, `JSON.parse` of a body, the length
-- of a text in UTF-8, `fetch` of a URL with the key and the body, the message of a `TypeError` on
-- `null`, and whether a write or a removal throws. URLs and headers are texts; `bearer` is "Bearer " before the key.
pub record Host : Type 0 where
  pub read_request : Text → Attempt Js
  pub parse_body : String → Attempt Js
  pub encoded_length : String → ℕ
  pub fetch : Text → Text → String → Attempt Upstream
  pub null_error : String
  pub write_throws : Text → Bool
  pub remove_throws : Text → Bool

pub data Effect : Type 0 where
  fetched : Text → Text → String → Effect
  wrote : Text → BridgeResponse → Effect
  removed : Text → Effect

pub record Bridge : Type 0 where
  pub failed : ℕ
  pub forwarded : ℕ
  pub requests_seen : ℕ
  pub effects : List Effect

abbrev pub bearer : Capability → Text
bearer capability = codes "Bearer " ++ codes capability.api_key

-- `${capability.baseUrl}${capability.apiPath.slice("/v1".length)}`
abbrev pub upstream_url : Capability → Text
upstream_url capability =
    codes capability.base_url ++ drop 3 (codes (api_path_text capability.api_path))

unfoldable pub is_id_value : Js → Bool
is_id_value (str s) = is_request_id (codes s)
is_id_value _ = false

unfoldable pub required_string : Js → Attempt String
required_string (str s) = done s
required_string _ = thrown "invalid_bridge_request"

unfoldable pub is_valid_payload : ApiPath → Js → Bool
is_valid_payload responses body = is_array (property body "input")
is_valid_payload chat_completions body = is_array (property body "messages")

unfoldable pub error_bridge_response : String → ℕ → BridgeResponse
error_bridge_response code status = record {
  body = error_json code;
  content_type = some "application/json";
  status = status;
}

-- `contentType ? { "content-type": contentType } : {}`: an empty text is falsy.
unfoldable pub truthy_content_type : Option String → Option String
truthy_content_type none = none
truthy_content_type (some t) = if t == "" then none else some t

unfoldable pub request_path : Text → Text
request_path name = codes "/requests/" ++ name

unfoldable pub response_path : Text → Text
response_path id = codes "/responses/" ++ (id ++ codes ".json")

-- `entry.name.slice(0, -".json".length)`
unfoldable pub id_of_name : Text → Text
id_of_name name = take (length name - 5) name

-- The three tests on a directory's entry.
unfoldable pub is_request_entry : DirectoryEntry → Bool
is_request_entry entry =
    (elim entry.type [ file_entry ↦ true | _ ↦ false ])
    && (drop (length entry.name - 5) entry.name == codes ".json"
        && is_request_id (id_of_name entry.name))

abbrev pub and_then : (Bridge → Bridge) → Bridge × Attempt (Unit {0}) → Bridge
and_then k (s, done _) = k s
and_then k (s, thrown _) = s

-- Reading a property of `null` throws.
abbrev pub readable : Host → Js → Attempt (Unit {0})
readable h null = thrown h.null_error
readable h _ = done tt

module _ (h : Host) (capability : Capability) where
  -- `parseRequest`, from the parsed text; `${value.path}` is that of the capability.
  unfoldable pub parse_request : Js → Attempt BridgeRequest
  parse_request value = do
    readable h value
    guard
        (is_num 1 (property value "schemaVersion")
          && (is_text "POST" (property value "method")
              && is_text (api_path_text capability.api_path) (property value "path")))
        "invalid_bridge_request"
    guard (is_id_value (property value "id")) "invalid_bridge_request"
    id ← required_string (property value "id")
    authorization ← required_string (property value "authorization")
    body ← required_string (property value "body")
    guard (leb (h.encoded_length body) max_body_bytes) "invalid_bridge_request"
    parsed ← h.parse_body body
    readable h parsed
    guard
        (is_text capability.model (property parsed "model")
          && is_valid_payload capability.api_path parsed)
        "request_outside_capability"
    done (record { authorization = authorization; body = body; id = id })

  -- The first `try` of `processRequest`.
  unfoldable pub admit : Text → Attempt BridgeRequest
  admit name = do
    value ← h.read_request (request_path name)
    request ← parse_request value
    guard (codes request.id == id_of_name name) "request_id_mismatch"
    guard (fixed_length_equal (codes request.authorization) (bearer capability)) "unauthorized"
    done request

  -- The second `try`, up to the response.
  unfoldable pub respond : BridgeRequest → Attempt BridgeResponse
  respond request = do
    upstream ← h.fetch (upstream_url capability) (bearer capability) request.body
    guard (leb (length upstream.body) max_body_bytes) "response_too_large"
    done (record {
      body = payload upstream.body;
      content_type = truthy_content_type upstream.content_type;
      status = upstream.status;
    })

  -- `writeResponse` and the removal of the request, each of which may throw.
  unfoldable pub finish : Text → BridgeResponse → Bridge → Bridge × Attempt (Unit {0})
  finish name response s =
      let path = response_path (id_of_name name) in
      let answered : Bridge = record s { effects = s.effects ++ wrote path response ∷ [] } in
      if h.write_throws path
      then (s, thrown "write")
      else if h.remove_throws (request_path name)
      then (answered, thrown "remove")
      else (
        record answered { effects = answered.effects ++ removed (request_path name) ∷ [] },
        done tt,
      )

  unfoldable pub refuse : Text → String → Bridge → Bridge × Attempt (Unit {0})
  refuse name code s =
      finish name (error_bridge_response code (if code == "unauthorized" then 401 else 400))
        (record s { failed = suc s.failed })

  unfoldable pub answer : Text → Attempt BridgeResponse → Bridge → Bridge × Attempt (Unit {0})
  answer name (done response) s = finish name response (record s { forwarded = suc s.forwarded })
  answer name (thrown message) s =
      finish name (error_bridge_response message 502) (record s { failed = suc s.failed })

  unfoldable pub forward : Text → BridgeRequest → Bridge → Bridge × Attempt (Unit {0})
  unfolding answer
  forward name request s = answer name (respond request) (record s {
    effects = s.effects ++ fetched (upstream_url capability) (bearer capability) request.body ∷ [];
  })

  unfoldable pub decide : Text → Attempt BridgeRequest → Bridge → Bridge × Attempt (Unit {0})
  decide name (done request) s = forward name request s
  decide name (thrown code) s = refuse name code s

  unfoldable pub process_request : DirectoryEntry → Bridge → Bridge × Attempt (Unit {0})
  unfolding decide
  process_request entry s =
      if is_request_entry entry
      then decide entry.name (admit entry.name) (record s { requests_seen = suc s.requests_seen })
      else (s, done tt)

  -- One round of the loop over the entries, which ends where an entry throws.
  unfoldable pub process_all : List DirectoryEntry → Bridge → Bridge
  process_all [] s = s
  process_all (entry ∷ entries) s = and_then (process_all entries) (process_request entry s)
