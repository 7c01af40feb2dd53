-- ===== src/Worker.antt =====
-- worker/index.mjs: the worker in front of the capability brokers. What reaches it, what it answers,
-- and the tokens that name a broker and hold its secret.
pub mod Capability
pub mod Laws
pub mod EndToEnd
mod Reached
pub mod Artifact
pub mod Cached
pub mod Etag
pub mod Manifest
pub mod Loaded
mod Tests
mod ArtifactTests
use clawsembly_kernel.Prelude.{
  ℕ, String, Bool, true, false, not, ◌&&◌, ◌||◌, Option, none, some, List, [], ◌∷◌, ◌++◌,
  if◌then◌else◌, ◌==◌, nat_eq, codes_eq, leb, length, all, codes,
}
use clawsembly_kernel.JsText.{Text, is_hex, is_id_char}
use clawsembly_kernel.Broker.{Bytes, Grant, Device, Reply, after_prefix}

-- A request from the page or the guest, with the origin of its URL.
pub record Incoming : Type 0 where
  pub method : String
  pub pathname : Text
  pub url_origin : Text
  pub origin : Option Text
  pub content_type : Option Text
  pub authorization : Option Text
  pub body : Bytes

-- What it is answered: by `byokError`, with a broker's response, with one in which the tokens name
-- the broker, or by an exception.
pub data Answer : Type 0 where
  byok_error : String → ℕ → Answer
  passed : Reply → Answer
  routed_grant : ℕ → Grant → (base_url : Text) → Answer
  routed_start : ℕ → Device → (poll_url : Text) → Answer
  thrown : Answer

-- An empty header is falsy.
unfoldable pub is_same_origin : Incoming → Bool
is_same_origin request = elim request.origin [
  | none ↦ true
  | some origin ↦ origin == [] || origin == request.url_origin
]

abbrev pub put_first : ℕ → Option (Text × Text) → Option (Text × Text)
put_first x none = none
put_first x (some (before, after)) = some (x ∷ before, after)

-- What stands before and after the first `c`.
unfoldable pub cut : ℕ → Text → Option (Text × Text)
cut c [] = none
cut c (x ∷ xs) = let rest = cut c xs in if x == c then some ([], xs) else put_first x rest

-- `/^[a-f0-9]{64}$/u`
unfoldable pub is_object_id : Text → Bool
is_object_id id = length id == 64 && all is_hex id

-- `/^[A-Za-z0-9_-]{32,128}$/u`
unfoldable pub is_secret : Text → Bool
is_secret secret = leb 32 (length secret) && (leb (length secret) 128 && all is_id_char secret)

abbrev pub check_parts : Option (Text × Text) → Option (Text × Text)
check_parts none = none
check_parts (some (id, secret)) =
    if is_object_id id && is_secret secret then some (id, secret) else none

abbrev pub bearer_value : Option Text → Text
bearer_value none = []
bearer_value (some value) = after_prefix (codes "Bearer ") value

-- `parseRoutedCapability`; an empty part passes neither expression.
unfoldable pub parse_routed_capability : Option Text → Option (Text × Text)
parse_routed_capability authorization = check_parts (cut b'.' (bearer_value authorization))

-- `${id}.${secret}`
abbrev pub routed : Text → Text → Text
routed id secret = id ++ b'.' ∷ secret
