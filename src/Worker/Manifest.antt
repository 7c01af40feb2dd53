-- ===== src/Worker/Manifest.antt =====
-- worker/index.mjs: the runtime manifest (`validateRuntimeManifest`, `loadRuntimeManifest`,
-- `resolveRuntimeArtifact`) and the choice of a handler (`handleRequest`).
use clawsembly_kernel.Prelude.{
  ℕ, Bool, true, false, not, ◌&&◌, ◌||◌, Option, none, some, List, [], ◌∷◌, if◌then◌else◌, ◌==◌,
  nat_eq, codes_eq, string_eq, leb, ltb, length, all, codes,
}
use clawsembly_kernel.Js.{
  Js, undefined, null, num, str, obj, arr_with, Fields, end, field, property, is_num,
}
use clawsembly_kernel.JsText.{Text, is_hex}
use clawsembly_kernel.Broker.Forward.{completion_kind, responses_kind}
use clawsembly_kernel.Worker.Capability.{Routed, model, revocation, poll}
use clawsembly_kernel.Worker.Artifact.{is_hex_sha256}

-- `value && typeof value === "object"`
abbrev pub is_object : Js → Bool
is_object (obj fs) = true
is_object (arr_with vs fs) = true
is_object _ = false

abbrev pub is_string : Js → Bool
is_string (str s) = true
is_string _ = false

abbrev pub text_of : Js → Text
text_of (str s) = codes s
text_of _ = []

unfoldable pub is_prefix : Text → Text → Bool
is_prefix [] value = true
is_prefix (p ∷ prefix) [] = false
is_prefix (p ∷ prefix) (v ∷ value) = p == v && is_prefix prefix value

-- `value.includes(part)`
unfoldable pub includes_text : Text → Text → Bool
includes_text part [] = is_prefix part []
includes_text part (v ∷ value) = is_prefix part (v ∷ value) || includes_text part value

-- `Number.isSafeInteger(value) && value > 0`, where `num` is a natural number.
abbrev pub is_size : Js → Bool
is_size (num n) = ltb 0 n && leb n 9007199254740991
is_size _ = false

-- `/^[a-f0-9]{40}$/u`
unfoldable pub is_commit : Text → Bool
is_commit value = length value == 40 && all is_hex value

unfoldable pub is_artifact : Js → Bool
is_artifact v =
    is_object v
    && (is_string (property v "aliasPath")
        && (is_string (property v "publicPath")
            && (is_string (property v "r2Key")
                && (is_string (property v "contentType")
                    && (is_size (property v "bytes")
                        && (is_string (property v "sha256")
                            && (is_hex_sha256 (text_of (property v "sha256"))
                                && includes_text (text_of (property v "sha256"))
                                    (text_of (property v "r2Key")))))))))

-- `validateRuntimeManifest`, which throws where this is false.
unfoldable pub validate_runtime_manifest : Js → Bool
validate_runtime_manifest v =
    is_object v
    && (is_num 1 (property v "schemaVersion")
        && (not (text_of (property v "release") == [])
            && (is_commit (text_of (property v "sourceCommit"))
                && (is_object (property v "artifacts")
                    && (is_artifact (property (property v "artifacts") "edgejs")
                        && is_artifact (property (property v "artifacts") "openclaw"))))))

-- `env.ASSETS.fetch` of the manifest: an exception, or a status and the body where it is JSON.
pub data Fetched : Type 0 where
  unreachable : Fetched
  answered : ℕ → Option Js → Fetched

abbrev pub checked_manifest : Js → Option Js
checked_manifest v = if validate_runtime_manifest v then some v else none

abbrev pub fetched_manifest : Fetched → Option Js
fetched_manifest unreachable = none
fetched_manifest (answered status none) = none
fetched_manifest (answered status (some v)) =
    if leb 200 status && leb status 299 then checked_manifest v else none

-- `manifestPromise` after a request, and the manifest or an exception: what failed is forgotten.
unfoldable pub load_runtime_manifest : Option Js → Fetched → Option Js × Option Js
load_runtime_manifest (some v) fetched = (some v, some v)
load_runtime_manifest none fetched = (fetched_manifest fetched, fetched_manifest fetched)

-- `Object.values`, where no key is a number.
abbrev pub values : Fields → List Js
values end = []
values (field k v fs) = v ∷ values fs

-- An artifact, none, or the exception of reading a property of `null`.
pub data Resolved : Type 0 where
  resolved : Js → Resolved
  unresolved broken : Resolved

abbrev pub is_nothing : Js → Bool
is_nothing undefined = true
is_nothing null = true
is_nothing _ = false

abbrev pub is_path : Text → Js → Bool
is_path pathname (str s) = pathname == codes s
is_path pathname _ = false

unfoldable pub resolve_artifact : List Js → Text → Resolved
resolve_artifact [] pathname = unresolved
resolve_artifact (v ∷ artifacts) pathname =
    let rest = resolve_artifact artifacts pathname in
    if is_nothing v
    then broken
    else if is_path pathname (property v "aliasPath") || is_path pathname (property v "publicPath")
    then resolved v
    else rest

abbrev pub fields_of : Js → Fields
fields_of (obj fs) = fs
fields_of _ = end

-- `resolveRuntimeArtifact`
unfoldable pub resolve_runtime_artifact : Js → Text → Resolved
resolve_runtime_artifact manifest pathname =
    resolve_artifact (values (fields_of (property manifest "artifacts"))) pathname

-- Where `handleRequest` sends a request.
pub data Handler : Type 0 where
  health issuing starting : Handler
  routing : Routed → Handler
  runtime : Handler

unfoldable pub handler_of : Text → Handler
handler_of pathname =
    if pathname == codes "/healthz"
    then health
    else if pathname == codes "/api/byok/capabilities"
    then issuing
    else if pathname == codes "/api/byok/v1/chat/completions"
    then routing (model completion_kind)
    else if pathname == codes "/api/byok/v1/responses"
    then routing (model responses_kind)
    else if pathname == codes "/api/byok/capabilities/revoke"
    then routing revocation
    else if pathname == codes "/api/oauth/openai/device/start"
    then starting
    else if pathname == codes "/api/oauth/openai/device/poll"
    then routing poll
    else runtime

-- What the requests are given one after the other, each with the answer to its fetch.
unfoldable pub manifests : Option Js → List Fetched → List (Option Js)
manifests cache [] = []
manifests cache (fetched ∷ more) =
    let result = load_runtime_manifest cache fetched in result.1 ∷ manifests result.0 more
