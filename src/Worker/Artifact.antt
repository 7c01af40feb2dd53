-- ===== src/Worker/Artifact.antt =====
-- worker/index.mjs: the runtime's artifacts (`validateRuntimeManifest`, `loadRuntimeManifest`,
-- `resolveRuntimeArtifact`, `serveRuntimeArtifact`).
use clawsembly_kernel.Prelude.{
  ℕ, String, Bool, true, false, not, ◌&&◌, ◌||◌, Option, none, some, List, [], ◌∷◌, ◌++◌, map,
  if◌then◌else◌, ◌==◌, nat_eq, codes_eq, string_eq, length, all, any, codes, is_some,
}
use clawsembly_kernel.JsText.{Text, is_hex, split}
use clawsembly_kernel.AgentTurn.{trim}
use clawsembly_kernel.Broker.{Bytes}

-- What the worker reads of an artifact that passed the validation.
pub record Artifact : Type 0 where
  pub public_path : Text
  pub r2_key : Text
  pub content_type : Text
  pub bytes : ℕ
  pub sha256 : Text

-- An object of the bucket; `range` is `none` where one of its numbers is no safe integer. `metadata`
-- are the headers that `writeHttpMetadata` sets.
pub record R2Object : Type 0 where
  pub size : ℕ
  pub range : Option (ℕ × ℕ)
  pub metadata : List (Text × Text)
  pub body : Option Bytes

-- `Content-Range` has an offset, a length and a total, printed as the source does; `digest` is a
-- hexadecimal digest, printed in base64.
pub data Value : Type 0 where
  text : Text → Value
  number : ℕ → Value
  range : (offset length total : ℕ) → Value
  digest : Text → Value

abbrev pub Headers : Type 0
Headers = List (Text × Value)

pub record Response : Type 0 where
  pub status : ℕ
  pub headers : Headers
  pub body : Option Bytes

-- A response, or an exception.
pub data Served : Type 0 where
  served : Response → Served
  failed : Served

pub record ArtifactRequest : Type 0 where
  pub method : String
  pub if_none_match : Option Text
  pub has_range : Bool

-- The bucket, by key and by whether the request's range is passed on; and whether there is a cache.
pub record Bucket : Type 0 where
  pub head : Text → Option R2Object
  pub get : Text → Bool → Option R2Object
  pub has_cache : Bool

-- The cache, by the public path.
abbrev pub Cache : Type 0
Cache = Text → Option Response

unfoldable pub put_response : Text → Response → Cache → Cache
put_response path response cache p = if p == path then some response else cache p

-- `headers.set`
unfoldable pub set_header : Text → Value → Headers → Headers
set_header name value [] = (name, value) ∷ []
set_header name value ((n, v) ∷ headers) =
    let rest = set_header name value headers in
    if n == name then (name, value) ∷ headers else (n, v) ∷ rest

unfoldable pub get_header : Text → Headers → Option Value
get_header name [] = none
get_header name ((n, v) ∷ headers) = if n == name then some v else get_header name headers

unfoldable pub set_headers : List (Text × Text) → Headers → Headers
set_headers [] headers = headers
set_headers ((name, value) ∷ more) headers = set_headers more (set_header name (text value) headers)

-- `SECURITY_HEADERS`
abbrev pub security_headers : List (Text × Text)
security_headers =
    (codes "Cross-Origin-Embedder-Policy", codes "require-corp")
    ∷ (codes "Cross-Origin-Opener-Policy", codes "same-origin")
    ∷ (codes "Cross-Origin-Resource-Policy", codes "same-origin")
    ∷ (codes "Origin-Agent-Cluster", codes "?1")
    ∷ (codes "Permissions-Policy", codes "cross-origin-isolated=(self)")
    ∷ (codes "X-Content-Type-Options", codes "nosniff")
    ∷ []

unfoldable pub apply_security_headers : Headers → Headers
apply_security_headers headers = set_headers security_headers headers

abbrev pub immutable_cache_control : Text
immutable_cache_control =
    codes "public, max-age=31536000, s-maxage=31536000, immutable, no-transform"

-- `isHexSha256`, of a text.
unfoldable pub is_hex_sha256 : Text → Bool
is_hex_sha256 value = length value == 64 && all is_hex value

-- `quotedSha256Etag`
unfoldable pub quoted_sha256_etag : Artifact → Text
quoted_sha256_etag artifact = b'"' ∷ codes "sha256-" ++ artifact.sha256 ++ b'"' ∷ []

unfoldable pub runtime_headers : Artifact → (release : Text) → List (Text × Text) → Headers
runtime_headers artifact release metadata =
    set_header (codes "X-Clawsembly-SHA256") (text artifact.sha256) (
      set_header (codes "X-Clawsembly-Release") (text release) (
        set_header (codes "ETag") (text (quoted_sha256_etag artifact)) (
          set_header (codes "Content-Type") (text artifact.content_type) (
            set_header (codes "Content-Digest") (digest artifact.sha256) (
              set_header (codes "Cache-Control") (text immutable_cache_control) (
                set_header (codes "Accept-Ranges") (text (codes "bytes"))
                  (apply_security_headers (set_headers metadata []))))))))

abbrev pub matches_etag : Artifact → Text → Bool
matches_etag artifact entry = entry == codes "*" || entry == quoted_sha256_etag artifact

-- An empty header is falsy.
unfoldable pub if_none_match_satisfied : ArtifactRequest → Artifact → Bool
if_none_match_satisfied request artifact = elim request.if_none_match [
  | none ↦ false
  | some value ↦
      if value == [] then false else any (matches_etag artifact) (map trim (split b',' value))
]

abbrev pub not_found : Served
not_found =
    served (record { status = 404; headers = []; body = some (codes "Runtime artifact not found") })

abbrev pub not_allowed : Served
not_allowed = served (record {
  status = 405;
  headers = apply_security_headers ((codes "Allow", text (codes "GET, HEAD")) ∷ []);
  body = some (codes "Method Not Allowed");
})

module _ (release : Text) (artifact : Artifact) where
  -- `validateObject` throws where the sizes differ.
  abbrev pub head_response : Option R2Object → Served
  head_response none = not_found
  head_response (some object) =
      if object.size == artifact.bytes
      then served (record {
        status = 200;
        headers =
            set_header (codes "Content-Length") (number artifact.bytes)
              (runtime_headers artifact release object.metadata);
        body = none;
      })
      else failed

  abbrev pub whole_response : R2Object → Response
  whole_response object = record {
    status = 200;
    headers =
        set_header (codes "Content-Length") (number artifact.bytes)
          (runtime_headers artifact release object.metadata);
    body = object.body;
  }

  abbrev pub part_response : R2Object → ℕ → ℕ → Response
  part_response object offset count = record {
    status = 206;
    headers = set_header (codes "Content-Range") (range offset count artifact.bytes) (
        set_header (codes "Content-Length") (number count)
          (runtime_headers artifact release object.metadata));
    body = object.body;
  }

  abbrev pub in_cache : Bool → Response → Cache → Cache
  in_cache false response cache = cache
  in_cache true response cache = put_response artifact.public_path response cache

  -- The range of the answer counts where the request asked for one.
  abbrev pub asked_range : Bool → R2Object → Option (ℕ × ℕ)
  asked_range false object = none
  asked_range true object = object.range

  abbrev pub body_response : Bucket → R2Object → Cache → Option (ℕ × ℕ) → Served × Cache
  body_response bucket object cache (some (offset, count)) =
      (served (part_response object offset count), cache)
  body_response bucket object cache none =
      (served (whole_response object), in_cache bucket.has_cache (whole_response object) cache)

  abbrev pub object_response : Bucket → Bool → Cache → Option R2Object → Served × Cache
  object_response bucket has_range cache none = (not_found, cache)
  object_response bucket has_range cache (some object) =
      if not (is_some object.body)
      then (not_found, cache)
      else if not (object.size == artifact.bytes)
      then (failed, cache)
      else body_response bucket object cache (asked_range has_range object)

  abbrev pub cached_response : Bucket → ArtifactRequest → Cache → Option Response
  cached_response bucket request cache =
      if request.method == "GET" && (not request.has_range && bucket.has_cache)
      then cache artifact.public_path
      else none

  abbrev pub uncached_response : Bucket → ArtifactRequest → Cache → Option Response → Served × Cache
  uncached_response bucket request cache (some response) = (served response, cache)
  uncached_response bucket request cache none =
      if request.method == "HEAD"
      then (head_response (bucket.head artifact.r2_key), cache)
      else object_response bucket request.has_range cache
          (bucket.get artifact.r2_key request.has_range)

  unfoldable pub serve_runtime_artifact : Bucket → ArtifactRequest → Cache → Served × Cache
  serve_runtime_artifact bucket request cache =
      if not (request.method == "GET") && not (request.method == "HEAD")
      then (not_allowed, cache)
      else if if_none_match_satisfied request artifact
      then (
        served
            (record { status = 304; headers = runtime_headers artifact release []; body = none }),
        cache,
      )
      else uncached_response bucket request cache (cached_response bucket request cache)
