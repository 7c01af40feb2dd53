-- ===== src/Worker/Etag.antt =====
-- worker/index.mjs: the entity tag of an artifact, sent and asked for.
use clawsembly_kernel.Prelude.{
  ℕ, ◌≡◌, ◌≢◌, ◌⊎◌, inl, inr, refl, sym, ap, ◌∙◌, true, false, Bool-cases, Option, none, some, ◌==◌,
  ==_refl, nat_eq, codes_eq, string_eq, list_beq, codes, arith, List, [], ◌∷◌, ◌++◌, All,
  All-append, any, all_iff,
}
use mathlib.Core.List.{reverse, reverse-append, reverse-reverse}
use clawsembly_kernel.JsText.{Text, is_hex, split}
use clawsembly_kernel.AgentTurn.{trim, trim_start, is_space}
use clawsembly_kernel.Worker.Artifact.{
  Artifact, served, ArtifactRequest, Bucket, Cache, Value, text, Headers, set_header, get_header,
  quoted_sha256_etag, is_hex_sha256, runtime_headers, matches_etag, if_none_match_satisfied,
  serve_runtime_artifact,
}

get_header-set_header :
    (name : Text) (value : Value) (headers : Headers)
    → get_header name (set_header name value headers) ≡ some value
unfolding get_header set_header
get_header-set_header name value [] = let t = ==_refl name in rw t refl
get_header-set_header name value ((n, v) ∷ headers) = elim (Bool-cases (n == name)) [
  | inl e ↦ let t = ==_refl name in rw e (rw t refl)
  | inr e ↦ rw e (rw e (get_header-set_header name value headers))
]

get_header-other :
    (name other : Text) (value : Value) (headers : Headers)
    → (other == name) ≡ false
    → get_header name (set_header other value headers) ≡ get_header name headers
unfolding get_header set_header
get_header-other name other value [] h = rw h refl
get_header-other name other value ((n, v) ∷ headers) h = ground (
  arith,
  codes_eq.beq_iff n other,
  codes_eq.beq_iff n name,
  codes_eq.beq_iff other name,
  get_header-other name other value headers h,
)

etag-runtime_headers :
    (artifact : Artifact) (release : Text) (metadata : List (Text × Text))
    → get_header (codes "ETag") (runtime_headers artifact release metadata)
      ≡ some (text (quoted_sha256_etag artifact))
unfolding runtime_headers list_beq
etag-runtime_headers artifact release metadata =
    get_header-other (codes "ETag") (codes "X-Clawsembly-SHA256") _ _ refl
    ∙ get_header-other (codes "ETag") (codes "X-Clawsembly-Release") _ _ refl
    ∙ get_header-set_header (codes "ETag") _ _

split-whole : (c : ℕ) (t : Text) → All (λ x. x ≢ c) t → split c t ≡ t ∷ []
unfolding split
split-whole c [] h = refl
split-whole c (x ∷ t) (h, rest) =
    let e : (x == c) ≡ false = ground (arith, nat_eq.beq_iff x c) in
    rw e (rw (split-whole c t rest) refl)

trim-quoted : (t : Text) → trim (b'"' ∷ t ++ b'"' ∷ []) ≡ b'"' ∷ t ++ b'"' ∷ []
unfolding trim trim_start is_space
trim-quoted t =
    let turned : reverse (b'"' ∷ t ++ b'"' ∷ []) ≡ b'"' ∷ reverse (b'"' ∷ t) =
      reverse-append (b'"' ∷ t) (b'"' ∷ []) in
    let back : reverse (b'"' ∷ reverse (b'"' ∷ t)) ≡ b'"' ∷ t ++ b'"' ∷ [] =
      ap reverse (sym turned) ∙ reverse-reverse (b'"' ∷ t ++ b'"' ∷ []) in
    rw turned back

no_comma : (t : Text) → All (λ x. is_hex x ≡ true) t → All (λ x. x ≢ b',') t
unfolding is_hex
no_comma [] h = tt
no_comma (x ∷ t) (h, rest) =
    (λ same. let e : is_hex x ≡ false = rw same refl in cc, no_comma t rest)

etag-no_comma :
    (artifact : Artifact)
    → is_hex_sha256 artifact.sha256 ≡ true
    → All (λ x. x ≢ b',') (quoted_sha256_etag artifact)
unfolding is_hex_sha256 quoted_sha256_etag
etag-no_comma artifact h =
    let hex = (all_iff is_hex artifact.sha256).0 (ground (arith, h)) in
    All-append (λ x. x ≢ b',') (b'"' ∷ codes "sha256-") (artifact.sha256 ++ b'"' ∷ [])
      (
        omega arith,
        (
          omega arith,
          (
            omega arith,
            (omega arith, (omega arith, (omega arith, (omega arith, (omega arith, tt))))),
          ),
        ),
      )
      (All-append (λ x. x ≢ b',') artifact.sha256 (b'"' ∷ []) (no_comma artifact.sha256 hex)
        (omega arith, tt))

trim-etag : (artifact : Artifact) → trim (quoted_sha256_etag artifact) ≡ quoted_sha256_etag artifact
unfolding quoted_sha256_etag
trim-etag artifact = trim-quoted (codes "sha256-" ++ artifact.sha256)

etag-filled : (artifact : Artifact) → (quoted_sha256_etag artifact == []) ≡ false
unfolding quoted_sha256_etag list_beq
etag-filled artifact = refl

matches_etag-own :
    (artifact : Artifact) → matches_etag artifact (quoted_sha256_etag artifact) ≡ true
matches_etag-own artifact =
    let same : (quoted_sha256_etag artifact == quoted_sha256_etag artifact) ≡ true =
      ==_refl (quoted_sha256_etag artifact) in
    ground (arith, same)

if_none_match_satisfied-etag :
    (artifact : Artifact) (request : ArtifactRequest)
    → is_hex_sha256 artifact.sha256 ≡ true
    → request.if_none_match ≡ some (quoted_sha256_etag artifact)
    → if_none_match_satisfied request artifact ≡ true
unfolding if_none_match_satisfied any
if_none_match_satisfied-etag artifact request h e = rw e (
    rw (etag-filled artifact) (
      rw (split-whole b',' (quoted_sha256_etag artifact) (etag-no_comma artifact h))
        (rw (trim-etag artifact) (rw (matches_etag-own artifact) refl))))

tag-inj : {s t : Text} → ◌≡◌ {A = Option Value} (some (text s)) (some (text t)) → s ≡ t
tag-inj h = cc

-- The tag in the headers of an artifact, sent back as the condition of a GET or HEAD request, is
-- answered with status 304 and no body, whatever the bucket and the cache hold, if the artifact has
-- a hash of the form that the manifest's validation asks for.
pub serve_runtime_artifact-etag :
    (release : Text) (artifact : Artifact) (metadata : List (Text × Text)) (tag : Text)
    (bucket : Bucket) (request : ArtifactRequest) (cache : Cache)
    → is_hex_sha256 artifact.sha256 ≡ true
    → get_header (codes "ETag") (runtime_headers artifact release metadata) ≡ some (text tag)
    → (request.method ≡ "GET") ⊎ (request.method ≡ "HEAD")
    → request.if_none_match ≡ some tag
    → serve_runtime_artifact release artifact bucket request cache ≡ (
      served (record { status = 304; headers = runtime_headers artifact release []; body = none }),
      cache,
    )
unfolding serve_runtime_artifact
serve_runtime_artifact-etag release artifact metadata tag bucket request cache h sent method asked =
    let same : quoted_sha256_etag artifact ≡ tag =
      tag-inj (sym (etag-runtime_headers artifact release metadata) ∙ sent) in
    let satisfied = if_none_match_satisfied-etag artifact request h (asked ∙ ap some (sym same)) in
    elim method [
      | inl e ↦
          let get : (request.method == "GET") ≡ true =
            (string_eq.beq_iff request.method "GET").1 e in
          rw get (rw satisfied refl)
      | inr e ↦
          let get : (request.method == "GET") ≡ false = ap (λ m. m == "GET") e in
          let head : (request.method == "HEAD") ≡ true =
            (string_eq.beq_iff request.method "HEAD").1 e in
          rw get (rw head (rw satisfied refl))
    ]
