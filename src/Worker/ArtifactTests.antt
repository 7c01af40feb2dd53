-- ===== src/Worker/ArtifactTests.antt =====
-- Tests of the worker's model: an artifact of one hash, its tag, a part of it, and the manifest.
use clawsembly_kernel.Prelude.{
  ◌≡◌, refl, inl, inr, true, false, none, some, [], ◌∷◌, ◌++◌, All, arith, all, codes, list_beq,
  nat_eq, codes_eq, string_eq,
}
use clawsembly_kernel.Js.{Js, str, num, obj, end, field, property, field_of}
use clawsembly_kernel.JsText.{Text, is_hex}
use clawsembly_kernel.Worker.Artifact.{
  Artifact, R2Object, served, ArtifactRequest, Bucket, Cache, text, get_header, set_header,
  set_headers, apply_security_headers, quoted_sha256_etag, is_hex_sha256, runtime_headers,
  serve_runtime_artifact,
}
use clawsembly_kernel.Worker.Etag.{serve_runtime_artifact-etag}
use clawsembly_kernel.Worker.Manifest.{
  unreachable, answered, is_artifact, is_commit, is_prefix, includes_text,
  validate_runtime_manifest, manifests,
}
use clawsembly_kernel.Worker.Loaded.{IsUseless, manifests-map}

abbrev hash : Text
hash = codes "0123456789abcdef0123456789abcdef0123456789abcdef0123456789abcdef"

abbrev artifact : Artifact
artifact = record {
  public_path = codes "/r/edgejs";
  r2_key = codes "edgejs-" ++ hash;
  content_type = codes "application/wasm";
  bytes = 5;
  sha256 = hash;
}

-- An object of five bytes of which two are given, with no range stated.
abbrev part : R2Object
part = record { size = 5; range = none; metadata = []; body = some (codes "ab") }

abbrev bucket : Bucket
bucket = record { head = λ k. none; get = λ k r. some part; has_cache = true }

abbrev empty : Cache
empty path = none

abbrev conditional : ArtifactRequest
conditional = record {
  method = "GET";
  if_none_match = some (codes "\"sha256-" ++ hash ++ codes "\"");
  has_range = false;
}

is_hash : is_hex_sha256 hash ≡ true
unfolding is_hex_sha256 is_hex all
is_hash = refl

sent_tag :
    get_header (codes "ETag") (runtime_headers artifact (codes "v1") [])
    ≡ some (text (codes "\"sha256-" ++ hash ++ codes "\""))
unfolding get_header runtime_headers set_header set_headers apply_security_headers
    quoted_sha256_etag list_beq
sent_tag = refl

serve_runtime_artifact-etag_example :
    serve_runtime_artifact (codes "v1") artifact bucket conditional empty ≡ (
      served (record {
        status = 304;
        headers = runtime_headers artifact (codes "v1") [];
        body = none;
      }),
      empty,
    )
serve_runtime_artifact-etag_example =
    serve_runtime_artifact-etag (codes "v1") artifact [] (codes "\"sha256-" ++ hash ++ codes "\"")
      bucket conditional empty is_hash sent_tag (inl refl) refl

abbrev ranged : ArtifactRequest
ranged = record { method = "GET"; if_none_match = none; has_range = true }

abbrev plain : ArtifactRequest
plain = record { method = "GET"; if_none_match = none; has_range = false }

abbrev entry : Js
entry = obj (
    field "aliasPath" (str "/a") (
      field "publicPath" (str "/r/edgejs") (
        field "r2Key" (str "k-0123456789abcdef0123456789abcdef0123456789abcdef0123456789abcdef") (
          field "contentType" (str "application/wasm") (
            field "bytes" (num 5) (
              field "sha256"
                (str "0123456789abcdef0123456789abcdef0123456789abcdef0123456789abcdef") end))))))

abbrev manifest : Js
manifest = obj (
    field "schemaVersion" (num 1) (
      field "release" (str "v1") (
        field "sourceCommit" (str "0123456789abcdef0123456789abcdef01234567")
          (field "artifacts" (obj (field "edgejs" entry (field "openclaw" entry end))) end))))

manifest_valid : validate_runtime_manifest manifest ≡ true
unfolding validate_runtime_manifest is_artifact is_commit includes_text is_prefix is_hex_sha256
    is_hex all property field_of list_beq
manifest_valid = refl

useless : All IsUseless (unreachable ∷ answered 500 (some manifest) ∷ [])
unfolding IsUseless
useless = (tt, (inr (inl (omega arith)), tt))

manifests-map_example :
    manifests none (
      unreachable
      ∷ answered 500 (some manifest)
      ∷ answered 200 (some manifest)
      ∷ answered 500 none
      ∷ [])
    ≡ none ∷ none ∷ some manifest ∷ some manifest ∷ []
manifests-map_example =
    manifests-map (unreachable ∷ answered 500 (some manifest) ∷ []) 200 manifest
      (answered 500 none ∷ []) useless (omega arith) (omega arith) manifest_valid
