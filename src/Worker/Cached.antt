-- ===== src/Worker/Cached.antt =====
-- worker/index.mjs: what `serveRuntimeArtifact` puts in the cache, and takes out of it.
use clawsembly_kernel.Prelude.{◌≡◌, Bool, true, false, some, codes_eq, is_some}
use clawsembly_kernel.JsText.{Text}
use clawsembly_kernel.Worker.Artifact.{
  Artifact, R2Object, ArtifactRequest, Bucket, if_none_match_satisfied,
}

module _ (release : Text) (artifact : Artifact) where
  -- A GET request for all of the artifact, without a condition that holds.
  pub record IsWhole (bucket : Bucket) (request : ArtifactRequest) : Type 0 where
    pub get : request.method ≡ "GET"
    pub unconditional : if_none_match_satisfied request artifact ≡ false
    pub no_range : request.has_range ≡ false
    pub cached : bucket.has_cache ≡ true

  -- An object whose body is there and whose size is right.
  pub record IsFound (bucket : Bucket) (has_range : Bool) (object : R2Object) : Type 0 where
    pub found : bucket.get artifact.r2_key has_range ≡ some object
    pub has_body : is_some object.body ≡ true
    pub size : object.size ≡ artifact.bytes
