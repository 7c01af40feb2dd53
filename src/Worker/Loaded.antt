-- ===== src/Worker/Loaded.antt =====
-- worker/index.mjs: the manifest over a sequence of requests.
use clawsembly_kernel.Prelude.{
  ℕ, ◌≤◌, ◌<◌, ◌≡◌, refl, ap, ◌⊎◌, true, false, none, some, List, [], ◌∷◌, ◌++◌, map, All, arith,
}
use clawsembly_kernel.Js.{Js}
use clawsembly_kernel.Worker.Manifest.{
  Fetched, unreachable, answered, fetched_manifest, validate_runtime_manifest,
  load_runtime_manifest, manifests,
}

-- A fetch that gives no manifest: it throws, its status is no success, its body is no JSON, or the
-- value does not pass the validation.
unfoldable pub IsUseless : Fetched → Type 0
IsUseless unreachable = Unit
IsUseless (answered status none) = Unit
IsUseless (answered status (some v)) =
    (status < 200) ⊎ (299 < status) ⊎ (validate_runtime_manifest v ≡ false)

useless-none : (fetched : Fetched) → IsUseless fetched → fetched_manifest fetched ≡ none
unfolding IsUseless
useless-none unreachable h = refl
useless-none (answered status none) h = refl
useless-none (answered status (some v)) h = ground (arith, h)

useful-some :
    (status : ℕ) (v : Js)
    → 200 ≤ status
    → status ≤ 299
    → validate_runtime_manifest v ≡ true
    → fetched_manifest (answered status (some v)) ≡ some v
useful-some status v low high valid = ground (arith, low, high, valid)

manifests-same : (v : Js) (more : List Fetched) → manifests (some v) more ≡ map (λ _. some v) more
unfolding manifests load_runtime_manifest
manifests-same v [] = refl
manifests-same v (fetched ∷ more) = ap (◌∷◌ (some v)) (manifests-same v more)

-- The requests before the first fetch that succeeds with a manifest that passes the validation
-- fail, and that one and all later requests are given this manifest, whatever their fetches would
-- give.
pub manifests-map :
    (failures : List Fetched) (status : ℕ) (v : Js) (more : List Fetched)
    → All IsUseless failures
    → 200 ≤ status
    → status ≤ 299
    → validate_runtime_manifest v ≡ true
    → manifests none (failures ++ answered status (some v) ∷ more)
      ≡ map (λ _. none) failures ++ some v ∷ map (λ _. some v) more
unfolding manifests load_runtime_manifest
manifests-map [] status v more h low high valid =
    let found = useful-some status v low high valid in
    rw found (ap (◌∷◌ (some v)) (manifests-same v more))
manifests-map (failure ∷ failures) status v more (h, rest) low high valid =
    let missed = useless-none failure h in
    rw missed (ap (◌∷◌ none) (manifests-map failures status v more rest low high valid))
