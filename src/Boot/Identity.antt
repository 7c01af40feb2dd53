-- ===== src/Boot/Identity.antt =====
-- src/openclaw-boot-cache.ts and src/openclaw-runtime-recovery.ts: the names that a boot computes.
use clawsembly_kernel.Prelude.{
  ℕ, zero, suc, ◌≤◌, ◌≡◌, refl, Bool, true, false, ◌&&◌, Option, none, some, List, [], ◌∷◌, ◌++◌,
  arith, all, list_beq, if◌then◌else◌, length, length-append, take, codes, nat_eq, codes_eq,
}
use clawsembly_kernel.JsText.{Text, is_hex, is_id_char}
use clawsembly_kernel.Opfs.{is_store_head, is_store_char, is_store_id, is_sha256}
use clawsembly_kernel.Boot.{
  create_open_claw_boot_store_id, is_runtime_epoch, Storage, items, unavailable, initial_epoch,
  accepted_epoch, shared_runtime_epoch_storage_key, stored_epoch, read_shared_runtime_epoch,
}

all-append :
    (p : ℕ → Bool) (xs ys : List ℕ) → all p xs ≡ true → all p ys ≡ true → all p (xs ++ ys) ≡ true
unfolding all
all-append p [] ys h k = k
all-append p (x ∷ xs) ys h k = ground (arith, all-append p xs ys)

hex_store_chars :
    (n : ℕ) (xs : List ℕ) → all is_hex xs ≡ true → all is_store_char (take n xs) ≡ true
unfolding all is_hex is_store_char
hex_store_chars zero xs h = refl
hex_store_chars (suc n) [] h = refl
hex_store_chars (suc n) (x ∷ xs) h = ground (arith, hex_store_chars n xs)

length-take-le : (n : ℕ) (xs : List ℕ) → length (take n xs) ≤ n
length-take-le zero xs = omega arith
length-take-le (suc n) [] = omega arith
length-take-le (suc n) (x ∷ xs) = omega (arith, length-take-le n xs)

abbrev tail : Text → Text → Text
tail artifact image = codes "lawsembly-onboard-v1-" ++ (take 12 artifact ++ b'-' ∷ take 12 image)

tail_chars :
    (artifact image : Text)
    → is_sha256 artifact ≡ true
    → is_sha256 image ≡ true
    → all is_store_char (tail artifact image) ≡ true
unfolding all is_sha256 is_store_char
tail_chars artifact image ha hi =
    all-append is_store_char (codes "lawsembly-onboard-v1-")
      (take 12 artifact ++ b'-' ∷ take 12 image) refl
      (all-append is_store_char (take 12 artifact) (b'-' ∷ take 12 image)
        (hex_store_chars 12 artifact (ground arith)) (hex_store_chars 12 image (ground arith)))

built_id :
    (artifact image : Text)
    → is_sha256 artifact ≡ true
    → is_sha256 image ≡ true
    → is_store_id (b'c' ∷ tail artifact image) ≡ true
unfolding is_store_id is_store_head
built_id artifact image ha hi = ground (
  arith,
  tail_chars artifact image,
  length-append (take 12 artifact) (b'-' ∷ take 12 image),
  length-take-le 12 artifact,
  length-take-le 12 image,
)

-- The snapshot store accepts every id that is computed for a boot: from two digests the id is one
-- that the store's validation takes.
pub is_store_id-create_open_claw_boot_store_id :
    (artifact_sha256 image_sha256 id : Text)
    → create_open_claw_boot_store_id artifact_sha256 image_sha256 ≡ some id
    → is_store_id id ≡ true
unfolding create_open_claw_boot_store_id
is_store_id-create_open_claw_boot_store_id artifact_sha256 image_sha256 id e =
    by_tests (is_sha256 artifact_sha256) (is_sha256 image_sha256) refl refl e
  where
    by_tests :
        (a b : Bool)
        → is_sha256 artifact_sha256 ≡ a
        → is_sha256 image_sha256 ≡ b
        → ◌≡◌ {A = Option Text}
            (if a && b then some (b'c' ∷ tail artifact_sha256 image_sha256) else none)
            (some id)
        → is_store_id id ≡ true
    by_tests true true p q r =
        let same : ◌≡◌ {A = Text} (b'c' ∷ tail artifact_sha256 image_sha256) id = cc in
        rw (← same) (built_id artifact_sha256 image_sha256 p q)
    by_tests true false p q r = cc
    by_tests false b p q r = cc

initial_epoch-is_runtime_epoch : is_runtime_epoch initial_epoch ≡ true
initial_epoch-is_runtime_epoch = unfold is_runtime_epoch is_id_char all list_beq in refl

accepted_epoch_lem : (stored : Option Text) → is_runtime_epoch (accepted_epoch stored) ≡ true
accepted_epoch_lem none = initial_epoch-is_runtime_epoch
accepted_epoch_lem (some stored) = ground (arith, initial_epoch-is_runtime_epoch)

stored_epoch_lem : (storage : Storage) → is_runtime_epoch (stored_epoch storage) ≡ true
unfolding stored_epoch
stored_epoch_lem (items stored) = accepted_epoch_lem (stored shared_runtime_epoch_storage_key)
stored_epoch_lem unavailable = initial_epoch-is_runtime_epoch

-- The epoch is always of the accepted form, whatever the page's query and the storage hold.
pub is_runtime_epoch-read_shared_runtime_epoch :
    (query : Option Text) (storage : Storage)
    → is_runtime_epoch (read_shared_runtime_epoch query storage) ≡ true
unfolding read_shared_runtime_epoch
is_runtime_epoch-read_shared_runtime_epoch (some requested) storage =
    ground (arith, stored_epoch_lem storage)
is_runtime_epoch-read_shared_runtime_epoch none storage = stored_epoch_lem storage
