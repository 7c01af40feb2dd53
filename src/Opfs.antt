-- ===== src/Opfs.antt =====
-- src/opfs-directory-store.ts: snapshots of a directory tree in the origin private file system.
-- Names, paths, the manifest and its validation; commit and restore are in the child modules.
pub mod Disk
pub mod Commit
pub mod Restore
mod Tests
use clawsembly_kernel.Prelude.{
  ℕ, ◌≡◌, Bool, true, false, not, ◌&&◌, ◌||◌, Option, none, some, List, [], ◌∷◌, ◌++◌,
  if◌then◌else◌, ◌==◌, nat_eq, codes_eq, leb, ltb, length, all, any, codes, ◌+◌,
}
use clawsembly_kernel.Prelude.JsSet
use clawsembly_kernel.JsText.{
  Text, starts_with, ends_with, includes, split, slice_1, is_digit, is_lower, is_hex,
}

abbrev pub max_files : ℕ
max_files = 20000

abbrev pub max_payload_bytes : ℕ
max_payload_bytes = 536870912

abbrev pub max_path_length : ℕ
max_path_length = 4096

pub data StoreError : Type 0 where
  invalid_segment invalid_store_id invalid_path missing_subtree_root : StoreError
  identity_mismatch invalid_shape duplicate_directory invalid_file_entry : StoreError
  missing_parent payload_limit payload_mismatch : StoreError
  entry_limit file_limit unsupported_entry source_failure : StoreError
  not_found invalid_head manifest_hash_mismatch invalid_json file_mismatch : StoreError
  restored_mismatch : StoreError

pub data Result {ℓ} (A : Type ℓ) : Type ℓ where
  err : StoreError → Result A
  ok : A → Result A

-- `if (!test) throw reason`
abbrev pub guard : (test : Bool) (reason : StoreError) → Result (Unit {0})
guard false reason = err reason
guard true reason = ok tt

infixl 5 ◌>>=◌ ◌>>◌
abbrev pub ◌>>=◌ {ℓ κ} : {A : Type ℓ} {B : Type κ} (m : Result A) (next : A → Result B) → Result B
err reason >>= next = err reason
ok value >>= next = next value

abbrev pub ◌>>◌ {ℓ} : {B : Type ℓ} (m : Result (Unit {0})) (next : Result B) → Result B
check >> next = check >>= λ _. next

unfoldable pub is_segment : Text → Bool
is_segment value =
    not (value == [])
    && (not (value == codes ".")
        && (not (value == codes "..")
            && (not (includes b'/' value) && (not (includes 92 value) && not (includes 0 value)))))

unfoldable pub validate_segment : Text → Result (Unit {0})
validate_segment value = guard (is_segment value) invalid_segment

-- `[a-z0-9]` and `[a-z0-9._-]`
unfoldable pub is_store_head : ℕ → Bool
is_store_head c = is_lower c || is_digit c

unfoldable pub is_store_char : ℕ → Bool
is_store_char c = is_lower c || is_digit c || (c == b'.' || (c == b'_' || c == b'-'))

-- `/^[a-z0-9][a-z0-9._-]{0,63}$/u`
unfoldable pub is_store_id : Text → Bool
is_store_id [] = false
is_store_id (c ∷ cs) = is_store_head c && (leb (length cs) 63 && all is_store_char cs)

unfoldable pub validate_store_id : Text → Result (Unit {0})
validate_store_id value = guard (is_store_id value) invalid_store_id

unfoldable pub is_path_form : Text → Bool
is_path_form value =
    not (value == [])
    && (leb (length value) max_path_length
        && (starts_with b'/' value
            && (not (includes 92 value)
                && (not (includes 0 value)
                    && (not (ltb 1 (length value) && ends_with b'/' value))))))

-- The loop over the segments; an empty one is passed over.
unfoldable pub is_path_segment : Text → Bool
is_path_segment segment = segment == [] || is_segment segment

unfoldable pub validate_absolute_path : Text → Result (Unit {0})
validate_absolute_path value = do
  guard (is_path_form value) invalid_path
  guard (all is_path_segment (split b'/' (slice_1 value))) invalid_segment

unfoldable pub validate_subtree_root : Text → Result (Unit {0})
validate_subtree_root value = do
  validate_absolute_path value
  guard (not (value == codes "/")) missing_subtree_root

unfoldable pub relative_child : Text → Text → Text
relative_child parent name = if parent == codes "/" then b'/' ∷ name else parent ++ b'/' ∷ name

unfoldable pub mounted_path : Text → Text → Text
mounted_path root_path relative_path =
    if relative_path == codes "/"
    then root_path
    else if root_path == codes "/"
    then relative_path
    else root_path ++ relative_path

unfoldable pub path_segments : Text → Result (List Text)
path_segments value = do
  validate_absolute_path value
  ok (if value == codes "/" then [] else split b'/' (slice_1 value))

-- `value.slice(0, value.lastIndexOf("/"))` for a text that starts with "/", or "/" itself where
-- that is the only one: the directory that holds the path.
unfoldable pub before_last_slash : Text → Text
before_last_slash [] = []
before_last_slash (c ∷ cs) =
    let rest = before_last_slash cs in if includes b'/' cs then c ∷ rest else []

unfoldable pub parent_of : Text → Text
parent_of path = if includes b'/' (slice_1 path) then before_last_slash path else codes "/"

pub record SnapshotFile : Type 0 where
  pub bytes : ℕ
  pub path : Text
  pub sha256 : Text

-- A manifest with the types that the source declares of it; `bytes` and `payload_bytes` are numbers
-- that are natural, as negative and fractional ones are refused.
pub record SnapshotManifest : Type 0 where
  pub created_at : Text
  pub directories : List Text
  pub files : List SnapshotFile
  pub generation_id : Text
  pub payload_bytes : ℕ
  pub root_path : Text
  pub schema_version : ℕ
  pub store_id : Text

pub record Expected : Type 0 where
  pub generation_id : Text
  pub root_path : Text
  pub store_id : Text

abbrev pub max_safe : ℕ
max_safe = 9007199254740991

-- `/^[0-9a-f]{64}$/u`
unfoldable pub is_sha256 : Text → Bool
is_sha256 value = length value == 64 && all is_hex value

-- The loop over `value.directories`, with the set of those seen.
unfoldable pub check_directories : List Text → List Text → Result (List Text)
check_directories [] seen = ok seen
check_directories (path ∷ paths) seen = do
  validate_absolute_path path
  guard (not (JsSet.has path seen)) duplicate_directory
  check_directories paths (JsSet.add path seen)

unfoldable pub is_file_entry : SnapshotFile → List Text → Bool
is_file_entry file seen =
    not (file.path == codes "/")
    && (leb file.bytes max_safe && (is_sha256 file.sha256 && not (JsSet.has file.path seen)))

-- The loop over `value.files`, with the paths seen and the bytes so far; it gives all bytes.
unfoldable pub check_files : List Text → List SnapshotFile → List Text → ℕ → Result ℕ
check_files directories [] seen payload_bytes = ok payload_bytes
check_files directories (file ∷ files) seen payload_bytes = do
  validate_absolute_path file.path
  guard (is_file_entry file seen) invalid_file_entry
  guard (JsSet.has (parent_of file.path) directories) missing_parent
  guard (leb (payload_bytes + file.bytes) max_payload_bytes) payload_limit
  check_files directories files (JsSet.add file.path seen) (payload_bytes + file.bytes)

unfoldable pub has_identity : SnapshotManifest → Expected → Bool
has_identity value expected =
    value.schema_version == 1
    && (value.generation_id == expected.generation_id
        && (value.root_path == expected.root_path && value.store_id == expected.store_id))

unfoldable pub starts_at_root : List Text → Bool
starts_at_root [] = false
starts_at_root (path ∷ paths) = path == codes "/"

unfoldable pub validate_manifest : SnapshotManifest → Expected → Result (Unit {0})
validate_manifest value expected = do
  guard (has_identity value expected) identity_mismatch
  validate_subtree_root value.root_path
  guard (starts_at_root value.directories && leb (length value.files) max_files) invalid_shape
  directories ← check_directories value.directories []
  payload_bytes ← check_files directories value.files [] 0
  guard (value.payload_bytes == payload_bytes) payload_mismatch
