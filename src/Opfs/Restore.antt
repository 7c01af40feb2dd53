-- ===== src/Opfs/Restore.antt =====
-- src/opfs-directory-store.ts: `restoreDirectoryTreeFromOpfs` and `hasDirectoryTreeSnapshot`. The
-- restored directory is seen as what is asked of it: the directories to make and the files to
-- write, in order.
use clawsembly_kernel.Prelude.{
  ℕ, ◌+◌, Bool, ◌&&◌, ◌||◌, Option, none, some, List, [], ◌∷◌, ◌++◌, if◌then◌else◌, ◌==◌, nat_eq,
  codes_eq, length, codes, all, is_some,
}
use clawsembly_kernel.JsText.{Text, is_hex}
use clawsembly_kernel.Opfs.{
  invalid_head, manifest_hash_mismatch, invalid_json, file_mismatch, restored_mismatch,
  invalid_segment, Result, ok, err, ◌>>=◌, ◌>>◌, guard, validate_store_id, validate_subtree_root,
  mounted_path, relative_child, path_segments, SnapshotFile, is_sha256, validate_manifest,
}
use clawsembly_kernel.Opfs.Disk.{
  Bytes, Disk, Handle, root_handle, get_directory, get_nested_directory, read_file, SnapshotHead,
  Platform, store_root, stores_directory, generations_directory, payload_directory, head_filename,
  manifest_filename,
}

pub record Restored : Type 0 where
  pub generation_id : Text
  pub made : List Text
  pub written : List (Text × Bytes)
  pub payload_bytes : ℕ

-- `/^[0-9a-f-]{36}$/u`
unfoldable pub is_generation_id : Text → Bool
is_generation_id value = length value == 36 && all (λ c. is_hex c || c == b'-') value

unfoldable pub is_head : SnapshotHead → Bool
is_head head =
    head.schema_version == 1
    && (is_generation_id head.generation_id && is_sha256 head.manifest_sha256)

abbrev pub parsed {ℓ} : {A : Type ℓ} → Option A → Result A
parsed none = err invalid_json
parsed (some a) = ok a

-- The paths that `createWasmerDirectory` makes, from the top down.
unfoldable pub prefixes : Text → List Text → List Text
prefixes parent [] = []
prefixes parent (segment ∷ segments) =
    let current = relative_child parent segment in current ∷ prefixes current segments

unfoldable pub create_wasmer_directory : Text → Result (List Text)
create_wasmer_directory absolute_path = do
  segments ← path_segments absolute_path
  ok (prefixes (codes "/") segments)

unfoldable pub create_directories : Text → List Text → Result (List Text)
create_directories root_path [] = ok []
create_directories root_path (path ∷ paths) = do
  made ← create_wasmer_directory (mounted_path root_path path)
  rest ← create_directories root_path paths
  ok (made ++ rest)

-- `segments.at(-1)` with `segments.slice(0, -1)`.
unfoldable pub split_last : Text → List Text → List Text × Text
split_last name [] = ([], name)
split_last name (next ∷ names) = let rest = split_last next names in (name ∷ rest.0, rest.1)

unfoldable pub filename_of : List Text → Result (List Text × Text)
filename_of [] = err invalid_segment
filename_of (name ∷ names) =
    if (split_last name names).1 == [] then err invalid_segment else ok (split_last name names)

module _ (platform : Platform) where
  unfoldable pub is_intact : SnapshotFile → Bytes → Bool
  is_intact file bytes = length bytes == file.bytes && platform.sha256 bytes == file.sha256

  unfoldable pub restore_file : Handle → SnapshotFile → Result Bytes
  restore_file payload file = do
    segments ← path_segments file.path
    (directories, filename) ← filename_of segments
    source ← get_nested_directory payload directories
    bytes ← read_file source filename
    guard (is_intact file bytes) file_mismatch
    ok bytes

  -- The loop over the manifest's files, with the bytes restored so far.
  unfoldable pub restore_files :
      Handle → Text → List SnapshotFile → ℕ → Result (List (Text × Bytes) × ℕ)
  restore_files payload root_path [] payload_bytes = ok ([], payload_bytes)
  restore_files payload root_path (file ∷ files) payload_bytes = do
    bytes ← restore_file payload file
    (written, total) ← restore_files payload root_path files (payload_bytes + length bytes)
    ok ((mounted_path root_path file.path, bytes) ∷ written, total)

  -- All that follows the check of HEAD, from the handle of the generation.
  unfoldable pub restore_generation : Text → Text → SnapshotHead → Handle → Result Restored
  restore_generation root_path store_id head generation = do
    manifest_bytes ← read_file generation manifest_filename
    guard (platform.sha256 manifest_bytes == head.manifest_sha256) manifest_hash_mismatch
    manifest ← parsed (platform.parse_manifest manifest_bytes)
    validate_manifest manifest
        (record { generation_id = head.generation_id; root_path = root_path; store_id = store_id })
    payload ← get_directory generation payload_directory
    made ← create_directories manifest.root_path (platform.by_depth manifest.directories)
    (written, payload_bytes) ← restore_files payload manifest.root_path manifest.files 0
    guard (payload_bytes == manifest.payload_bytes) restored_mismatch
    ok (record {
      generation_id = head.generation_id;
      made = made;
      written = written;
      payload_bytes = payload_bytes;
    })

  unfoldable pub restore_head : Text → Text → Handle → SnapshotHead → Result Restored
  restore_head root_path store_id root head = do
    guard (is_head head) invalid_head
    generation ← get_nested_directory root (generations_directory ∷ head.generation_id ∷ [])
    restore_generation root_path store_id head generation

  unfoldable pub restore_bytes : Text → Text → Handle → Bytes → Result Restored
  restore_bytes root_path store_id root bytes = do
    head ← parsed (platform.parse_head bytes)
    restore_head root_path store_id root head

  -- All that follows the opening of the store's root.
  unfoldable pub restore_store : Text → Text → Handle → Result Restored
  unfolding restore_bytes
  restore_store root_path store_id root = do
    bytes ← read_file root head_filename
    restore_bytes root_path store_id root bytes

  unfoldable pub restore_directory_tree : Text → Text → Disk → Result Restored
  restore_directory_tree root_path store_id disk = do
    validate_subtree_root root_path
    validate_store_id store_id
    root ← get_nested_directory (root_handle disk) (store_root ∷ stores_directory ∷ store_id ∷ [])
    restore_store root_path store_id root

-- `hasDirectoryTreeSnapshot`
unfoldable pub has_directory_tree_snapshot : Text → Disk → Result Bool
has_directory_tree_snapshot store_id disk = do
  validate_store_id store_id
  root ← get_nested_directory (root_handle disk) (store_root ∷ stores_directory ∷ store_id ∷ [])
  ok (is_some (root (head_filename ∷ [])))
