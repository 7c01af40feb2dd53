-- ===== src/Opfs/Commit.antt =====
-- src/opfs-directory-store.ts: `commitDirectoryTreeToOpfs`. It yields the writes that it makes, in
-- order, also those made before a check or the source directory throws. A call of the file system
-- that throws ends it after some of these writes, as `Opfs.Disk.interrupted` has it.
pub mod Plan
pub mod Atomic
pub mod Interrupted
use clawsembly_kernel.Prelude.{
  ℕ, ◌+◌, Bool, true, false, Option, none, some, List, [], ◌∷◌, ◌++◌, if◌then◌else◌, leb, ltb,
  length, codes,
}
use clawsembly_kernel.JsText.{Text}
use clawsembly_kernel.Opfs.{
  max_files, max_payload_bytes, StoreError, entry_limit, file_limit, payload_limit,
  unsupported_entry, source_failure, Result, ok, err, ◌>>=◌, ◌>>◌, guard, validate_segment,
  validate_store_id, validate_subtree_root, relative_child, SnapshotFile, SnapshotManifest,
  validate_manifest,
}
use clawsembly_kernel.Opfs.Disk.{
  Bytes, DiskPath, SnapshotHead, Platform, payload_directory, manifest_filename, generation_path,
  head_path,
}

-- What `readDir` and `readFile` of the source directory give, in the order of `localeCompare`:
-- `unreadable` is a file for which `readFile` throws, and `unlisted` stands for the children of a
-- directory for which `readDir` throws.
mutual
  pub data Node : Type 0 where
    file : Bytes → Node
    dir : Children → Node
    unreadable unknown : Node

  pub data Children : Type 0 where
    nil unlisted : Children
    child : Text → Node → Children → Children

-- The variables of `commitDirectoryTreeToOpfs`, and what was written.
pub record Work : Type 0 where
  pub directories : List Text
  pub files : List SnapshotFile
  pub payload_bytes : ℕ
  pub writes : List (DiskPath × Bytes)

abbrev pub Outcome : Type 0
Outcome = Work × Result (Unit {0})

abbrev pub then_do : Outcome → (Work → Outcome) → Outcome
then_do (w, ok _) k = k w
then_do (w, err e) k = (w, err e)

abbrev pub check : Result (Unit {0}) → Work → (Work → Outcome) → Outcome
check (ok _) w k = k w
check (err e) w k = (w, err e)

abbrev pub push_directory : Text → Work → Outcome
push_directory relative w = (record w { directories = w.directories ++ relative ∷ [] }, ok tt)

abbrev pub empty_work : Work
empty_work = record { directories = codes "/" ∷ []; files = []; payload_bytes = 0; writes = [] }

abbrev pub write : DiskPath → Bytes → Work → Work
write path bytes w = record w { writes = w.writes ++ (path, bytes) ∷ [] }

unfoldable pub manifest_of : Text → Text → Text → Text → Work → SnapshotManifest
manifest_of store_id generation_id root_path created_at w = record {
  created_at = created_at;
  directories = w.directories;
  files = w.files;
  generation_id = generation_id;
  payload_bytes = w.payload_bytes;
  root_path = root_path;
  schema_version = 1;
  store_id = store_id;
}

module _ (platform : Platform) where
  unfoldable pub add_directory : Text → Work → Outcome
  add_directory relative w =
      check (guard (ltb (length w.directories + length w.files) max_files) entry_limit) w
        (push_directory relative)

  -- `writeFile`, and the entry of the manifest.
  unfoldable pub store_file : Text → DiskPath → Bytes → Work → Outcome
  store_file relative destination bytes w = (
    record w {
      writes = w.writes ++ (destination, bytes) ∷ [];
      files =
          w.files
          ++ record { bytes = length bytes; path = relative; sha256 = platform.sha256 bytes } ∷ [];
    },
    ok tt,
  )

  -- `payloadBytes += bytes.byteLength` and what follows.
  unfoldable pub count_file : Text → DiskPath → Bytes → Work → Outcome
  unfolding store_file
  count_file relative destination bytes w =
      let counted : Work = record w { payload_bytes = w.payload_bytes + length bytes } in
      check (guard (leb counted.payload_bytes max_payload_bytes) payload_limit) counted
        (store_file relative destination bytes)

  unfoldable pub add_file : Text → DiskPath → Bytes → Work → Outcome
  unfolding count_file
  add_file relative destination bytes w =
      check (guard (ltb (length w.files) max_files) file_limit) w
        (count_file relative destination bytes)

  -- `visit`, by the paths of the source relative to its root and of the destination.
  unfoldable mutual
    pub visit : Children → Text → DiskPath → Work → Outcome
    visit nil relative destination w = (w, ok tt)
    visit unlisted relative destination w = (w, err source_failure)
    visit (child name node rest) relative destination w = check (validate_segment name) w λ v.
        then_do (visit_node node (relative_child relative name) (destination ++ name ∷ []) v)
          (visit rest relative destination)

    pub visit_node : Node → Text → DiskPath → Work → Outcome
    visit_node (file bytes) relative destination w = add_file relative destination bytes w
    visit_node (dir children) relative destination w =
        then_do (add_directory relative w) (visit children relative destination)
    visit_node unreadable relative destination w =
        check (guard (ltb (length w.files) max_files) file_limit) w λ v. (v, err source_failure)
    visit_node unknown relative destination w = (w, err unsupported_entry)

  unfoldable pub head_of : Text → SnapshotManifest → SnapshotHead
  head_of generation_id manifest = record {
    generation_id = generation_id;
    manifest_sha256 = platform.sha256 (platform.manifest_bytes manifest);
    schema_version = 1;
  }

  unfoldable pub write_manifest_and_head : Text → Text → SnapshotManifest → Work → Outcome
  write_manifest_and_head store_id generation_id manifest w = (
    write (head_path store_id) (platform.head_bytes (head_of generation_id manifest)) (
        write (generation_path store_id generation_id (manifest_filename ∷ []))
          (platform.manifest_bytes manifest) w),
    ok tt,
  )

  -- What follows the visit: the manifest is validated and written, then HEAD.
  unfoldable pub publish : Text → Text → SnapshotManifest → Work → Outcome
  unfolding write_manifest_and_head head_of
  publish store_id generation_id manifest w =
      check
        (validate_manifest manifest (record {
          generation_id = generation_id;
          root_path = manifest.root_path;
          store_id = store_id;
        }))
        w (write_manifest_and_head store_id generation_id manifest)

  unfoldable pub commit_valid : Children → Text → Text → Text → Text → Work → Outcome
  unfolding manifest_of
  commit_valid tree root_path store_id generation_id created_at v =
      then_do
        (visit tree (codes "/") (generation_path store_id generation_id (payload_directory ∷ [])) v)
        λ w.
          publish store_id generation_id (manifest_of store_id generation_id root_path created_at w)
            w

  unfoldable pub commit_directory_tree : Children → Text → Text → Text → Text → Outcome
  unfolding commit_valid
  commit_directory_tree tree root_path store_id generation_id created_at =
      check (validate_subtree_root root_path) empty_work λ v.
        check (validate_store_id store_id) v
          (commit_valid tree root_path store_id generation_id created_at)
