-- ===== src/Opfs/Tests.antt =====
-- Tests of the snapshot store, with a platform of stand-ins.
use clawsembly_kernel.Prelude.{
  ◌≡◌, ◌≢◌, ◌==◌, codes_eq, true, false, refl, sym, ap, ◌∙◌, Option, some, none, [], ◌∷◌, arith,
  length, take, codes, all, list_beq,
}
use clawsembly_kernel.JsText.{Text, starts_with, ends_with, includes, split, is_hex}
use clawsembly_kernel.Prelude.JsSet
use clawsembly_kernel.Prelude.JsMap
use clawsembly_kernel.Opfs.{
  SnapshotManifest, is_segment, validate_segment, is_store_head, is_store_char, is_store_id,
  validate_store_id, is_path_form, is_path_segment, validate_absolute_path, validate_subtree_root,
  relative_child, validate_manifest, check_directories, is_file_entry, check_files, has_identity,
  starts_at_root, parent_of, before_last_slash, is_sha256,
}
use clawsembly_kernel.Opfs.Disk.{
  Bytes, Disk, SnapshotHead, Platform, payload_directory, manifest_filename, generation_path,
  head_path, apply_writes, interrupted, names_eq,
}
use clawsembly_kernel.Opfs.Commit.{
  Children, file, nil, child, visit, visit_node, add_file, count_file, store_file, commit_valid,
  commit_directory_tree, publish, write_manifest_and_head, head_of, manifest_of,
}
use clawsembly_kernel.Opfs.Commit.Atomic.{restore-stopped_commit}
use clawsembly_kernel.Opfs.Commit.Interrupted.{restore-interrupted_commit}
use clawsembly_kernel.Opfs.Restore.{restore_directory_tree}

-- Sixty-four zeros.
abbrev zeros : Text
zeros = codes "0000000000000000000000000000000000000000000000000000000000000000"

abbrev platform : Platform
platform = record {
  head_bytes = λ head. head.generation_id;
  parse_head = λ bytes. none;
  manifest_bytes = λ manifest. [];
  parse_manifest = λ bytes. none;
  sha256 = λ bytes. zeros;
  by_depth = λ paths. paths;
}

abbrev store : Text
store = codes "s"

abbrev generation : Text
generation = codes "g"

abbrev root : Text
root = codes "/r"

abbrev good_tree : Children
good_tree = child (codes "a") (file (1 ∷ [])) nil

three_writes :
    length (commit_directory_tree platform good_tree root store generation []).0.writes ≡ 3
unfolding commit_directory_tree commit_valid visit visit_node add_file count_file store_file
    validate_subtree_root validate_absolute_path is_path_form is_path_segment is_segment
    validate_segment validate_store_id is_store_id is_store_head is_store_char all starts_with
    ends_with includes split list_beq publish write_manifest_and_head head_of manifest_of
    validate_manifest check_directories is_file_entry check_files has_identity starts_at_root
    parent_of before_last_slash relative_child is_sha256 is_hex JsSet.has JsSet.add
three_writes = refl

-- The commit stops when it has written the payload and the manifest, and not HEAD.
restore-stopped_commit_example :
    restore_directory_tree platform root store (
      apply_writes
        (take 2 (commit_directory_tree platform good_tree root store generation []).0.writes)
        [])
    ≡ restore_directory_tree platform root store []
restore-stopped_commit_example =
    restore-stopped_commit platform good_tree root store generation [] [] 2 (λ bytes head e p. cc)
      (omega (arith, three_writes))

abbrev old_generation : Text
old_generation = codes "00000000-0000-4000-8000-000000000001"

abbrev new_generation : Text
new_generation = codes "00000000-0000-4000-8000-000000000002"

abbrev old_manifest : SnapshotManifest
old_manifest = record {
  created_at = [];
  directories = codes "/" ∷ [];
  files = record { bytes = 1; path = codes "/a"; sha256 = zeros } ∷ [];
  generation_id = old_generation;
  payload_bytes = 1;
  root_path = root;
  schema_version = 1;
  store_id = store;
}

-- Its HEAD holds the generation's id alone.
abbrev reader : Platform
reader = record platform {
  parse_head =
      λ bytes. some (record { generation_id = bytes; manifest_sha256 = zeros; schema_version = 1 });
  parse_manifest = λ bytes. some old_manifest;
}

-- What a first commit leaves.
abbrev committed : Disk
committed = JsMap.set (head_path store) old_generation (
    (generation_path store old_generation (payload_directory ∷ codes "a" ∷ []), 1 ∷ [])
    ∷ (generation_path store old_generation (manifest_filename ∷ []), [])
    ∷ [])

commits_again :
    length (commit_directory_tree reader good_tree root store new_generation []).0.writes ≡ 3
unfolding commit_directory_tree commit_valid visit visit_node add_file count_file store_file
    validate_subtree_root validate_absolute_path is_path_form is_path_segment is_segment
    validate_segment validate_store_id is_store_id is_store_head is_store_char all starts_with
    ends_with includes split list_beq publish write_manifest_and_head head_of manifest_of
    validate_manifest check_directories is_file_entry check_files has_identity starts_at_root
    parent_of before_last_slash relative_child is_sha256 is_hex JsSet.has JsSet.add
commits_again = refl

has_head : JsMap.get (head_path store) committed ≡ some old_generation
has_head =
    JsMap.get-set (head_path store) (head_path store) old_generation _
    ∙ rw ((names_eq.beq_iff (head_path store) (head_path store)).1 refl) refl

other_generation : (old_generation == new_generation) ≡ false
unfolding list_beq
other_generation = refl

-- The write of HEAD itself throws.
restore-interrupted_commit_example :
    restore_directory_tree reader root store (
      interrupted 2
        (commit_directory_tree reader good_tree root store new_generation []).0.writes
        committed)
    ≡ restore_directory_tree reader root store committed
restore-interrupted_commit_example =
    restore-interrupted_commit reader good_tree root store new_generation [] committed 2
      old_generation fresh has_head (omega (arith, commits_again))
  where
    apart : false ≡ true → ⊥
    apart e = cc

    bytes_of : Option Bytes → Bytes
    bytes_of none = []
    bytes_of (some bytes) = bytes

    id_of : Option SnapshotHead → Text
    id_of none = []
    id_of (some head) = head.generation_id

    fresh :
        (bytes : Bytes) (head : SnapshotHead)
        → JsMap.get (head_path store) committed ≡ some bytes
        → reader.parse_head bytes ≡ some head
        → head.generation_id ≢ new_generation
    fresh bytes head e p q =
        let held : ◌≡◌ {A = Option Bytes} (some old_generation) (some bytes) = sym has_head ∙ e in
        let same : old_generation ≡ new_generation =
          ap (λ o. bytes_of o) held ∙ ap (λ o. id_of o) p ∙ q in
        apart (sym other_generation ∙ (codes_eq.beq_iff old_generation new_generation).1 same)
