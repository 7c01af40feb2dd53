-- ===== src/Opfs/Disk.antt =====
-- src/opfs-directory-store.ts: the origin private file system as files under paths of names. A
-- directory handle for reading is a function from the paths below it. Directories have no entry of
-- their own: opening one that is missing and reading a file below it fail alike.
use clawsembly_kernel.Prelude.{
  ℕ, zero, suc, ◌≡◌, ◌↔◌, Bool, true, Option, none, some, List, [], ◌∷◌, Eq, codes_eq, list_beq,
  list_beq_iff, codes,
}
use clawsembly_kernel.Prelude.JsMap
use clawsembly_kernel.JsText.{Text}
use clawsembly_kernel.Opfs.{
  not_found, Result, ok, err, ◌>>=◌, ◌>>◌, validate_segment, SnapshotManifest,
}

abbrev pub Bytes : Type 0
Bytes = List ℕ

abbrev pub DiskPath : Type 0
DiskPath = List Text

abbrev pub Disk : Type 0
Disk = List (DiskPath × Bytes)

pub names_beq : DiskPath → DiskPath → Bool
names_beq = list_beq

pub names_beq_iff : (p q : DiskPath) → (names_beq p q ≡ true) ↔ (p ≡ q)
unfolding names_beq
names_beq_iff p q = list_beq_iff p q

instance abbrev pub names_eq : Eq DiskPath
names_eq = record { beq = names_beq; beq_iff = names_beq_iff }

-- `getDirectoryHandle` and `getFileHandle` from a handle, by the path to it.
abbrev pub Handle : Type 0
Handle = DiskPath → Option Bytes

abbrev pub root_handle : Disk → Handle
root_handle disk path = JsMap.get path disk

unfoldable pub get_directory : Handle → Text → Result Handle
get_directory parent name = do validate_segment name; ok (λ path. parent (name ∷ path))

unfoldable pub get_nested_directory : Handle → List Text → Result Handle
get_nested_directory parent [] = ok parent
get_nested_directory parent (name ∷ names) = do
  current ← get_directory parent name
  get_nested_directory current names

abbrev pub found : Option Bytes → Result Bytes
found none = err not_found
found (some bytes) = ok bytes

unfoldable pub read_file : Handle → Text → Result Bytes
read_file directory name = do validate_segment name; found (directory (name ∷ []))

-- `createWritable`, `write`, `close`: the file is replaced when it is closed.
unfoldable pub apply_writes : List (DiskPath × Bytes) → Disk → Disk
apply_writes [] disk = disk
apply_writes ((path, bytes) ∷ writes) disk = apply_writes writes (JsMap.set path bytes disk)

-- `writeFile` that throws once it has its handle: `getFileHandle` with `create` leaves an empty file
-- where there was none, and `abort` keeps a file that was there.
unfoldable pub fail_write : DiskPath → Disk → Disk
fail_write path disk = elim (JsMap.get path disk) [
  | none ↦ JsMap.set path [] disk
  | some bytes ↦ disk
]

-- The writes up to one that throws, by its place.
unfoldable pub interrupted : ℕ → List (DiskPath × Bytes) → Disk → Disk
interrupted k [] disk = disk
interrupted zero ((path, bytes) ∷ writes) disk = fail_write path disk
interrupted (suc k) ((path, bytes) ∷ writes) disk = interrupted k writes (JsMap.set path bytes disk)

pub record SnapshotHead : Type 0 where
  pub generation_id : Text
  pub manifest_sha256 : Text
  pub schema_version : ℕ

-- The platform: `JSON` with the text encoder and decoder, at the two records that are stored, the
-- SHA-256 digest in hexadecimal, and the sorting of directories by depth and `localeCompare`.
pub record Platform : Type 0 where
  pub head_bytes : SnapshotHead → Bytes
  pub parse_head : Bytes → Option SnapshotHead
  pub manifest_bytes : SnapshotManifest → Bytes
  pub parse_manifest : Bytes → Option SnapshotManifest
  pub sha256 : Bytes → Text
  pub by_depth : List Text → List Text

abbrev pub store_root : Text
store_root = codes "clawsembly-kernel"

abbrev pub stores_directory : Text
stores_directory = codes "directory-stores"

abbrev pub generations_directory : Text
generations_directory = codes "generations"

abbrev pub payload_directory : Text
payload_directory = codes "payload"

abbrev pub head_filename : Text
head_filename = codes "HEAD.json"

abbrev pub manifest_filename : Text
manifest_filename = codes "manifest.json"

abbrev pub head_path : Text → DiskPath
head_path store_id = store_root ∷ stores_directory ∷ store_id ∷ head_filename ∷ []

abbrev pub generation_path : Text → Text → DiskPath → DiskPath
generation_path store_id generation_id rest =
    store_root ∷ stores_directory ∷ store_id ∷ generations_directory ∷ generation_id ∷ rest
