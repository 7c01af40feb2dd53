-- ===== src/FsImage.antt =====
-- src/clawsemblyfs.ts: the reader of the package image. Offsets are positions in the bytes, as in
-- the source; a byte is a number.
pub mod Writer
pub mod RoundTrip
pub mod Sound
mod Tests
use clawsembly_kernel.Prelude.{
  ℕ, zero, suc, ◌+◌, ◌*◌, ◌^◌, ◌-◌, Bool, true, false, not, ◌&&◌, ◌||◌, Option, none, some, List,
  [], ◌∷◌, ◌++◌, if◌then◌else◌, ◌==◌, nat_eq, codes_eq, list_beq, leb, ltb, length, take, drop, any,
  codes,
}
use clawsembly_kernel.JsText.{Text, starts_with, ends_with, includes, split, slice_1}

abbrev pub Bytes : Type 0
Bytes = List ℕ

pub data FsError : Type 0 where
  truncated invalid_magic unsupported_version too_many_files : FsError
  invalid_path_length too_large invalid_utf8 invalid_path unsafe_path : FsError
  duplicate_path trailing_bytes : FsError

pub data Result {ℓ} (A : Type ℓ) : Type ℓ where
  err : FsError → Result A
  ok : A → Result A

-- `if (!test) throw reason`
abbrev pub guard : (test : Bool) (reason : FsError) → Result (Unit {0})
guard false reason = err reason
guard true reason = ok tt

infixl 5 ◌>>=◌ ◌>>◌
abbrev pub ◌>>=◌ {ℓ κ} : {A : Type ℓ} {B : Type κ} (m : Result A) (next : A → Result B) → Result B
err reason >>= next = err reason
ok value >>= next = next value

abbrev pub ◌>>◌ {ℓ} : {B : Type ℓ} (m : Result (Unit {0})) (next : Result B) → Result B
check >> next = check >>= λ _. next

-- The constants of the source; `MAGIC` is "CLAWSEMBLYFS1\n".
abbrev pub magic : Bytes
magic = codes "CLAWSEMBLYFS1" ++ 10 ∷ []

abbrev pub version_1 : ℕ
version_1 = 1

abbrev pub preamble_bytes : ℕ
preamble_bytes = 22

abbrev pub entry_header_bytes : ℕ
entry_header_bytes = 16

abbrev pub max_files : ℕ
max_files = 100000

abbrev pub max_path_bytes : ℕ
max_path_bytes = 16384

-- `Number.MAX_SAFE_INTEGER`
abbrev pub max_safe : ℕ
max_safe = 9007199254740991

unfoldable pub subarray : Bytes → ℕ → ℕ → Bytes
subarray bytes offset size = take size (drop offset bytes)

-- A big-endian number: `getUint32`, `getBigUint64`.
unfoldable pub big_endian : ℕ → Bytes → ℕ
big_endian acc [] = acc
big_endian acc (b ∷ bytes) = big_endian (acc * 256 + b) bytes

unfoldable pub get_uint32 : Bytes → ℕ → ℕ
unfolding subarray big_endian
get_uint32 bytes offset = big_endian 0 (subarray bytes offset 4)

unfoldable pub get_uint64 : Bytes → ℕ → ℕ
unfolding subarray big_endian
get_uint64 bytes offset = big_endian 0 (subarray bytes offset 8)

unfoldable pub require_bytes : Bytes → ℕ → ℕ → Result (Unit {0})
require_bytes bytes offset size =
    guard (leb offset max_safe && (leb size max_safe && leb (offset + size) (length bytes)))
      truncated

-- `pathLength === 0 || pathLength > MAX_PATH_BYTES` refuses, and a size that is no safe integer.
unfoldable pub is_path_length : ℕ → Bool
is_path_length size = ltb 0 size && leb size max_path_bytes

unfoldable pub is_content_length : ℕ → Bool
is_content_length size = leb size max_safe

unfoldable pub is_unsafe_segment : Text → Bool
is_unsafe_segment segment = segment == [] || (segment == codes "." || segment == codes "..")

unfoldable pub is_valid_form : Text → Bool
is_valid_form value =
    starts_with b'/' value
    && (not (value == codes "/")
        && (not (includes 0 value) && (not (includes 92 value) && not (ends_with b'/' value))))

unfoldable pub validate_path : Text → Result (Unit {0})
validate_path value = do
  guard (is_valid_form value) invalid_path
  guard (not (any is_unsafe_segment (split b'/' (slice_1 value)))) unsafe_path

pub record Entry : Type 0 where
  pub path : Text
  pub content : Bytes
  pub next : ℕ

pub record FsImage : Type 0 where
  pub files : List (Text × Bytes)
  pub file_count : ℕ
  pub payload_bytes : ℕ
  pub version : ℕ

-- `Object.hasOwn(files, path)`
unfoldable pub has_path : Text → List (Text × Bytes) → Bool
has_path path [] = false
has_path path ((p, content) ∷ files) = (p == path) || has_path path files

abbrev pub decoded : Option Text → Result Text
decoded none = err invalid_utf8
decoded (some t) = ok t

-- `new TextDecoder("utf-8", { fatal: true }).decode`, which fails on malformed bytes.
module _ (decode : Bytes → Option Text) where
  -- One round of the loop up to the duplicate test.
  unfoldable pub read_entry : Bytes → ℕ → Result Entry
  read_entry bytes offset = do
    require_bytes bytes offset entry_header_bytes
    let path_length = get_uint32 bytes offset
    let content_length = get_uint64 bytes (offset + 8)
    let path_at = offset + entry_header_bytes
    guard (is_path_length path_length) invalid_path_length
    guard (is_content_length content_length) too_large
    require_bytes bytes path_at path_length
    path ← decoded (decode (subarray bytes path_at path_length))
    validate_path path
    let content_at = path_at + path_length
    require_bytes bytes content_at content_length
    ok (record {
      path = path;
      content = subarray bytes content_at content_length;
      next = content_at + content_length;
    })

  -- The loop; the first argument is the number of rounds left.
  unfoldable pub read_entries :
      ℕ → Bytes → ℕ → List (Text × Bytes) → ℕ → Result (ℕ × List (Text × Bytes) × ℕ)
  read_entries zero bytes offset files payload = ok (offset, files, payload)
  read_entries (suc rounds) bytes offset files payload = do
    entry ← read_entry bytes offset
    guard (not (has_path entry.path files)) duplicate_path
    read_entries rounds bytes entry.next (files ++ (entry.path, entry.content) ∷ [])
        (payload + length entry.content)

  unfoldable pub parse_clawsembly_fs : Bytes → Result FsImage
  parse_clawsembly_fs bytes = do
    require_bytes bytes 0 preamble_bytes
    guard (subarray bytes 0 14 == magic) invalid_magic
    let version = get_uint32 bytes 14
    guard (version == version_1) unsupported_version
    let file_count = get_uint32 bytes 18
    guard (leb file_count max_files) too_many_files
    (offset, files, payload) ← read_entries file_count bytes preamble_bytes [] 0
    guard (offset == length bytes) trailing_bytes
    ok (record {
      files = files;
      file_count = file_count;
      payload_bytes = payload;
      version = version;
    })
