-- ===== src/FsImage/RoundTrip.antt =====
-- src/clawsemblyfs.ts: reading what the image builder wrote.
use Prim.Native.Nat.add
use native.Mathlib.Nat.{add_assoc}
use clawsembly_kernel.Prelude.{
  ℕ, zero, suc, ◌+◌, ◌<◌, ◌≤◌, ◌≡◌, refl, ◌∙◌, sym, true, false, Option, some, List, [], ◌∷◌, ◌++◌,
  arith, length, length-append, append_assoc, append-nil, drop, take-append, drop-append, leb, ◌==◌,
  ◌≢◌, codes_eq, nat_eq, ==_refl, All,
}
use clawsembly_kernel.JsText.{Text}
use clawsembly_kernel.FsImage.{
  Bytes, magic, max_safe, max_files, max_path_bytes, subarray, get_uint32, get_uint64,
  is_path_length, is_content_length, ok, require_bytes, validate_path, has_path, read_entry,
  read_entries, parse_clawsembly_fs,
}
use clawsembly_kernel.FsImage.Writer.{
  write_be, FileSource, write_file, write_files, write_image, length-write_be, big_endian-write_be,
}

-- `rest` is what the bytes hold from the offset on.
pub record At (bytes : Bytes) (offset : ℕ) (rest : Bytes) : Type 0 where
  pub suffix : drop offset bytes ≡ rest
  pub size : offset + length rest ≡ length bytes

pub At-start : (bytes : Bytes) → At bytes 0 bytes
At-start bytes = record { suffix = refl; size = omega arith }

drop-add : (n : ℕ) (xs ys rest : Bytes) → drop n xs ≡ ys ++ rest → drop (n + length ys) xs ≡ rest
drop-add zero xs ys rest e = rw (add.zero (length ys), e) (drop-append ys rest)
drop-add (suc n) [] [] rest e = rw (add.suc n 0) e
drop-add (suc n) [] (y ∷ ys) rest e = cc
drop-add (suc n) (x ∷ xs) ys rest e = rw (add.suc n (length ys)) (drop-add n xs ys rest e)

module _ {bytes : Bytes} {offset : ℕ} (xs rest : Bytes) (at : At bytes offset (xs ++ rest)) where
  pub At-next : At bytes (offset + length xs) rest
  At-next = record {
    suffix = drop-add offset bytes xs rest at.suffix;
    size = omega (arith, at.size, length-append xs rest);
  }

  pub At-subarray : {n : ℕ} → length xs ≡ n → subarray bytes offset n ≡ xs
  unfolding subarray
  At-subarray e = rw (← e, at.suffix) (take-append xs rest)

module _ {bytes : Bytes} {offset : ℕ} {rest : Bytes} (at : At bytes offset rest) where
  pub At-require :
      (n : ℕ) → length bytes ≤ max_safe → n ≤ length rest → require_bytes bytes offset n ≡ ok tt
  unfolding require_bytes
  At-require n small fits = ground (arith, at.size)

  pub At-move : {other : ℕ} → offset ≡ other → At bytes other rest
  At-move e = rw e at at

pub At-uint32 :
    {bytes : Bytes} {offset : ℕ} (n : ℕ) (rest : Bytes)
    → At bytes offset (write_be 4 n ++ rest)
    → n < 4294967296
    → get_uint32 bytes offset ≡ n
unfolding get_uint32
At-uint32 n rest at fits =
    rw (At-subarray (write_be 4 n) rest at (length-write_be 4 n)) (big_endian-write_be 4 n fits)

pub At-uint64 :
    {bytes : Bytes} {offset : ℕ} (n : ℕ) (rest : Bytes)
    → At bytes offset (write_be 8 n ++ rest)
    → n < 18446744073709551616
    → get_uint64 bytes offset ≡ n
unfolding get_uint64
At-uint64 n rest at fits =
    rw (At-subarray (write_be 8 n) rest at (length-write_be 8 n)) (big_endian-write_be 8 n fits)

-- What the reader relies on and checks of a file: its path decodes, is valid and short enough, and
-- its numbers fit.
pub record IsWritable (decode : Bytes → Option Text) (f : FileSource) : Type 0 where
  pub decodes : decode f.path_bytes ≡ some f.path
  pub valid : validate_path f.path ≡ ok tt
  pub named : 0 < length f.path_bytes
  pub short : length f.path_bytes ≤ max_path_bytes

-- The content sizes are below the size of the image, which is a safe integer.
module _ (decode : Bytes → Option Text) (bytes : Bytes) (small : length bytes ≤ max_safe) where
  module _ (f : FileSource) (rest : Bytes) (w : IsWritable decode f) (offset : ℕ)
      (at : At bytes offset (write_file f ++ rest)) where
    parts_found : At bytes offset (
        write_be 4 (length f.path_bytes)
        ++ (write_be 4 f.mode
            ++ (write_be 8 (length f.content) ++ (f.path_bytes ++ (f.content ++ rest)))))
    parts_found = unfold write_file in simp append_assoc at at

    sizes : (16 + length f.path_bytes + length f.content + length rest + offset ≡ length bytes)
    sizes = omega (
      arith,
      parts_found.size,
      length-append (write_be 4 (length f.path_bytes)) (
          write_be 4 f.mode
          ++ (write_be 8 (length f.content) ++ (f.path_bytes ++ (f.content ++ rest)))),
      length-append (write_be 4 f.mode)
          (write_be 8 (length f.content) ++ (f.path_bytes ++ (f.content ++ rest))),
      length-append (write_be 8 (length f.content)) (f.path_bytes ++ (f.content ++ rest)),
      length-append f.path_bytes (f.content ++ rest),
      length-append f.content rest,
      length-write_be 4 (length f.path_bytes),
      length-write_be 4 f.mode,
      length-write_be 8 (length f.content),
    )

    mode_found : At bytes (offset + 4) (
        write_be 4 f.mode
        ++ (write_be 8 (length f.content) ++ (f.path_bytes ++ (f.content ++ rest))))
    mode_found =
        At-move (At-next (write_be 4 (length f.path_bytes)) _ parts_found)
          (omega (arith, length-write_be 4 (length f.path_bytes)))

    size_found :
        At bytes
          (offset + 8)
          (write_be 8 (length f.content) ++ (f.path_bytes ++ (f.content ++ rest)))
    size_found =
        At-move (At-next (write_be 4 f.mode) _ mode_found) (omega (arith, length-write_be 4 f.mode))

    path_found : At bytes (offset + 16) (f.path_bytes ++ (f.content ++ rest))
    path_found =
        At-move (At-next (write_be 8 (length f.content)) _ size_found)
          (omega (arith, length-write_be 8 (length f.content)))

    content_found : At bytes (offset + 16 + length f.path_bytes) (f.content ++ rest)
    content_found = At-next f.path_bytes (f.content ++ rest) path_found

    pub rest_found : At bytes (offset + 16 + length f.path_bytes + length f.content) rest
    rest_found = At-next f.content rest content_found

    read_entry_lem :
        read_entry decode bytes offset
        ≡ ok (record {
          path = f.path;
          content = f.content;
          next = offset + 16 + length f.path_bytes + length f.content;
        })
    unfolding read_entry
    read_entry_lem = simp (
      At-require parts_found 16 small (omega (arith, sizes, parts_found.size)),
      At-uint32 (length f.path_bytes) _ parts_found (omega (arith, w.short)),
      At-uint64 (length f.content) _ size_found (omega (arith, sizes)),
      path_fits,
      content_fits,
      At-require path_found (length f.path_bytes) small (omega (arith, sizes, path_found.size)),
      At-subarray f.path_bytes _ path_found refl,
      w.decodes,
      w.valid,
      At-require content_found (length f.content) small (omega (arith, sizes, content_found.size)),
      At-subarray f.content rest content_found refl,
    )
      where
        path_fits : is_path_length (length f.path_bytes) ≡ true
        path_fits = unfold is_path_length in ground (arith, w.named, w.short)

        content_fits : is_content_length (length f.content) ≡ true
        content_fits = unfold is_content_length in ground (arith, sizes)

abbrev pub contents : List FileSource → List (Text × Bytes)
contents [] = []
contents (f ∷ fs) = (f.path, f.content) ∷ contents fs

abbrev pub total : List FileSource → ℕ
total [] = 0
total (f ∷ fs) = length f.content + total fs

abbrev pub IsDistinct : List FileSource → Type 0
IsDistinct [] = Unit
IsDistinct (f ∷ fs) = All (λ g. f.path ≢ g.path) fs × IsDistinct fs

has_path-append :
    (p q : Text) (content : Bytes) (files : List (Text × Bytes))
    → has_path p files ≡ false
    → q ≢ p
    → has_path p (files ++ (q, content) ∷ []) ≡ false
unfolding has_path
has_path-append p q content [] h n = ground (arith, codes_eq.beq_iff q p)
has_path-append p q content ((r, c) ∷ files) h n =
    ground (arith, has_path-append p q content files, codes_eq.beq_iff r p)

fresh_after :
    (f : FileSource) (fs : List FileSource) (files : List (Text × Bytes))
    → All (λ g. f.path ≢ g.path) fs
    → All (λ g. has_path g.path files ≡ false) fs
    → All (λ g. has_path g.path (files ++ (f.path, f.content) ∷ []) ≡ false) fs
fresh_after f [] files n h = tt
fresh_after f (g ∷ fs) files n h =
    (has_path-append g.path f.path f.content files h.0 n.0, fresh_after f fs files n.1 h.1)

module _ (decode : Bytes → Option Text) (bytes : Bytes) (small : length bytes ≤ max_safe) where
  read_entries_lem :
      (fs : List FileSource) (offset : ℕ) (files : List (Text × Bytes)) (payload : ℕ)
      → At bytes offset (write_files fs)
      → All (IsWritable decode) fs
      → IsDistinct fs
      → All (λ g. has_path g.path files ≡ false) fs
      → read_entries decode (length fs) bytes offset files payload
        ≡ ok (length bytes, files ++ contents fs, payload + total fs)
  unfolding read_entries write_files
  read_entries_lem [] offset files payload at w d fresh =
      let there : offset ≡ length bytes = omega (arith, at.size) in
      let same : payload ≡ payload + 0 = omega arith in
      λ i. ok (there i, sym (append-nil files) i, same i)
  read_entries_lem (f ∷ fs) offset files payload at (w, ws) (d, ds) (fresh, freshes) =
      let next = offset + 16 + length f.path_bytes + length f.content in
      let later : List (Text × Bytes) = files ++ (f.path, f.content) ∷ [] in
      let rest = rest_found decode bytes small f (write_files fs) w offset at in
      rw (read_entry_lem decode bytes small f (write_files fs) w offset at, fresh)
        (read_entries_lem fs next later (payload + length f.content) rest ws ds
            (fresh_after f fs files d freshes)
          ∙ λ i. ok (
            length bytes,
            append_assoc files ((f.path, f.content) ∷ []) (contents fs) i,
            add_assoc payload (length f.content) (total fs) i,
          ))

-- Reading what the image builder writes gives the files back, in order, with their number and the
-- sum of their sizes: for every list of at most 100,000 files with distinct valid paths of at most
-- 16,384 bytes that decode to them, of any modes and contents, in an image whose size is a safe
-- integer.
pub parse-write_image :
    (decode : Bytes → Option Text) (fs : List FileSource)
    → All (IsWritable decode) fs
    → IsDistinct fs
    → length fs ≤ max_files
    → length (write_image fs) ≤ max_safe
    → parse_clawsembly_fs decode (write_image fs)
      ≡ ok (record {
        files = contents fs;
        file_count = length fs;
        payload_bytes = total fs;
        version = 1;
      })
unfolding parse_clawsembly_fs
parse-write_image decode fs w d few small = simp (
  At-require (At-start bytes) 22 small (omega (arith, sizes)),
  At-subarray magic _ start refl,
  codes_same,
  At-uint32 1 _ at_version (omega arith),
  At-uint32 (length fs) _ at_count (omega (arith, few)),
  count_fits,
  read_entries_lem decode bytes small fs 22 [] 0 at_files w d (none_taken fs),
  ==_refl (length bytes),
  add.zero (total fs),
)
  where
    bytes : Bytes
    bytes = write_image fs

    start : At bytes 0 (magic ++ (write_be 4 1 ++ (write_be 4 (length fs) ++ write_files fs)))
    start = unfold write_image in At-start bytes

    at_version : At bytes 14 (write_be 4 1 ++ (write_be 4 (length fs) ++ write_files fs))
    at_version = At-next magic _ start

    at_count : At bytes 18 (write_be 4 (length fs) ++ write_files fs)
    at_count = At-move (At-next (write_be 4 1) _ at_version) (omega (arith, length-write_be 4 1))

    at_files : At bytes 22 (write_files fs)
    at_files =
        At-move (At-next (write_be 4 (length fs)) _ at_count)
          (omega (arith, length-write_be 4 (length fs)))

    sizes : 22 ≤ length bytes
    sizes = omega (arith, at_files.size)

    count_fits : leb (length fs) max_files ≡ true
    count_fits = ground (arith, few)

    codes_same : (magic == magic) ≡ true
    codes_same = ==_refl magic

    none_taken : (gs : List FileSource) → All (λ g. has_path g.path [] ≡ false) gs
    none_taken [] = tt
    none_taken (g ∷ gs) = (unfold has_path in refl, none_taken gs)
