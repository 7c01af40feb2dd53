-- ===== src/FsImage/Sound.antt =====
-- src/clawsemblyfs.ts: what is known of an image that the reader accepts.
use clawsembly_kernel.Prelude.{
  ℕ, zero, suc, ◌+◌, ◌*◌, ◌≤◌, ◌≡◌, ◌≢◌, refl, ◌∙◌, ap, sym, subst, true, false, not, Option, List,
  [], ◌∷◌, ◌++◌, arith, length, length-append, length-take, length-drop, drop, leb, All, any, codes,
  ◌==◌, codes_eq, nat_eq,
}
use clawsembly_kernel.JsText.{Text, starts_with, includes, split, join, slice_1}
use clawsembly_kernel.JsText.Laws.{split-All, join-split}
use clawsembly_kernel.FsImage.{
  Bytes, magic, max_files, subarray, get_uint32, get_uint64, FsError, Result, ok, err, ◌>>=◌, guard,
  require_bytes, is_valid_form, is_unsafe_segment, validate_path, has_path, Entry, FsImage, decoded,
  is_path_length, is_content_length, read_entry, read_entries, parse_clawsembly_fs,
}

-- A part of a path that names a file or a directory below, and nothing else.
abbrev pub IsSafeSegment : Text → Type 0
IsSafeSegment s = (s ≢ []) × (s ≢ codes ".") × (s ≢ codes "..") × (includes b'/' s ≡ false)

-- An absolute path of safe segments, without a NUL or a backslash.
pub record IsSafePath (p : Text) : Type 0 where
  pub segments : List Text
  pub shape : p ≡ b'/' ∷ join b'/' segments
  pub safe : All IsSafeSegment segments
  pub no_nul : includes 0 p ≡ false
  pub no_backslash : includes 92 p ≡ false

segments_safe :
    (parts : List Text)
    → any is_unsafe_segment parts ≡ false
    → All (λ part. includes b'/' part ≡ false) parts
    → All IsSafeSegment parts
unfolding any is_unsafe_segment
segments_safe [] e h = tt
segments_safe (part ∷ parts) e (here, later) =
    (segment part here (ground arith), segments_safe parts (ground arith) later)
  where
    segment :
        (part : Text)
        → includes b'/' part ≡ false
        → is_unsafe_segment part ≡ false
        → IsSafeSegment part
    segment part here e = (
      λ q. ground (arith, codes_eq.beq_iff part []),
      λ q. ground (arith, codes_eq.beq_iff part (codes ".")),
      λ q. ground (arith, codes_eq.beq_iff part (codes "..")),
      here,
    )

slash_first : (p : Text) → starts_with b'/' p ≡ true → p ≡ b'/' ∷ slice_1 p
unfolding starts_with
slash_first [] e = cc
slash_first (x ∷ p) e = ap (λ (c : ℕ). c ∷ p) ((nat_eq.beq_iff x b'/').0 e)

pub validate_path-IsSafePath : (p : Text) → validate_path p ≡ ok tt → IsSafePath p
unfolding validate_path is_valid_form
validate_path-IsSafePath p e = record {
  segments = split b'/' (slice_1 p);
  shape = slash_first p (ground arith) ∙ ap (λ t. b'/' ∷ t) (sym (join-split b'/' (slice_1 p)));
  safe = segments_safe (split b'/' (slice_1 p)) (ground arith) (split-All b'/' (slice_1 p));
  no_nul = ground arith;
  no_backslash = ground arith;
}

ok_of_bind {ℓ κ} :
    {B : Type κ} {A : Type ℓ} {b : B} (first : Result A) (next : A → Result B)
    (result : (first >>= next) ≡ ok b)
    → (value : A) × (first ≡ ok value) × (next value ≡ ok b)
ok_of_bind (err reason) next result = cc
ok_of_bind (ok value) next result = (value, refl, result)

-- What is known of a file that was read.
pub record IsRead (bytes : Bytes) (offset : ℕ) (entry : Entry) : Type 0 where
  pub safe : IsSafePath entry.path
  pub next : offset + 16 + length entry.content ≤ entry.next
  pub inside : entry.next ≤ length bytes

length-subarray :
    (bytes : Bytes) (offset n : ℕ)
    → require_bytes bytes offset n ≡ ok tt
    → (offset + n ≤ length bytes) × (length (subarray bytes offset n) ≡ n)
unfolding require_bytes subarray
length-subarray bytes offset n e =
    let fits : offset + n ≤ length bytes = ground arith in
    (fits, length-take n (drop offset bytes) (omega (arith, length-drop offset bytes)))

read_entry-IsRead :
    (decode : Bytes → Option Text) (bytes : Bytes) (offset : ℕ) (entry : Entry)
    → read_entry decode bytes offset ≡ ok entry
    → IsRead bytes offset entry
unfolding read_entry
read_entry-IsRead decode bytes offset entry e =
    let plen = get_uint32 bytes offset in
    let clen = get_uint64 bytes (offset + 8) in
    let (_, q1, e1) = ok_of_bind (require_bytes bytes offset 16) _ e in
    let (_, q2, e2) = ok_of_bind (guard (is_path_length plen) FsError.invalid_path_length) _ e1 in
    let (_, q3, e3) = ok_of_bind (guard (is_content_length clen) FsError.too_large) _ e2 in
    let (_, q4, e4) = ok_of_bind (require_bytes bytes (offset + 16) plen) _ e3 in
    let (path, q5, e5) = ok_of_bind (decoded (decode (subarray bytes (offset + 16) plen))) _ e4 in
    let (_, q6, e6) = ok_of_bind (validate_path path) _ e5 in
    let (_, q7, e7) = ok_of_bind (require_bytes bytes (offset + 16 + plen) clen) _ e6 in
    let (fits, size) = length-subarray bytes (offset + 16 + plen) clen q7 in
    let found : Entry = record {
      path = path;
      content = subarray bytes (offset + 16 + plen) clen;
      next = offset + 16 + plen + clen;
    } in
    let same : found ≡ entry = cc in
    subst (IsRead bytes offset) same (record {
      safe = validate_path-IsSafePath path q6;
      next = omega (arith, size);
      inside = omega (arith, fits);
    })

-- The sum of the sizes of the contents.
abbrev pub total_size : List (Text × Bytes) → ℕ
total_size [] = 0
total_size ((p, content) ∷ files) = length content + total_size files

total_size-append :
    (xs ys : List (Text × Bytes)) → total_size (xs ++ ys) ≡ total_size xs + total_size ys
total_size-append [] ys = omega arith
total_size-append ((p, content) ∷ xs) ys = omega (arith, total_size-append xs ys)

-- No path of the list stands in it twice: none is found before its own entry.
abbrev pub IsUnique : List (Text × Bytes) → Type 0
IsUnique [] = Unit {0}
IsUnique ((p, content) ∷ files) = (has_path p files ≡ false) × IsUnique files

IsUnique-snoc :
    (p : Text) (content : Bytes) (files : List (Text × Bytes))
    → has_path p files ≡ false
    → IsUnique files
    → IsUnique (files ++ (p, content) ∷ [])
unfolding has_path
IsUnique-snoc p content [] h u = (refl, tt)
IsUnique-snoc p content ((q, c) ∷ files) h (here, u) =
    (other files here (ground arith), IsUnique-snoc p content files (ground arith) u)
  where
    other :
        (gs : List (Text × Bytes))
        → has_path q gs ≡ false
        → (q == p) ≡ false
        → has_path q (gs ++ (p, content) ∷ []) ≡ false
    other [] h n = ground (arith, codes_eq.beq_iff p q, codes_eq.beq_iff q p)
    other ((r, d) ∷ gs) h n = ground (arith, other gs)

-- The invariant of the loop, at the state that it has reached.
pub record IsLoaded (bytes : Bytes) (rounds offset : ℕ) (files : List (Text × Bytes)) (payload : ℕ)
    : Type 0 where
  pub safe : All (λ file. IsSafePath file.0) files
  pub unique : IsUnique files
  pub counted : length files ≡ rounds
  pub summed : total_size files ≡ payload
  pub room : 22 + 16 * rounds + payload ≤ offset
  pub inside : offset ≤ length bytes

All-snoc :
    (P : Text × Bytes → Type 0) (x : Text × Bytes) (xs : List (Text × Bytes))
    → All P xs
    → P x
    → All P (xs ++ x ∷ [])
All-snoc P x [] h p = (p, tt)
All-snoc P x (y ∷ xs) (q, h) p = (q, All-snoc P x xs h p)

-- One round.
IsLoaded-step :
    (bytes : Bytes) (rounds offset : ℕ) (files : List (Text × Bytes)) (payload : ℕ) (entry : Entry)
    → IsLoaded bytes rounds offset files payload
    → IsRead bytes offset entry
    → has_path entry.path files ≡ false
    → IsLoaded bytes
        (suc rounds)
        entry.next
        (files ++ (entry.path, entry.content) ∷ [])
        (payload + length entry.content)
IsLoaded-step bytes rounds offset files payload entry v r fresh = record {
  safe = All-snoc _ (entry.path, entry.content) files v.safe r.safe;
  unique = IsUnique-snoc entry.path entry.content files fresh v.unique;
  counted = omega (arith, length-append files ((entry.path, entry.content) ∷ []), v.counted);
  summed = omega (arith, total_size-append files ((entry.path, entry.content) ∷ []), v.summed);
  room = omega (arith, v.room, r.next);
  inside = r.inside;
}

read_entries-IsLoaded :
    (decode : Bytes → Option Text) (bytes : Bytes) (left done offset : ℕ)
    (files : List (Text × Bytes)) (payload : ℕ) (r : ℕ × List (Text × Bytes) × ℕ)
    → read_entries decode left bytes offset files payload ≡ ok r
    → IsLoaded bytes done offset files payload
    → IsLoaded bytes (done + left) r.0 r.1 r.2
unfolding read_entries
read_entries-IsLoaded decode bytes zero done offset files payload (o, fs, p) e v =
    let count : done ≡ done + 0 = omega arith in
    let reached : ◌≡◌ {A = ℕ × List (Text × Bytes) × ℕ} (offset, files, payload) (o, fs, p) = cc in
    rw (← count) (subst (λ r. IsLoaded bytes done r.0 r.1 r.2) reached v)
read_entries-IsLoaded decode bytes (suc left) done offset files payload r e v =
    let (entry, q1, e1) = ok_of_bind (read_entry decode bytes offset) _ e in
    let (_, q2, e2) =
      ok_of_bind (guard (not (has_path entry.path files)) FsError.duplicate_path) _ e1 in
    let count : suc done + left ≡ done + suc left = omega arith in
    subst (λ n. IsLoaded bytes n r.0 r.1 r.2) count
      (read_entries-IsLoaded decode bytes left (suc done) entry.next _ _ r e2 (
        IsLoaded-step bytes done offset files payload entry v
          (read_entry-IsRead decode bytes offset entry q1) (ground arith)))

-- Whatever bytes the reader accepts, the image has version 1, at most 100,000 files, as many as it
-- counts; each path is absolute, of segments that are not empty, "." or "..", with no NUL and no
-- backslash; no path occurs twice; the payload is the sum of the contents; and the bytes have room
-- for the preamble, a header for each file and all contents.
pub parse-IsLoaded :
    (decode : Bytes → Option Text) (bytes : Bytes) (image : FsImage)
    → parse_clawsembly_fs decode bytes ≡ ok image
    → IsLoaded bytes image.file_count (length bytes) image.files image.payload_bytes
      × (image.version ≡ 1)
      × (image.file_count ≤ max_files)
unfolding parse_clawsembly_fs
parse-IsLoaded decode bytes image e =
    let version = get_uint32 bytes 14 in
    let count = get_uint32 bytes 18 in
    let (_, q1, e1) = ok_of_bind (require_bytes bytes 0 22) _ e in
    let (_, q2, e2) =
      ok_of_bind (guard (subarray bytes 0 14 == magic) FsError.invalid_magic) _ e1 in
    let (_, q3, e3) = ok_of_bind (guard (version == 1) FsError.unsupported_version) _ e2 in
    let (_, q4, e4) = ok_of_bind (guard (leb count max_files) FsError.too_many_files) _ e3 in
    let (r, q5, e5) = ok_of_bind (read_entries decode count bytes 22 [] 0) _ e4 in
    let (_, q6, e6) = ok_of_bind (guard (r.0 == length bytes) FsError.trailing_bytes) _ e5 in
    let loaded = read_entries-IsLoaded decode bytes count 0 22 [] 0 r q5 (first q1) in
    let found : FsImage = record {
      files = r.1;
      file_count = count;
      payload_bytes = r.2;
      version = version;
    } in
    let same : found ≡ image = cc in
    let whole : r.0 ≡ length bytes = (nat_eq.beq_iff r.0 (length bytes)).0 (ground arith) in
    let counted : 0 + count ≡ count = omega arith in
    subst
      (λ i.
        IsLoaded bytes i.file_count (length bytes) i.files i.payload_bytes
        × (i.version ≡ 1)
        × (i.file_count ≤ max_files))
      same
      (
        rw (← whole) (subst (λ n. IsLoaded bytes n r.0 r.1 r.2) counted loaded),
        ground arith,
        ground arith,
      )
  where
    first : require_bytes bytes 0 22 ≡ ok tt → IsLoaded bytes 0 22 [] 0
    first q = record {
      safe = tt;
      unique = tt;
      counted = refl;
      summed = refl;
      room = omega arith;
      inside = omega (arith, (length-subarray bytes 0 22 q).0);
    }
