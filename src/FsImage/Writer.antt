-- ===== src/FsImage/Writer.antt =====
-- The image format as scripts/build-openclaw-package-image.mjs writes it: an independent
-- description of what the reader must accept.
use clawsembly_kernel.Prelude.{
  ℕ, zero, suc, ◌+◌, ◌*◌, ◌/◌, ◌%◌, ◌^◌, ◌<◌, ◌≡◌, refl, ◌∙◌, List, [], ◌∷◌, ◌++◌, arith, length,
  length-append,
}
use native.Mathlib.Nat.{pow-suc}
use clawsembly_kernel.JsText.{Text}
use clawsembly_kernel.FsImage.{Bytes, magic, big_endian}

-- `writeUInt32BE`, `writeBigUInt64BE`
unfoldable pub write_be : ℕ → ℕ → Bytes
write_be zero n = []
write_be (suc width) n = write_be width (n / 256) ++ (n % 256) ∷ []

-- A file of the image: its path as bytes and as text, its mode and its content.
pub record FileSource : Type 0 where
  pub path : Text
  pub path_bytes : Bytes
  pub mode : ℕ
  pub content : Bytes

unfoldable pub write_file : FileSource → Bytes
write_file f =
    write_be 4 (length f.path_bytes)
    ++ (write_be 4 f.mode ++ (write_be 8 (length f.content) ++ (f.path_bytes ++ f.content)))

unfoldable pub write_files : List FileSource → Bytes
write_files [] = []
write_files (f ∷ fs) = write_file f ++ write_files fs

unfoldable pub write_image : List FileSource → Bytes
write_image fs = magic ++ (write_be 4 1 ++ (write_be 4 (length fs) ++ write_files fs))

pub length-write_be : (width n : ℕ) → length (write_be width n) ≡ width
unfolding write_be
length-write_be zero n = refl
length-write_be (suc width) n = omega (
  arith,
  length-append (write_be width (n / 256)) ((n % 256) ∷ []),
  length-write_be width (n / 256),
)

big_endian-append :
    (acc : ℕ) (xs ys : Bytes) → big_endian acc (xs ++ ys) ≡ big_endian (big_endian acc xs) ys
unfolding big_endian
big_endian-append acc [] ys = refl
big_endian-append acc (x ∷ xs) ys = big_endian-append (acc * 256 + x) xs ys

-- A number that fits is read back.
pub big_endian-write_be : (width n : ℕ) → n < 256 ^ width → big_endian 0 (write_be width n) ≡ n
unfolding write_be big_endian
big_endian-write_be zero n h = omega arith
big_endian-write_be (suc width) n h =
    big_endian-append 0 (write_be width (n / 256)) ((n % 256) ∷ [])
    ∙ omega (arith, big_endian-write_be width (n / 256) (omega (arith, pow-suc 256 width)))
