-- ===== src/FsImage/Tests.antt =====
-- Tests of the package image's reader, at an image of two files.
use clawsembly_kernel.Prelude.{
  ◌≡◌, ◌≤◌, refl, some, List, [], ◌∷◌, arith, length, codes, any, list_beq,
}
use clawsembly_kernel.JsText.{starts_with, ends_with, includes, split}
use clawsembly_kernel.FsImage.{
  max_files, max_safe, ok, FsImage, validate_path, is_valid_form, is_unsafe_segment,
  parse_clawsembly_fs,
}
use clawsembly_kernel.FsImage.Writer.{FileSource, write_be, write_file, write_files, write_image}
use clawsembly_kernel.FsImage.RoundTrip.{IsWritable, contents, total, parse-write_image}
use clawsembly_kernel.FsImage.Sound.{IsLoaded, parse-IsLoaded}

abbrev first_file : FileSource
first_file = record {
  path = codes "/bin/a.js";
  path_bytes = codes "/bin/a.js";
  mode = 420;
  content = 1 ∷ 2 ∷ 3 ∷ [];
}

abbrev second_file : FileSource
second_file = record { path = codes "/b"; path_bytes = codes "/b"; mode = 493; content = [] }

abbrev two_files : List FileSource
two_files = first_file ∷ second_file ∷ []

first_file-IsWritable : IsWritable some first_file
unfolding validate_path is_valid_form is_unsafe_segment any split starts_with ends_with includes
    list_beq
first_file-IsWritable = record {
  decodes = refl;
  valid = refl;
  named = omega arith;
  short = omega arith;
}

second_file-IsWritable : IsWritable some second_file
unfolding validate_path is_valid_form is_unsafe_segment any split starts_with ends_with includes
    list_beq
second_file-IsWritable = record {
  decodes = refl;
  valid = refl;
  named = omega arith;
  short = omega arith;
}

small : length (write_image two_files) ≤ max_safe
unfolding write_image write_files write_file write_be
small = omega arith

parse-write_image_example :
    parse_clawsembly_fs some (write_image two_files)
    ≡ ok (record {
      files = contents two_files;
      file_count = length two_files;
      payload_bytes = total two_files;
      version = 1;
    })
parse-write_image_example =
    parse-write_image some two_files (first_file-IsWritable, (second_file-IsWritable, tt))
      (((λ e. cc), tt), (tt, tt)) (omega arith) small

abbrev image : FsImage
image = record { files = contents two_files; file_count = 2; payload_bytes = 3; version = 1 }

parse-IsLoaded_example :
    IsLoaded
      (write_image two_files)
      image.file_count
      (length (write_image two_files))
      image.files
      image.payload_bytes
    × (image.version ≡ 1)
    × (image.file_count ≤ max_files)
parse-IsLoaded_example = parse-IsLoaded some (write_image two_files) image parse-write_image_example
