-- ===== src/S3/Checksum/Names.antt =====
-- The option names are read back, in any case of letters.
use ngs3fs.Prelude.{ℕ, [], ◌∷◌, some, length, ◌≡◌, refl, arith, ap, sym, ◌∙◌, suc}
use ngs3fs.S3.Text.{Text, to_lower}
use ngs3fs.S3.Checksum.{
  Algorithm, auto, protocol_default, no_checksum, crc32, crc32c, crc64nvme, sha1, sha256, md5,
  xxhash64, xxhash3, xxhash128, sha512, crc64xz, Names, values, equal_loop, ascii_equal_ignore_case,
  find_name, parse_checksum_algorithm, checksum_option_name,
}

to_lower-to_lower : (c : ℕ) → to_lower (to_lower c) ≡ to_lower c
unfolding to_lower
to_lower-to_lower c = ground arith

-- Each letter in lower case.
unfoldable pub lower_text : Text → Text
lower_text [] = []
lower_text (c ∷ cs) = to_lower c ∷ lower_text cs

equal_loop-lower : (s t : Text) → equal_loop (lower_text s) t ≡ equal_loop s t
unfolding equal_loop lower_text
equal_loop-lower [] [] = refl
equal_loop-lower [] (d ∷ ds) = refl
equal_loop-lower (c ∷ cs) [] = refl
equal_loop-lower (c ∷ cs) (d ∷ ds) = rw (to_lower-to_lower c, equal_loop-lower cs ds)

length-lower : (s : Text) → length (lower_text s) ≡ length s
unfolding lower_text
length-lower [] = refl
length-lower (c ∷ cs) = ap suc (length-lower cs)

find_name-lower : (names : Names) (s : Text) → find_name names (lower_text s) ≡ find_name names s
unfolding find_name ascii_equal_ignore_case
find_name-lower [] s = refl
find_name-lower ((name, value) ∷ rest) s =
    rw (length-lower s, equal_loop-lower s name, find_name-lower rest s)

parse-option_name : (a : Algorithm) → parse_checksum_algorithm (checksum_option_name a) ≡ some a
unfolding parse_checksum_algorithm checksum_option_name find_name ascii_equal_ignore_case equal_loop
    to_lower
parse-option_name auto = refl
parse-option_name protocol_default = refl
parse-option_name no_checksum = refl
parse-option_name crc32 = refl
parse-option_name crc32c = refl
parse-option_name crc64nvme = refl
parse-option_name sha1 = refl
parse-option_name sha256 = refl
parse-option_name md5 = refl
parse-option_name xxhash64 = refl
parse-option_name xxhash3 = refl
parse-option_name xxhash128 = refl
parse-option_name sha512 = refl
parse-option_name crc64xz = refl

-- A text that is an algorithm's option name but for the case of its letters is read as that
-- algorithm.
pub parse_checksum_algorithm-option_name :
    (a : Algorithm) (text : Text)
    → lower_text text ≡ checksum_option_name a
    → parse_checksum_algorithm text ≡ some a
unfolding parse_checksum_algorithm
parse_checksum_algorithm-option_name a text h =
    sym (find_name-lower values text) ∙ ap (find_name values) h ∙ parse-option_name a
