-- ===== src/S3/Combine.antt =====
-- The CRC-64 of a text from those of its two halves (src/s3.cpp, `gf2_matrix_times` to
-- `combine_crc64`, and what `DataChecksum` does for the two CRC-64s). A matrix is a function of the
-- index.
pub mod Matrix
pub mod Rounds
pub mod Whole
mod Tests
use ngs3fs.Prelude.{
  ℕ, zero, suc, ◌+◌, ◌-◌, ◌/◌, ◌%◌, ◌^◌, ◌==◌, if◌then◌else◌, List, Option, none, some, word,
}
use ngs3fs.Prelude.Xor.{◌⊻◌}
use ngs3fs.S3.Checksum.{
  Algorithm, auto, protocol_default, no_checksum, crc32, crc32c, crc64nvme, sha1, sha256, md5,
  xxhash64, xxhash3, xxhash128, sha512, crc64xz,
}
use ngs3fs.S3.Crc.{update_crc64}

-- `while (vector != 0)`, one round for each of the 64 bits at most.
unfoldable pub times_loop : ℕ → (ℕ → ℕ) → ℕ → ℕ → ℕ → ℕ
times_loop zero matrix vector bit sum = sum
times_loop (suc fuel) matrix vector bit sum =
    let rest =
      times_loop fuel matrix (vector / 2) (bit + 1)
        (if vector % 2 == 1 then sum ⊻ matrix bit else sum) in
    if vector == 0 then sum else rest

unfoldable pub gf2_matrix_times : (ℕ → ℕ) → ℕ → ℕ
gf2_matrix_times matrix vector = times_loop 64 matrix vector 0 0

unfoldable pub gf2_matrix_square : (ℕ → ℕ) → ℕ → ℕ
gf2_matrix_square matrix bit = gf2_matrix_times matrix (matrix bit)

-- The rows of `odd` before the first square.
unfoldable pub first_rows : ℕ → ℕ → ℕ
first_rows polynomial zero = polynomial
first_rows polynomial (suc bit) = 2 ^ bit

-- The loop of `combine_crc64`: each round takes two bits of the length, so 32 are enough.
unfoldable pub combine_rounds : ℕ → (ℕ → ℕ) → ℕ → ℕ → ℕ
combine_rounds zero odd first second_length = first
combine_rounds (suc fuel) odd first second_length =
    let even = gf2_matrix_square odd in
    let first' = (if second_length % 2 == 1 then gf2_matrix_times even first else first) in
    let half = second_length / 2 in
    let odd' = gf2_matrix_square even in
    let first'' = (if half % 2 == 1 then gf2_matrix_times odd' first' else first') in
    let rest = combine_rounds fuel odd' first'' (half / 2) in
    if half == 0 then first' else if half / 2 == 0 then first'' else rest

unfoldable pub crc64_polynomial : Algorithm → Option ℕ
crc64_polynomial crc64nvme = some 0x9a6c9329ac4bc9b5
crc64_polynomial crc64xz = some 0xc96c5795d7870f42
crc64_polynomial auto = none
crc64_polynomial protocol_default = none
crc64_polynomial no_checksum = none
crc64_polynomial crc32 = none
crc64_polynomial crc32c = none
crc64_polynomial sha1 = none
crc64_polynomial sha256 = none
crc64_polynomial md5 = none
crc64_polynomial xxhash64 = none
crc64_polynomial xxhash3 = none
crc64_polynomial xxhash128 = none
crc64_polynomial sha512 = none

unfoldable pub combine_with : Option ℕ → ℕ → ℕ → ℕ → Option ℕ
combine_with none first second second_length = none
combine_with (some polynomial) first second second_length = some (
    combine_rounds 32 (gf2_matrix_square (gf2_matrix_square (first_rows polynomial))) first
      second_length
    ⊻ second)

-- `none`: std::invalid_argument.
unfoldable pub combine_crc64 : Algorithm → ℕ → ℕ → ℕ → Option ℕ
combine_crc64 algorithm first second second_length =
    if second_length == 0
    then some first
    else combine_with (crc64_polynomial algorithm) first second second_length

-- What a `DataChecksum` of the polynomial returns for the bytes: it begins with UINT64_MAX, and
-- `finish` takes the complement.
unfoldable pub data_crc64 : ℕ → List ℕ → ℕ
data_crc64 polynomial bytes = update_crc64 polynomial (word - 1) bytes ⊻ (word - 1)
