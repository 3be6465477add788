-- ===== src/S3/Checksum.antt =====
-- The names of the checksum algorithms (src/s3.cpp, `ascii_equal_ignore_case` to
-- `checksum_header_name`).
pub mod Names
use ngs3fs.Prelude.{
  ℕ, Bool, true, false, ◌||◌, ◌&&◌, ◌==◌, not, if◌then◌else◌, List, [], ◌∷◌, Option, none, some,
  length,
}
use ngs3fs.S3.Text.{Text, bytes, to_lower}

-- `ChecksumAlgorithm`
pub data Algorithm : Type 0 where
  auto protocol_default no_checksum crc32 crc32c crc64nvme sha1 sha256 md5 : Algorithm
  xxhash64 xxhash3 xxhash128 sha512 crc64xz : Algorithm

unfoldable pub equal_loop : Text → Text → Bool
equal_loop [] [] = true
equal_loop [] (d ∷ ds) = false
equal_loop (c ∷ cs) [] = false
equal_loop (c ∷ cs) (d ∷ ds) = to_lower c == to_lower d && equal_loop cs ds

unfoldable pub ascii_equal_ignore_case : Text → Text → Bool
ascii_equal_ignore_case first second =
    if not (length first == length second) then false else equal_loop first second

abbrev pub Names : Type 0
Names = List (Text × Algorithm)

-- `values`
abbrev pub values : Names
values =
    (bytes "auto", auto)
    ∷ (bytes "default", protocol_default)
    ∷ (bytes "protocol-default", protocol_default)
    ∷ (bytes "none", no_checksum)
    ∷ (bytes "crc32", crc32)
    ∷ (bytes "crc32c", crc32c)
    ∷ (bytes "crc64nvme", crc64nvme)
    ∷ (bytes "sha1", sha1)
    ∷ (bytes "sha256", sha256)
    ∷ (bytes "md5", md5)
    ∷ (bytes "xxhash64", xxhash64)
    ∷ (bytes "xxhash3", xxhash3)
    ∷ (bytes "xxhash128", xxhash128)
    ∷ (bytes "sha512", sha512)
    ∷ (bytes "crc64xz", crc64xz)
    ∷ (bytes "crc64-xz", crc64xz)
    ∷ (bytes "oss-crc64", crc64xz)
    ∷ []

unfoldable pub find_name : Names → Text → Option Algorithm
find_name [] text = none
find_name ((name, value) ∷ rest) text =
    if ascii_equal_ignore_case text name then some value else find_name rest text

-- `none`: the function returns false.
unfoldable pub parse_checksum_algorithm : Text → Option Algorithm
parse_checksum_algorithm text = find_name values text

unfoldable pub checksum_option_name : Algorithm → Text
checksum_option_name auto = bytes "auto"
checksum_option_name protocol_default = bytes "default"
checksum_option_name no_checksum = bytes "none"
checksum_option_name crc32 = bytes "crc32"
checksum_option_name crc32c = bytes "crc32c"
checksum_option_name crc64nvme = bytes "crc64nvme"
checksum_option_name sha1 = bytes "sha1"
checksum_option_name sha256 = bytes "sha256"
checksum_option_name md5 = bytes "md5"
checksum_option_name xxhash64 = bytes "xxhash64"
checksum_option_name xxhash3 = bytes "xxhash3"
checksum_option_name xxhash128 = bytes "xxhash128"
checksum_option_name sha512 = bytes "sha512"
checksum_option_name crc64xz = bytes "crc64xz"

unfoldable pub checksum_s3_name : Algorithm → Text
checksum_s3_name auto = []
checksum_s3_name protocol_default = []
checksum_s3_name no_checksum = []
checksum_s3_name crc32 = bytes "CRC32"
checksum_s3_name crc32c = bytes "CRC32C"
checksum_s3_name crc64nvme = bytes "CRC64NVME"
checksum_s3_name sha1 = bytes "SHA1"
checksum_s3_name sha256 = bytes "SHA256"
checksum_s3_name md5 = bytes "MD5"
checksum_s3_name xxhash64 = bytes "XXHASH64"
checksum_s3_name xxhash3 = bytes "XXHASH3"
checksum_s3_name xxhash128 = bytes "XXHASH128"
checksum_s3_name sha512 = bytes "SHA512"
checksum_s3_name crc64xz = []

unfoldable pub checksum_header_name : Algorithm → Text
checksum_header_name auto = []
checksum_header_name protocol_default = []
checksum_header_name no_checksum = []
checksum_header_name crc32 = bytes "x-amz-checksum-crc32"
checksum_header_name crc32c = bytes "x-amz-checksum-crc32c"
checksum_header_name crc64nvme = bytes "x-amz-checksum-crc64nvme"
checksum_header_name sha1 = bytes "x-amz-checksum-sha1"
checksum_header_name sha256 = bytes "x-amz-checksum-sha256"
checksum_header_name md5 = bytes "x-amz-checksum-md5"
checksum_header_name xxhash64 = bytes "x-amz-checksum-xxhash64"
checksum_header_name xxhash3 = bytes "x-amz-checksum-xxhash3"
checksum_header_name xxhash128 = bytes "x-amz-checksum-xxhash128"
checksum_header_name sha512 = bytes "x-amz-checksum-sha512"
checksum_header_name crc64xz = bytes "x-oss-hash-crc64ecma"
