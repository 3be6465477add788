-- ===== src/Fuse/Multipart/Tests.antt =====
-- Three parts of a text, the copy of an object of 2 GiB and a byte, and the theorems at them.
use ngs3fs.Prelude.{◌*◌, ◌<◌, ◌≤◌, ℕ, List, [], ◌∷◌, ◌≡◌, ◌⊎◌, refl, map, some, none, length, arith}
use ngs3fs.S3.Checksum.{crc64xz}
use ngs3fs.S3.Combine.{crc64_polynomial, data_crc64}
use ngs3fs.Fuse.Multipart.{
  combined_multipart_checksum, copy_ranges, copy_parts, part_size, maximum_parts,
}
use ngs3fs.Fuse.Multipart.Checksum.{whole, AllBytes, combined_multipart_checksum-data_crc64}
use ngs3fs.Fuse.Multipart.Copy.{Tiles, copy_ranges-Tiles}

abbrev parts : List (List ℕ)
parts = (3 ∷ 4 ∷ []) ∷ (5 ∷ []) ∷ []

abbrev xz : ℕ
xz = 0xc96c5795d7870f42

parts-AllBytes : AllBytes ((1 ∷ 2 ∷ []) ∷ parts)
parts-AllBytes = ground arith

xz_run : crc64_polynomial crc64xz ≡ some xz
unfolding crc64_polynomial
xz_run = refl

combined_multipart_checksum-data_crc64_example :
    combined_multipart_checksum crc64xz
      (map (data_crc64 xz) ((1 ∷ 2 ∷ []) ∷ parts))
      (map length ((1 ∷ 2 ∷ []) ∷ parts))
      5
    ≡ some (data_crc64 xz (whole ((1 ∷ 2 ∷ []) ∷ parts)))
combined_multipart_checksum-data_crc64_example =
    combined_multipart_checksum-data_crc64 crc64xz xz (1 ∷ 2 ∷ []) parts xz_run parts-AllBytes
      (omega arith)

copy_run :
    copy_ranges 2147483649
    ≡ some ((0, 1073741823) ∷ (1073741824, 2147483647) ∷ (2147483648, 2147483648) ∷ [])
unfolding copy_ranges copy_parts
copy_run = refl

copy_ranges-Tiles_example :
    ((copy_ranges 2147483649 ≡ none) × (maximum_parts * part_size < 2147483649))
    ⊎ ((ranges : List (ℕ × ℕ)) × (copy_ranges 2147483649 ≡ some ranges)
        × (length ranges ≤ maximum_parts)
        × Tiles 0 ranges 2147483649)
copy_ranges-Tiles_example = copy_ranges-Tiles 2147483649 (omega arith)
