-- ===== src/Fuse/Multipart.antt =====
-- The parts of a multipart upload and of a multipart copy (src/fuse.cpp, `combined_multipart_checksum`
-- and the loop of `multipart_copy_object` over the parts). `none` is an exception.
pub mod Checksum
pub mod Copy
mod Tests
use ngs3fs.Prelude.{
  ℕ, zero, suc, ◌+◌, ◌-◌, ◌/◌, min, ◌||◌, ltb, ◌==◌, not, if◌then◌else◌, List, [], ◌∷◌, Option,
  none, some, length, add64, mul64, sub64,
}
use ngs3fs.S3.Text.{◌>>=◌}
use ngs3fs.S3.Checksum.{Algorithm}
use ngs3fs.S3.Combine.{combine_crc64}

-- The loop over the parts behind the first: the checksum and the size so far.
unfoldable pub combine_parts : Algorithm → List ℕ → List ℕ → ℕ → ℕ → Option (ℕ × ℕ)
combine_parts algorithm [] sizes value size = some (value, size)
combine_parts algorithm (v ∷ values) [] value size = none
combine_parts algorithm (v ∷ values) (n ∷ sizes) value size = do
  value' ← combine_crc64 algorithm value v n
  combine_parts algorithm values sizes value' (add64 size n)

-- The byte count is that of the stream.
unfoldable pub checked_size : ℕ → ℕ × ℕ → Option ℕ
checked_size stream_offset (value, size) = if size == stream_offset then some value else none

-- Of the checksums and the sizes of the parts: the integer of the checksum that is returned.
unfoldable pub combined_multipart_checksum : Algorithm → List ℕ → List ℕ → ℕ → Option ℕ
combined_multipart_checksum algorithm [] sizes stream_offset = none
combined_multipart_checksum algorithm (v ∷ values) [] stream_offset = none
combined_multipart_checksum algorithm (v ∷ values) (n ∷ sizes) stream_offset =
    if not (length values == length sizes)
    then none
    else combine_parts algorithm values sizes v n >>= checked_size stream_offset

-- `part_size` of a copy: 1 GiB
abbrev pub part_size : ℕ
part_size = 1073741824

-- `kMaximumMultipartParts`
abbrev pub maximum_parts : ℕ
maximum_parts = 10000

-- `begin` and `end` of each part from `part` on.
unfoldable pub copy_parts : ℕ → ℕ → ℕ → List (ℕ × ℕ)
copy_parts zero part size = []
copy_parts (suc n) part size =
    let begin = mul64 part part_size in
    (begin, sub64 (min size (add64 begin part_size)) 1) ∷ copy_parts n (part + 1) size

unfoldable pub copy_ranges : ℕ → Option (List (ℕ × ℕ))
copy_ranges size =
    let part_count = sub64 (add64 size part_size) 1 / part_size in
    if ltb maximum_parts part_count then none else some (copy_parts part_count 0 size)
