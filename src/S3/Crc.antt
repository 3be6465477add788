-- ===== src/S3/Crc.antt =====
-- The CRC checksums of an object (src/s3.cpp, `make_crc_tables` to `update_crc64`), by eight tables
-- of 256 entries. A table is a function of its index. No value outgrows its 32 or 64 bits, so no
-- operation wraps around: `^`, `>>` and `& 0xff` do not make a number larger.
pub mod Linear
pub mod Serial
pub mod Rounds
pub mod Update
mod Tests
use Prim.Native.Nat.{bit_or}
use ngs3fs.Prelude.{
  ℕ, zero, suc, ◌+◌, ◌*◌, ◌/◌, ◌%◌, ◌^◌, leb, ◌==◌, if◌then◌else◌, List, [], ◌∷◌, length, get_or,
  drop,
}
use ngs3fs.Prelude.Xor.{◌⊻◌}

-- `(value >> 1) ^ ((value & 1) ? polynomial : 0)`
unfoldable pub bit_step : ℕ → ℕ → ℕ
bit_step polynomial value = value / 2 ⊻ (if value % 2 == 1 then polynomial else 0)

unfoldable pub bit_steps : ℕ → ℕ → ℕ → ℕ
bit_steps polynomial zero value = value
bit_steps polynomial (suc bits) value = bit_steps polynomial bits (bit_step polynomial value)

-- `tables[0][i]`
unfoldable pub first_table : ℕ → ℕ → ℕ
first_table polynomial i = bit_steps polynomial 8 i

-- `tables[slice][i]`
unfoldable pub make_crc_tables : ℕ → ℕ → ℕ → ℕ
make_crc_tables polynomial zero i = first_table polynomial i
make_crc_tables polynomial (suc slice) i =
    let previous = make_crc_tables polynomial slice i in
    first_table polynomial (previous % 256) ⊻ previous / 256

unfoldable pub load_le32 : List ℕ → ℕ
load_le32 bytes =
    bit_or
      (bit_or (bit_or (get_or bytes 0 0) (get_or bytes 1 0 * 2 ^ 8)) (get_or bytes 2 0 * 2 ^ 16))
      (get_or bytes 3 0 * 2 ^ 24)

unfoldable pub load_le64 : List ℕ → ℕ
load_le64 bytes = bit_or (load_le32 bytes) (load_le32 (drop 4 bytes) * 2 ^ 32)

-- The body of the loop over eight bytes of `update_crc32`.
unfoldable pub round32 : ℕ → ℕ → List ℕ → ℕ
round32 polynomial crc bytes =
    let value = crc ⊻ load_le32 bytes in
    make_crc_tables polynomial 7 (value % 256)
    ⊻ make_crc_tables polynomial 6 (value / 2 ^ 8 % 256)
    ⊻ make_crc_tables polynomial 5 (value / 2 ^ 16 % 256)
    ⊻ make_crc_tables polynomial 4 (value / 2 ^ 24)
    ⊻ make_crc_tables polynomial 3 (get_or bytes 4 0)
    ⊻ make_crc_tables polynomial 2 (get_or bytes 5 0)
    ⊻ make_crc_tables polynomial 1 (get_or bytes 6 0)
    ⊻ make_crc_tables polynomial 0 (get_or bytes 7 0)

-- The body of the loop over eight bytes of `update_crc64`.
unfoldable pub round64 : ℕ → ℕ → List ℕ → ℕ
round64 polynomial crc bytes =
    let value = crc ⊻ load_le64 bytes in
    make_crc_tables polynomial 7 (value % 256)
    ⊻ make_crc_tables polynomial 6 (value / 2 ^ 8 % 256)
    ⊻ make_crc_tables polynomial 5 (value / 2 ^ 16 % 256)
    ⊻ make_crc_tables polynomial 4 (value / 2 ^ 24 % 256)
    ⊻ make_crc_tables polynomial 3 (value / 2 ^ 32 % 256)
    ⊻ make_crc_tables polynomial 2 (value / 2 ^ 40 % 256)
    ⊻ make_crc_tables polynomial 1 (value / 2 ^ 48 % 256)
    ⊻ make_crc_tables polynomial 0 (value / 2 ^ 56)

-- `while (size >= 8)`: the checksum, and the bytes that are left.
unfoldable pub crc_rounds : (ℕ → List ℕ → ℕ) → ℕ → ℕ → List ℕ → ℕ × List ℕ
crc_rounds round zero crc bytes = (crc, bytes)
crc_rounds round (suc fuel) crc bytes =
    let rest = crc_rounds round fuel (round crc bytes) (drop 8 bytes) in
    if leb 8 (length bytes) then rest else (crc, bytes)

-- `while (size-- != 0)`
unfoldable pub crc_tail : ℕ → ℕ → List ℕ → ℕ
crc_tail polynomial crc [] = crc
crc_tail polynomial crc (b ∷ bytes) =
    crc_tail polynomial (make_crc_tables polynomial 0 ((crc ⊻ b) % 256) ⊻ crc / 256) bytes

unfoldable pub update_crc32 : ℕ → ℕ → List ℕ → ℕ
update_crc32 polynomial crc bytes =
    let (crc', rest) = crc_rounds (round32 polynomial) (length bytes) crc bytes in
    crc_tail polynomial crc' rest

unfoldable pub update_crc64 : ℕ → ℕ → List ℕ → ℕ
update_crc64 polynomial crc bytes =
    let (crc', rest) = crc_rounds (round64 polynomial) (length bytes) crc bytes in
    crc_tail polynomial crc' rest
