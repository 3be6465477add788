-- ===== src/S3/Crc/Tests.antt =====
-- CRCs of the nine digits, and the theorems at them.
use ngs3fs.Prelude.{ℕ, List, [], ◌∷◌, ◌++◌, ◌≡◌, refl, arith}
use ngs3fs.S3.Path.Encode.{IsBytes}
use ngs3fs.S3.Crc.{
  update_crc32, update_crc64, crc_rounds, crc_tail, round32, load_le32, make_crc_tables,
  first_table, bit_steps, bit_step,
}
use ngs3fs.S3.Crc.Serial.{serial}
use ngs3fs.S3.Crc.Update.{update_crc-serial, update_crc-append}

abbrev nine : List ℕ
nine = b'1' ∷ b'2' ∷ b'3' ∷ b'4' ∷ b'5' ∷ b'6' ∷ b'7' ∷ b'8' ∷ b'9' ∷ []

nine-IsBytes : IsBytes nine
nine-IsBytes = ground arith

-- CRC32C and CRC64NVME, before the last complement.
crc32_run : update_crc32 0x82f63b78 0xffffffff nine ≡ 0x1cf96d7c
unfolding update_crc32 crc_rounds crc_tail round32 load_le32 make_crc_tables first_table bit_steps
    bit_step
crc32_run = refl

update_crc-serial_example :
    (update_crc32 0x82f63b78 0xffffffff nine ≡ serial 0x82f63b78 0xffffffff nine)
    × (update_crc64 0x9a6c9329ac4bc9b5 0xffffffffffffffff nine
        ≡ serial 0x9a6c9329ac4bc9b5 0xffffffffffffffff nine)
update_crc-serial_example =
    update_crc-serial 0x82f63b78 0x9a6c9329ac4bc9b5 0xffffffff 0xffffffffffffffff nine (omega arith)
      (omega arith) (omega arith) (omega arith) nine-IsBytes

update_crc-append_example :
    (update_crc32 0x82f63b78 (update_crc32 0x82f63b78 0 nine) nine
      ≡ update_crc32 0x82f63b78 0 (nine ++ nine))
    × (update_crc64 0x9a6c9329ac4bc9b5 (update_crc64 0x9a6c9329ac4bc9b5 0 nine) nine
        ≡ update_crc64 0x9a6c9329ac4bc9b5 0 (nine ++ nine))
update_crc-append_example =
    update_crc-append 0x82f63b78 0x9a6c9329ac4bc9b5 0 0 nine nine (omega arith) (omega arith)
      (omega arith) (omega arith) nine-IsBytes nine-IsBytes
