-- ===== src/S3/Combine/Tests.antt =====
-- The CRC-64 of NVMe of the nine digits, in two halves.
use ngs3fs.Prelude.{ℕ, List, [], ◌∷◌, ◌++◌, ◌≡◌, refl, some, arith, length}
use ngs3fs.S3.Path.Encode.{IsBytes}
use ngs3fs.S3.Checksum.{crc64nvme}
use ngs3fs.S3.Crc.{
  update_crc64, crc_rounds, crc_tail, round64, load_le32, load_le64, make_crc_tables, first_table,
  bit_steps, bit_step,
}
use ngs3fs.S3.Combine.{crc64_polynomial, combine_crc64, data_crc64}
use ngs3fs.S3.Combine.Whole.{combine_crc64-data_crc64}

abbrev front : List ℕ
front = b'1' ∷ b'2' ∷ b'3' ∷ b'4' ∷ []

abbrev rear : List ℕ
rear = b'5' ∷ b'6' ∷ b'7' ∷ b'8' ∷ b'9' ∷ []

front-IsBytes : IsBytes front
front-IsBytes = ground arith

rear-IsBytes : IsBytes rear
rear-IsBytes = ground arith

nvme_run : crc64_polynomial crc64nvme ≡ some 0x9a6c9329ac4bc9b5
unfolding crc64_polynomial
nvme_run = refl

-- The check value of the algorithm.
data_crc64_run : data_crc64 0x9a6c9329ac4bc9b5 (front ++ rear) ≡ 0xae8b14860a799888
unfolding data_crc64 update_crc64 crc_rounds crc_tail round64 load_le64 load_le32 make_crc_tables
    first_table bit_steps bit_step
data_crc64_run = refl

combine_crc64-data_crc64_example :
    combine_crc64 crc64nvme
      (data_crc64 0x9a6c9329ac4bc9b5 front)
      (data_crc64 0x9a6c9329ac4bc9b5 rear)
      (length rear)
    ≡ some (data_crc64 0x9a6c9329ac4bc9b5 (front ++ rear))
combine_crc64-data_crc64_example =
    combine_crc64-data_crc64 crc64nvme 0x9a6c9329ac4bc9b5 front rear nvme_run front-IsBytes
      rear-IsBytes (omega arith)
