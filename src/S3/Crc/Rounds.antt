-- ===== src/S3/Crc/Rounds.antt =====
-- Eight bytes at a time, in the two widths.
use Prim.Native.Nat.{bit_or}
use ngs3fs.Prelude.{
  ℕ, ◌+◌, ◌*◌, ◌/◌, ◌%◌, ◌^◌, ◌<◌, ◌≡◌, refl, arith, ap, ap₂, sym, ◌∙◌, List, [], ◌∷◌,
}
use ngs3fs.Prelude.Xor.{◌⊻◌, xor_fields, or_fields}
use ngs3fs.S3.Path.Encode.{IsBytes}
use ngs3fs.S3.Crc.{load_le32, load_le64, round32, round64}
use ngs3fs.S3.Crc.Serial.{serial, little, entries-serial}

load_le32-sum :
    (b0 b1 b2 b3 : ℕ) (rest : List ℕ)
    → b0 < 256
    → b1 < 256
    → b2 < 256
    → load_le32 (b0 ∷ b1 ∷ b2 ∷ b3 ∷ rest) ≡ little (b0 ∷ b1 ∷ b2 ∷ b3 ∷ [])
unfolding load_le32
load_le32-sum b0 b1 b2 b3 rest h0 h1 h2 =
    let one = or_fields 8 b0 b1 h0 in
    let two =
      ap (λ t. bit_or t (b2 * 2 ^ 16)) one ∙ or_fields 16 (b0 + b1 * 2 ^ 8) b2 (omega arith) in
    ap (λ t. bit_or t (b3 * 2 ^ 24)) two
    ∙ or_fields 24 (b0 + b1 * 2 ^ 8 + b2 * 2 ^ 16) b3 (omega arith)
    ∙ omega arith

-- The bytes of a number below 2 ^ 32.
bytes_of32 :
    (v : ℕ)
    → v < 2 ^ 32
    → v ≡ little (v % 256 ∷ v / 2 ^ 8 % 256 ∷ v / 2 ^ 16 % 256 ∷ v / 2 ^ 24 ∷ [])
bytes_of32 v h = omega arith

bytes_of64 :
    (v : ℕ)
    → v < 2 ^ 64
    → v
      ≡ little (
          v % 256
          ∷ v / 2 ^ 8 % 256
          ∷ v / 2 ^ 16 % 256
          ∷ v / 2 ^ 24 % 256
          ∷ v / 2 ^ 32 % 256
          ∷ v / 2 ^ 40 % 256
          ∷ v / 2 ^ 48 % 256
          ∷ v / 2 ^ 56
          ∷ [])
bytes_of64 v h = omega arith

module _ (p crc b0 b1 b2 b3 b4 b5 b6 b7 : ℕ) (rest : List ℕ)
    (h : IsBytes (b0 ∷ b1 ∷ b2 ∷ b3 ∷ b4 ∷ b5 ∷ b6 ∷ b7 ∷ [])) where
  abbrev eight : List ℕ
  eight = b0 ∷ b1 ∷ b2 ∷ b3 ∷ b4 ∷ b5 ∷ b6 ∷ b7 ∷ []

  low : load_le32 (b0 ∷ b1 ∷ b2 ∷ b3 ∷ b4 ∷ b5 ∷ b6 ∷ b7 ∷ rest) ≡ little (b0 ∷ b1 ∷ b2 ∷ b3 ∷ [])
  low = load_le32-sum b0 b1 b2 b3 (b4 ∷ b5 ∷ b6 ∷ b7 ∷ rest) h.0 h.1.0 h.1.1.0

  high : load_le32 (b4 ∷ b5 ∷ b6 ∷ b7 ∷ rest) ≡ little (b4 ∷ b5 ∷ b6 ∷ b7 ∷ [])
  high = load_le32-sum b4 b5 b6 b7 rest h.1.1.1.1.0 h.1.1.1.1.1.0 h.1.1.1.1.1.1.0

  load_le64-little : load_le64 (b0 ∷ b1 ∷ b2 ∷ b3 ∷ b4 ∷ b5 ∷ b6 ∷ b7 ∷ rest) ≡ little eight
  unfolding load_le64
  load_le64-little =
      ap₂ (λ (a b : ℕ). bit_or a (b * 2 ^ 32)) low high
      ∙ or_fields 32 (little (b0 ∷ b1 ∷ b2 ∷ b3 ∷ [])) (little (b4 ∷ b5 ∷ b6 ∷ b7 ∷ []))
          (omega (arith, h.0, h.1.0, h.1.1.0, h.1.1.1.0))
      ∙ omega arith

  eight_small : little eight < 2 ^ 64
  eight_small = omega (
    arith, h.0, h.1.0, h.1.1.0, h.1.1.1.0, h.1.1.1.1.0, h.1.1.1.1.1.0, h.1.1.1.1.1.1.0,
    h.1.1.1.1.1.1.1.0,
  )

  pub round64-serial :
      crc < 2 ^ 64
      → round64 p crc (b0 ∷ b1 ∷ b2 ∷ b3 ∷ b4 ∷ b5 ∷ b6 ∷ b7 ∷ rest) ≡ serial p crc eight
  unfolding round64
  round64-serial k =
      entries-serial p crc eight (value % 256)
        (value / 2 ^ 8 % 256
          ∷ value / 2 ^ 16 % 256
          ∷ value / 2 ^ 24 % 256
          ∷ value / 2 ^ 32 % 256
          ∷ value / 2 ^ 40 % 256
          ∷ value / 2 ^ 48 % 256
          ∷ value / 2 ^ 56
          ∷ [])
        h (omega arith, (omega arith, (omega arith, (omega arith, four_more)))) refl
        (sym same ∙ bytes_of64 value small)
    where
      value : ℕ
      value = crc ⊻ load_le64 (b0 ∷ b1 ∷ b2 ∷ b3 ∷ b4 ∷ b5 ∷ b6 ∷ b7 ∷ rest)

      same : value ≡ crc ⊻ little eight
      same = ap (λ t. crc ⊻ t) load_le64-little

      small : value < 2 ^ 64
      small = rw same (xor_fields 64 crc (little eight) 0 k eight_small).1

      four_more :
          IsBytes (
            value / 2 ^ 32 % 256
            ∷ value / 2 ^ 40 % 256
            ∷ value / 2 ^ 48 % 256
            ∷ value / 2 ^ 56
            ∷ [])
      four_more = (omega arith, (omega arith, (omega arith, (omega (arith, small), tt))))

  pub round32-serial :
      crc < 2 ^ 32
      → round32 p crc (b0 ∷ b1 ∷ b2 ∷ b3 ∷ b4 ∷ b5 ∷ b6 ∷ b7 ∷ rest) ≡ serial p crc eight
  unfolding round32
  round32-serial k =
      entries-serial p crc eight (value % 256)
        (value / 2 ^ 8 % 256 ∷ value / 2 ^ 16 % 256 ∷ value / 2 ^ 24 ∷ b4 ∷ b5 ∷ b6 ∷ b7 ∷ []) h
        (omega arith, (omega arith, (omega arith, (omega (arith, small), h.1.1.1.1)))) refl same
    where
      value : ℕ
      value = crc ⊻ load_le32 (b0 ∷ b1 ∷ b2 ∷ b3 ∷ b4 ∷ b5 ∷ b6 ∷ b7 ∷ rest)

      four : ℕ
      four = little (b0 ∷ b1 ∷ b2 ∷ b3 ∷ [])

      sum :
          (crc ⊻ (four + little (b4 ∷ b5 ∷ b6 ∷ b7 ∷ []) * 2 ^ 32)
            ≡ (crc ⊻ four) + little (b4 ∷ b5 ∷ b6 ∷ b7 ∷ []) * 2 ^ 32)
          × ((crc ⊻ four) < 2 ^ 32)
      sum =
          xor_fields 32 crc four (little (b4 ∷ b5 ∷ b6 ∷ b7 ∷ [])) k
            (omega (arith, h.0, h.1.0, h.1.1.0, h.1.1.1.0))

      small : value < 2 ^ 32
      small = rw low sum.1

      joined : little eight ≡ four + little (b4 ∷ b5 ∷ b6 ∷ b7 ∷ []) * 2 ^ 32
      joined = omega arith

      same :
          crc ⊻ little eight
          ≡ little (
              value % 256
              ∷ value / 2 ^ 8 % 256
              ∷ value / 2 ^ 16 % 256
              ∷ value / 2 ^ 24
              ∷ b4
              ∷ b5
              ∷ b6
              ∷ b7
              ∷ [])
      same =
          let parts = bytes_of32 value small in
          let here : crc ⊻ four ≡ value = ap (λ t. crc ⊻ t) (sym low) in
          ap (λ t. crc ⊻ t) joined ∙ sum.0 ∙ omega (arith, here, parts)
