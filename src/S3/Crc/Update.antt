-- ===== src/S3/Crc/Update.antt =====
-- The whole of an update, and updates one after the other.
use ngs3fs.Prelude.{
  ℕ, zero, suc, ◌/◌, ◌%◌, ◌^◌, ◌≤◌, ◌<◌, leb, ◌==◌, if◌then◌else◌, ◌≡◌, arith, ap, sym, ◌∙◌, List,
  [], ◌∷◌, ◌++◌, length, drop, if_elim, true,
}
use ngs3fs.Prelude.Xor.{◌⊻◌, xor_fields}
use ngs3fs.S3.Path.Encode.{IsBytes}
use ngs3fs.S3.Crc.{
  bit_step, bit_steps, round32, round64, crc_rounds, crc_tail, update_crc32, update_crc64,
}
use ngs3fs.S3.Crc.Serial.{serial, serial-append, crc_tail-serial}
use ngs3fs.S3.Crc.Rounds.{round32-serial, round64-serial}

-- No step makes a number longer than the polynomial allows.
pub bit_steps_small : (w p n v : ℕ) → p < 2 ^ w → v < 2 ^ w → bit_steps p n v < 2 ^ w
unfolding bit_steps bit_step
bit_steps_small w p zero v hp hv = hv
bit_steps_small w p (suc n) v hp hv =
    bit_steps_small w p n _ hp
      (xor_fields w (v / 2) (if v % 2 == 1 then p else 0) 0 (omega (arith, hv))
        (ground (arith, hp, hv))).1

pub serial_small :
    (w p crc : ℕ) (bytes : List ℕ)
    → p < 2 ^ w
    → crc < 2 ^ w
    → 256 ≤ 2 ^ w
    → IsBytes bytes
    → serial p crc bytes < 2 ^ w
unfolding serial
serial_small w p crc [] hp hc wide h = hc
serial_small w p crc (b ∷ bytes) hp hc wide h =
    serial_small w p (bit_steps p 8 (crc ⊻ b)) bytes hp
      (bit_steps_small w p 8 (crc ⊻ b) hp (xor_fields w crc b 0 hc (omega (arith, h.0, wide))).1)
      wide h.1

-- A round of the loop takes eight bytes as they come.
abbrev Exact : ℕ → ℕ → (ℕ → List ℕ → ℕ) → Type 0
Exact w p round =
    (crc b0 b1 b2 b3 b4 b5 b6 b7 : ℕ) (rest : List ℕ)
    → IsBytes (b0 ∷ b1 ∷ b2 ∷ b3 ∷ b4 ∷ b5 ∷ b6 ∷ b7 ∷ [])
    → crc < 2 ^ w
    → round crc (b0 ∷ b1 ∷ b2 ∷ b3 ∷ b4 ∷ b5 ∷ b6 ∷ b7 ∷ rest)
      ≡ serial p crc (b0 ∷ b1 ∷ b2 ∷ b3 ∷ b4 ∷ b5 ∷ b6 ∷ b7 ∷ [])

-- The rounds and the tail, of either width.
module _ (w p : ℕ) (hp : p < 2 ^ w) (wide : 256 ≤ 2 ^ w) (round : ℕ → List ℕ → ℕ)
    (exact : Exact w p round) where
  finished : ℕ × List ℕ → ℕ
  finished r = crc_tail p r.0 r.1

  -- One round, where the rest of the loop is right.
  round-serial :
      (fuel crc : ℕ) (bytes : List ℕ)
      → ((c : ℕ) (l : List ℕ)
          → c < 2 ^ w
          → IsBytes l
          → finished (crc_rounds round fuel c l) ≡ serial p c l)
      → crc < 2 ^ w
      → IsBytes bytes
      → leb 8 (length bytes) ≡ true
      → finished (crc_rounds round fuel (round crc bytes) (drop 8 bytes)) ≡ serial p crc bytes
  round-serial fuel crc (b0 ∷ b1 ∷ b2 ∷ b3 ∷ b4 ∷ b5 ∷ b6 ∷ b7 ∷ rest) next k h t =
      let first : IsBytes (b0 ∷ b1 ∷ b2 ∷ b3 ∷ b4 ∷ b5 ∷ b6 ∷ b7 ∷ []) = (
        h.0,
        (
          h.1.0,
          (
            h.1.1.0,
            (h.1.1.1.0, (h.1.1.1.1.0, (h.1.1.1.1.1.0, (h.1.1.1.1.1.1.0, (h.1.1.1.1.1.1.1.0, tt))))),
          ),
        ),
      ) in
      let eight : List ℕ = b0 ∷ b1 ∷ b2 ∷ b3 ∷ b4 ∷ b5 ∷ b6 ∷ b7 ∷ [] in
      ap (λ c. finished (crc_rounds round fuel c rest))
        (exact crc b0 b1 b2 b3 b4 b5 b6 b7 rest first k)
      ∙ next (serial p crc eight) rest (serial_small w p crc eight hp k wide first)
          h.1.1.1.1.1.1.1.1
      ∙ sym (serial-append p crc eight rest)
  round-serial fuel crc (b0 ∷ b1 ∷ b2 ∷ b3 ∷ b4 ∷ b5 ∷ b6 ∷ []) next k h t = absurd (cc)
  round-serial fuel crc (b0 ∷ b1 ∷ b2 ∷ b3 ∷ b4 ∷ b5 ∷ []) next k h t = absurd (cc)
  round-serial fuel crc (b0 ∷ b1 ∷ b2 ∷ b3 ∷ b4 ∷ []) next k h t = absurd (cc)
  round-serial fuel crc (b0 ∷ b1 ∷ b2 ∷ b3 ∷ []) next k h t = absurd (cc)
  round-serial fuel crc (b0 ∷ b1 ∷ b2 ∷ []) next k h t = absurd (cc)
  round-serial fuel crc (b0 ∷ b1 ∷ []) next k h t = absurd (cc)
  round-serial fuel crc (b0 ∷ []) next k h t = absurd (cc)
  round-serial fuel crc [] next k h t = absurd (cc)

  rounds-serial :
      (fuel crc : ℕ) (bytes : List ℕ)
      → crc < 2 ^ w
      → IsBytes bytes
      → finished (crc_rounds round fuel crc bytes) ≡ serial p crc bytes
  unfolding crc_rounds finished
  rounds-serial zero crc bytes k h = crc_tail-serial p crc bytes h
  rounds-serial (suc fuel) crc bytes k h =
      if_elim (λ r. finished r ≡ serial p crc bytes) (leb 8 (length bytes))
        (λ t. round-serial fuel crc bytes (rounds-serial fuel) k h t)
        (λ _. crc_tail-serial p crc bytes h)

update_crc32-serial :
    (p crc : ℕ) (bytes : List ℕ)
    → p < 2 ^ 32
    → crc < 2 ^ 32
    → IsBytes bytes
    → update_crc32 p crc bytes ≡ serial p crc bytes
unfolding update_crc32 finished
update_crc32-serial p crc bytes hp hc h =
    rounds-serial 32 p hp (omega arith) (round32 p) (round32-serial p) (length bytes) crc bytes hc h

pub update_crc64-serial :
    (p crc : ℕ) (bytes : List ℕ)
    → p < 2 ^ 64
    → crc < 2 ^ 64
    → IsBytes bytes
    → update_crc64 p crc bytes ≡ serial p crc bytes
unfolding update_crc64 finished
update_crc64-serial p crc bytes hp hc h =
    rounds-serial 64 p hp (omega arith) (round64 p) (round64-serial p) (length bytes) crc bytes hc h

-- Of checksums and polynomials that fit the width: `update_crc32` and `update_crc64`, by eight tables
-- and eight bytes at a time, return what is had by taking one bit after the other.
pub update_crc-serial :
    (p q c d : ℕ) (bytes : List ℕ)
    → p < 2 ^ 32
    → c < 2 ^ 32
    → q < 2 ^ 64
    → d < 2 ^ 64
    → IsBytes bytes
    → (update_crc32 p c bytes ≡ serial p c bytes) × (update_crc64 q d bytes ≡ serial q d bytes)
update_crc-serial p q c d bytes hp hc hq hd h =
    (update_crc32-serial p c bytes hp hc h, update_crc64-serial q d bytes hq hd h)

pub IsBytes-append : (a b : List ℕ) → IsBytes a → IsBytes b → IsBytes (a ++ b)
IsBytes-append [] b h k = k
IsBytes-append (x ∷ a) b h k = (h.0, IsBytes-append a b h.1 k)

-- Of checksums and polynomials that fit the width: the checksum of bytes that come in two pieces is
-- that of the whole, wherever it is cut.
pub update_crc-append :
    (p q c d : ℕ) (a b : List ℕ)
    → p < 2 ^ 32
    → c < 2 ^ 32
    → q < 2 ^ 64
    → d < 2 ^ 64
    → IsBytes a
    → IsBytes b
    → (update_crc32 p (update_crc32 p c a) b ≡ update_crc32 p c (a ++ b))
      × (update_crc64 q (update_crc64 q d a) b ≡ update_crc64 q d (a ++ b))
update_crc-append p q c d a b hp hc hq hd ha hb =
    let small = serial_small 32 p c a hp hc (omega arith) ha in
    let small' = serial_small 64 q d a hq hd (omega arith) ha in
    let all = IsBytes-append a b ha hb in
    (
      ap (λ x. update_crc32 p x b) (update_crc32-serial p c a hp hc ha)
          ∙ update_crc32-serial p (serial p c a) b hp small hb
          ∙ sym (update_crc32-serial p c (a ++ b) hp hc all ∙ serial-append p c a b),
      ap (λ x. update_crc64 q x b) (update_crc64-serial q d a hq hd ha)
          ∙ update_crc64-serial q (serial q d a) b hq small' hb
          ∙ sym (update_crc64-serial q d (a ++ b) hq hd all ∙ serial-append q d a b),
    )
