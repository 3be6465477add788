-- ===== src/S3/Combine/Whole.antt =====
-- `combine_crc64` gives the checksum of the whole.
use ngs3fs.Prelude.{
  ℕ, zero, suc, ◌+◌, ◌-◌, ◌*◌, ◌^◌, ◌<◌, true, ◌==◌, ◌≡◌, refl, arith, ap, ap₂, sym, ◌∙◌, if_elim,
  some, List, [], ◌∷◌, ◌++◌, length, word,
}
use ngs3fs.Prelude.Xor.{◌⊻◌, zero-xor, xor_self, xor_assoc, xor_fields}
use ngs3fs.S3.Path.Encode.{IsBytes}
use ngs3fs.S3.Checksum.{
  Algorithm, crc64nvme, crc64xz, auto, protocol_default, no_checksum, crc32, crc32c, sha1, sha256,
  md5, xxhash64, xxhash3, xxhash128, sha512,
}
use ngs3fs.S3.Crc.{bit_steps}
use ngs3fs.S3.Crc.Linear.{byte_steps, byte_steps-xor}
use ngs3fs.S3.Crc.Serial.{serial, serial-little, serial-append, little}
use ngs3fs.S3.Crc.Update.{update_crc64-serial, serial_small, IsBytes-append}
use ngs3fs.S3.Combine.{
  gf2_matrix_square, first_rows, combine_rounds, crc64_polynomial, combine_with, combine_crc64,
  data_crc64,
}
use ngs3fs.S3.Combine.Rounds.{bit_steps_add, first_rows_lem, twice, combine_rounds_lem}

-- The steps of `n` bytes are eight for each.
bytes_steps : (p n v : ℕ) → bit_steps p (8 * n) v ≡ byte_steps p n v
unfolding bit_steps byte_steps
bytes_steps p zero v = refl
bytes_steps p (suc n) v =
    let more : 8 * suc n ≡ 8 * n + 8 = omega arith in
    ap (λ t. bit_steps p t v) more
    ∙ sym (bit_steps_add p 8 (8 * n) v)
    ∙ ap (bit_steps p 8) (bytes_steps p n v)

-- The rounds advance a checksum by as many zero bytes as the length says.
rounds_lem :
    (p v n : ℕ)
    → p < 2 ^ 64
    → v < 2 ^ 64
    → n < 2 ^ 64
    → combine_rounds 32 (gf2_matrix_square (gf2_matrix_square (first_rows p))) v n
      ≡ byte_steps p n v
rounds_lem p v n hp hv hn =
    combine_rounds_lem p hp 32 _ 4 v n
      (twice p hp (gf2_matrix_square (first_rows p)) 2
        (twice p hp (first_rows p) 1 (first_rows_lem p hp)))
      hv hn
    ∙ bytes_steps p n v

-- What a checksum adds to the bytes behind it.
serial-behind :
    (p s : ℕ) (b : List ℕ)
    → IsBytes b
    → (u : ℕ) → byte_steps p (length b) (s ⊻ u) ⊻ (serial p u b ⊻ u) ≡ serial p s b ⊻ u
serial-behind p s b h u =
    let n = length b in
    let first = byte_steps-xor p n s u in
    let second = serial-little p u b h ∙ byte_steps-xor p n u (little b) in
    let third = serial-little p s b h ∙ byte_steps-xor p n s (little b) in
    ap₂ (λ x y. x ⊻ (y ⊻ u)) first second
    ∙ cancel (byte_steps p n s) (byte_steps p n u) (byte_steps p n (little b)) u
    ∙ ap (λ t. t ⊻ u) (sym third)
  where
    cancel : (a c l u : ℕ) → a ⊻ c ⊻ (c ⊻ l ⊻ u) ≡ a ⊻ l ⊻ u
    cancel a c l u =
        xor_assoc a c (c ⊻ l ⊻ u)
        ∙ ap (λ t. a ⊻ t)
            (ap (λ t. c ⊻ t) (xor_assoc c l u)
              ∙ sym (xor_assoc c c (l ⊻ u))
              ∙ ap (λ t. t ⊻ (l ⊻ u)) (xor_self c)
              ∙ zero-xor (l ⊻ u))
        ∙ sym (xor_assoc a l u)

data_crc64-serial :
    (p : ℕ) (bytes : List ℕ)
    → p < 2 ^ 64
    → IsBytes bytes
    → data_crc64 p bytes ≡ serial p (word - 1) bytes ⊻ (word - 1)
unfolding data_crc64
data_crc64-serial p bytes hp h =
    ap (λ t. t ⊻ (word - 1)) (update_crc64-serial p (word - 1) bytes hp (omega arith) h)

combine_with_lem :
    (p : ℕ) (a b : List ℕ)
    → p < 2 ^ 64
    → IsBytes a
    → IsBytes b
    → length b < 2 ^ 64
    → combine_with (some p) (data_crc64 p a) (data_crc64 p b) (length b)
      ≡ some (data_crc64 p (a ++ b))
unfolding combine_with
combine_with_lem p a b hp ha hb len =
    let u : ℕ = word - 1 in
    let s : ℕ = serial p u a in
    let small : s < 2 ^ 64 = serial_small 64 p u a hp (omega arith) (omega arith) ha in
    let small' : (s ⊻ u) < 2 ^ 64 = (xor_fields 64 s u 0 small (omega arith)).1 in
    ap some (
      ap₂
        (λ x y.
          combine_rounds 32 (gf2_matrix_square (gf2_matrix_square (first_rows p))) x (length b) ⊻ y)
        (data_crc64-serial p a hp ha) (data_crc64-serial p b hp hb)
      ∙ ap (λ t. t ⊻ (serial p u b ⊻ u)) (rounds_lem p (s ⊻ u) (length b) hp small' len)
      ∙ serial-behind p s b hb u
      ∙ ap (λ t. t ⊻ u) (sym (serial-append p u a b))
      ∙ sym (data_crc64-serial p (a ++ b) hp (IsBytes-append a b ha hb)))

append_none : (a b : List ℕ) → (length b == 0) ≡ true → a ++ b ≡ a
append_none [] [] h = refl
append_none [] (y ∷ b) h = absurd (ground (arith, h))
append_none (x ∷ a) b h = ap (λ (t : List ℕ). x ∷ t) (append_none a b h)

polynomial_small : (g : Algorithm) (p : ℕ) → crc64_polynomial g ≡ some p → p < 2 ^ 64
unfolding crc64_polynomial
polynomial_small crc64nvme p h = ground (arith, h)
polynomial_small crc64xz p h = ground (arith, h)
polynomial_small auto p h = absurd (cc)
polynomial_small protocol_default p h = absurd (cc)
polynomial_small no_checksum p h = absurd (cc)
polynomial_small crc32 p h = absurd (cc)
polynomial_small crc32c p h = absurd (cc)
polynomial_small sha1 p h = absurd (cc)
polynomial_small sha256 p h = absurd (cc)
polynomial_small md5 p h = absurd (cc)
polynomial_small xxhash64 p h = absurd (cc)
polynomial_small xxhash3 p h = absurd (cc)
polynomial_small xxhash128 p h = absurd (cc)
polynomial_small sha512 p h = absurd (cc)

-- Of an algorithm with a CRC-64, and two texts, the second shorter than 2 ^ 64 bytes:
-- `combine_crc64` returns the checksum of the two texts together, from their checksums and the
-- length of the second.
pub combine_crc64-data_crc64 :
    (g : Algorithm) (p : ℕ) (a b : List ℕ)
    → crc64_polynomial g ≡ some p
    → IsBytes a
    → IsBytes b
    → length b < 2 ^ 64
    → combine_crc64 g (data_crc64 p a) (data_crc64 p b) (length b) ≡ some (data_crc64 p (a ++ b))
unfolding combine_crc64
combine_crc64-data_crc64 g p a b found ha hb len =
    if_elim (λ t. t ≡ some (data_crc64 p (a ++ b))) (length b == 0)
      (λ none. ap (λ l. some (data_crc64 p l)) (sym (append_none a b none)))
      (λ _.
        ap (λ t. combine_with t (data_crc64 p a) (data_crc64 p b) (length b)) found
        ∙ combine_with_lem p a b (polynomial_small g p found) ha hb len)
