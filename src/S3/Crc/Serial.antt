-- ===== src/S3/Crc/Serial.antt =====
-- A CRC by the tables is the one that takes its bits one after the other.
use ngs3fs.Prelude.{
  ℕ, suc, ◌+◌, ◌*◌, ◌/◌, ◌%◌, ◌<◌, ◌≡◌, refl, arith, ap, ap₂, sym, ◌∙◌, List, [], ◌∷◌, ◌++◌, length,
}
use ngs3fs.Prelude.Xor.{◌⊻◌, zero-xor, xor-zero, xor_assoc, xor_comm, xor_fields}
use ngs3fs.S3.Path.Encode.{IsBytes}
use ngs3fs.S3.Crc.{bit_step, bit_steps, first_table, make_crc_tables, crc_tail}
use ngs3fs.S3.Crc.Linear.{
  byte_steps, byte_step_low, bit_steps-xor, byte_steps_first, slices, byte_steps-slices,
}

-- The checksum bit by bit: each byte is added to the lowest one, then eight digits are taken.
unfoldable pub serial : ℕ → ℕ → List ℕ → ℕ
serial p crc [] = crc
serial p crc (b ∷ bytes) = serial p (bit_steps p 8 (crc ⊻ b)) bytes

-- The number whose bytes these are, the lowest first.
abbrev pub little : List ℕ → ℕ
little [] = 0
little (b ∷ bytes) = b + little bytes * 256

-- A byte is added to the lowest one of a number.
lowest_byte : (crc b x : ℕ) → b < 256 → crc ⊻ (b + x * 256) ≡ crc ⊻ b ⊻ (x * 256)
lowest_byte crc b x h =
    let none : 0 + x * 256 ≡ x * 256 = omega arith in
    let join : b ⊻ (x * 256) ≡ b + x * 256 =
      ap (λ t. b ⊻ t) (sym none)
      ∙ (xor_fields 8 b 0 x h (omega arith)).0
      ∙ ap (λ (t : ℕ). t + x * 256) (xor-zero b) in
    ap (λ t. crc ⊻ t) (sym join) ∙ sym (xor_assoc crc b (x * 256))

shifted : (p x : ℕ) → bit_steps p 8 (x * 256) ≡ x
unfolding first_table bit_steps bit_step
shifted p x =
    let low : x * 256 % 256 ≡ 0 = omega arith in
    let high : x * 256 / 256 ≡ x = omega arith in
    byte_step_low p (x * 256) ∙ ap₂ ◌⊻◌ (ap (first_table p) low ∙ xor-zero 0) high ∙ zero-xor x

-- The bytes may be added all at once.
pub serial-little :
    (p crc : ℕ) (bytes : List ℕ)
    → IsBytes bytes
    → serial p crc bytes ≡ byte_steps p (length bytes) (crc ⊻ little bytes)
unfolding serial byte_steps
serial-little p crc [] h = sym (xor-zero crc)
serial-little p crc (b ∷ bytes) h =
    serial-little p (bit_steps p 8 (crc ⊻ b)) bytes h.1
    ∙ ap (byte_steps p (length bytes)) (
        sym (
          ap (bit_steps p 8) (lowest_byte crc b (little bytes) h.0)
          ∙ bit_steps-xor p 8 (crc ⊻ b) (little bytes * 256)
          ∙ ap (λ t. bit_steps p 8 (crc ⊻ b) ⊻ t) (shifted p (little bytes))))
    ∙ sym (byte_steps_first p (length bytes) (crc ⊻ (b + little bytes * 256)))

pub serial-append : (p crc : ℕ) (a b : List ℕ) → serial p crc (a ++ b) ≡ serial p (serial p crc a) b
unfolding serial
serial-append p crc [] b = refl
serial-append p crc (x ∷ a) b = serial-append p (bit_steps p 8 (crc ⊻ x)) a b

-- A byte leaves the upper part of a number.
upper : (crc b : ℕ) → b < 256 → (crc ⊻ b) / 256 ≡ crc / 256
upper crc b h =
    let parts : crc ≡ crc % 256 + crc / 256 * 256 = omega arith in
    let (sum, small) = xor_fields 8 b (crc % 256) (crc / 256) h (omega arith) in
    let joined = xor_comm crc b ∙ ap (λ t. b ⊻ t) parts ∙ sum in omega (arith, joined, small)

pub crc_tail-serial :
    (p crc : ℕ) (bytes : List ℕ) → IsBytes bytes → crc_tail p crc bytes ≡ serial p crc bytes
unfolding crc_tail serial make_crc_tables
crc_tail-serial p crc [] h = refl
crc_tail-serial p crc (b ∷ bytes) h =
    ap (λ t. crc_tail p t bytes)
      (ap (λ t. first_table p ((crc ⊻ b) % 256) ⊻ t) (sym (upper crc b h.0))
        ∙ sym (byte_step_low p (crc ⊻ b)))
    ∙ crc_tail-serial p (bit_steps p 8 (crc ⊻ b)) bytes h.1

-- Sums of table entries, from the left and from the right.
abbrev left : ℕ → List ℕ → ℕ
left a [] = a
left a (x ∷ l) = left (a ⊻ x) l

abbrev right : List ℕ → ℕ
right [] = 0
right (x ∷ l) = x ⊻ right l

left-right : (a : ℕ) (l : List ℕ) → left a l ≡ a ⊻ right l
left-right a [] = sym (xor-zero a)
left-right a (x ∷ l) = left-right (a ⊻ x) l ∙ xor_assoc a x (right l)

-- One table for each byte, the last for the highest.
abbrev entries : ℕ → List ℕ → List ℕ
entries p [] = []
entries p (d ∷ ds) = make_crc_tables p (length ds) d ∷ entries p ds

slices-little :
    (p : ℕ) (ds : List ℕ) → IsBytes ds → slices p (length ds) (little ds) ≡ right (entries p ds)
slices-little p [] h = refl
slices-little p (d ∷ ds) h =
    let low : (d + little ds * 256) % 256 ≡ d = omega (arith, h.0) in
    let high : (d + little ds * 256) / 256 ≡ little ds = omega (arith, h.0) in
    ap₂ ◌⊻◌ (ap (make_crc_tables p (length ds)) low)
      (ap (slices p (length ds)) high ∙ slices-little p ds h.1)

-- The sum of the entries of a number's bytes is what the bytes do to a checksum.
pub entries-serial :
    (p crc : ℕ) (bytes : List ℕ) (d : ℕ) (ds : List ℕ)
    → IsBytes bytes
    → IsBytes (d ∷ ds)
    → length bytes ≡ suc (length ds)
    → crc ⊻ little bytes ≡ little (d ∷ ds)
    → left (make_crc_tables p (length ds) d) (entries p ds) ≡ serial p crc bytes
entries-serial p crc bytes d ds h k len same =
    left-right (make_crc_tables p (length ds) d) (entries p ds)
    ∙ sym (
        serial-little p crc bytes h
        ∙ ap₂ (byte_steps p) len same
        ∙ byte_steps-slices p (suc (length ds)) (little (d ∷ ds))
        ∙ slices-little p (d ∷ ds) k)
