-- ===== src/S3/Crc/Linear.antt =====
-- Each step of a CRC is linear for `^`, and the tables are runs of steps.
use native.Mathlib.Nat.{
  pow-suc, div-div-eq-div-mul, one-le-pow, mod-lt, add-mul-mod_self_left, mod-eq_of_lt, div-add-mod,
}
use ngs3fs.Prelude.{
  ℕ, zero, suc, ◌+◌, ◌*◌, ◌/◌, ◌%◌, ◌^◌, ◌==◌, if◌then◌else◌, ◌≡◌, refl, arith, ap, ap₂, sym, ◌∙◌,
  ◌⊎◌, inl, inr,
}
use ngs3fs.Prelude.Xor.{
  ◌⊻◌, zero-xor, xor-zero, xor_self, xor_half, xor_parity, xor_swap, xor_assoc, xor_comm,
}
use ngs3fs.S3.Crc.{bit_step, bit_steps, first_table, make_crc_tables}

-- The digits of a number without its lowest.
half_digits :
    (n v : ℕ)
    → (v % 2 ^ suc n / 2 ≡ v / 2 % 2 ^ n)
      × (v / 2 ^ suc n ≡ v / 2 / 2 ^ n)
      × (v % 2 ^ suc n % 2 ≡ v % 2)
half_digits n v =
    let twice : 2 ^ suc n ≡ 2 * 2 ^ n = pow-suc 2 n ∙ omega arith in
    let pos = one-le-pow n 2 (omega arith) in
    let rest = mod-lt (v / 2) pos in
    let whole =
      ap (λ (t : ℕ). t % (2 * 2 ^ n)) (parts n v)
      ∙ add-mul-mod_self_left (2 * (v / 2 % 2 ^ n) + v % 2) (2 * 2 ^ n) (v / 2 / 2 ^ n)
      ∙ mod-eq_of_lt (omega (arith, rest)) in
    rw twice (omega (arith, whole), sym (div-div-eq-div-mul v 2 (2 ^ n)), omega (arith, whole))
  where
    parts : (n v : ℕ) → v ≡ 2 * (v / 2 % 2 ^ n) + v % 2 + 2 * 2 ^ n * (v / 2 / 2 ^ n)
    parts n v = omega (arith, div-add-mod (v / 2) (2 ^ n))

xor_right : (a b c : ℕ) → a ⊻ b ⊻ c ≡ a ⊻ c ⊻ b
xor_right a b c = xor_assoc a b c ∙ ap (λ t. a ⊻ t) (xor_comm b c) ∙ sym (xor_assoc a c b)

module _ (p : ℕ) where
  -- What the low digit of the value adds.
  abbrev taken : ℕ → ℕ
  taken v = if v % 2 == 1 then p else 0

  taken_at : (v d : ℕ) → v % 2 ≡ d → taken v ≡ (if d == 1 then p else 0)
  taken_at v d h = ap (λ (t : ℕ). if t == 1 then p else 0) h

  parity : (v : ℕ) → (v % 2 ≡ 0) ⊎ (v % 2 ≡ 1)
  parity v = omega arith

  taken-xor : (a b : ℕ) → taken (a ⊻ b) ≡ taken a ⊻ taken b
  taken-xor a b = go (parity a) (parity b)
    where
      go : (a % 2 ≡ 0) ⊎ (a % 2 ≡ 1) → (b % 2 ≡ 0) ⊎ (b % 2 ≡ 1) → taken (a ⊻ b) ≡ taken a ⊻ taken b
      go (inl x) (inl y) =
          taken_at (a ⊻ b) 0 (omega (arith, xor_parity a b, x, y))
          ∙ sym (ap₂ ◌⊻◌ (taken_at a 0 x) (taken_at b 0 y) ∙ zero-xor 0)
      go (inl x) (inr y) =
          taken_at (a ⊻ b) 1 (omega (arith, xor_parity a b, x, y))
          ∙ sym (ap₂ ◌⊻◌ (taken_at a 0 x) (taken_at b 1 y) ∙ zero-xor p)
      go (inr x) (inl y) =
          taken_at (a ⊻ b) 1 (omega (arith, xor_parity a b, x, y))
          ∙ sym (ap₂ ◌⊻◌ (taken_at a 1 x) (taken_at b 0 y) ∙ xor-zero p)
      go (inr x) (inr y) =
          taken_at (a ⊻ b) 0 (omega (arith, xor_parity a b, x, y))
          ∙ sym (ap₂ ◌⊻◌ (taken_at a 1 x) (taken_at b 1 y) ∙ xor_self p)

  bit_step-xor : (a b : ℕ) → bit_step p (a ⊻ b) ≡ bit_step p a ⊻ bit_step p b
  unfolding bit_step
  bit_step-xor a b =
      ap₂ ◌⊻◌ (xor_half a b) (taken-xor a b) ∙ xor_swap (a / 2) (b / 2) (taken a) (taken b)

  pub bit_steps-xor : (n a b : ℕ) → bit_steps p n (a ⊻ b) ≡ bit_steps p n a ⊻ bit_steps p n b
  unfolding bit_steps
  bit_steps-xor zero a b = refl
  bit_steps-xor (suc n) a b =
      ap (bit_steps p n) (bit_step-xor a b) ∙ bit_steps-xor n (bit_step p a) (bit_step p b)

  -- After `n` steps the low `n` digits have gone to the polynomial, and the others are shifted.
  pub bit_steps_low : (n v : ℕ) → bit_steps p n v ≡ bit_steps p n (v % 2 ^ n) ⊻ v / 2 ^ n
  unfolding bit_steps bit_step
  bit_steps_low zero v =
      let low : v % 1 ≡ 0 = omega arith in
      let high : v / 1 ≡ v = omega arith in sym (ap₂ ◌⊻◌ low high ∙ zero-xor v)
  bit_steps_low (suc n) v =
      let (low, high, last) = half_digits n v in
      bit_steps-xor n (v / 2) (taken v)
      ∙ ap (λ t. t ⊻ bit_steps p n (taken v)) (bit_steps_low n (v / 2))
      ∙ xor_right (bit_steps p n (v / 2 % 2 ^ n)) (v / 2 / 2 ^ n) (bit_steps p n (taken v))
      ∙ sym (
          ap₂ ◌⊻◌
            (ap₂ (λ a b. bit_steps p n (a ⊻ b)) low (taken_at (v % 2 ^ suc n) (v % 2) last)
              ∙ bit_steps-xor n (v / 2 % 2 ^ n) (taken v))
            high)

-- Entry `i` of table `k` is `i` after the steps of `k + 1` bytes.
unfoldable pub byte_steps : ℕ → ℕ → ℕ → ℕ
byte_steps p zero v = v
byte_steps p (suc n) v = bit_steps p 8 (byte_steps p n v)

pub byte_step_low : (p v : ℕ) → bit_steps p 8 v ≡ first_table p (v % 256) ⊻ v / 256
unfolding first_table
byte_step_low p v = bit_steps_low p 8 v

pub make_crc_tables-byte_steps : (p k i : ℕ) → make_crc_tables p k i ≡ byte_steps p (suc k) i
unfolding make_crc_tables byte_steps first_table
make_crc_tables-byte_steps p zero i = refl
make_crc_tables-byte_steps p (suc k) i =
    sym (byte_step_low p (make_crc_tables p k i))
    ∙ ap (bit_steps p 8) (make_crc_tables-byte_steps p k i)

pub byte_steps-xor : (p n a b : ℕ) → byte_steps p n (a ⊻ b) ≡ byte_steps p n a ⊻ byte_steps p n b
unfolding byte_steps
byte_steps-xor p zero a b = refl
byte_steps-xor p (suc n) a b =
    ap (bit_steps p 8) (byte_steps-xor p n a b)
    ∙ bit_steps-xor p 8 (byte_steps p n a) (byte_steps p n b)

-- The step of the last byte first.
pub byte_steps_first : (p n v : ℕ) → byte_steps p (suc n) v ≡ byte_steps p n (bit_steps p 8 v)
unfolding byte_steps
byte_steps_first p zero v = refl
byte_steps_first p (suc n) v = ap (bit_steps p 8) (byte_steps_first p n v)

-- What the tables give for the `n` low bytes of a number, and what is above them.
abbrev pub slices : ℕ → ℕ → ℕ → ℕ
slices p zero v = v
slices p (suc n) v = make_crc_tables p n (v % 256) ⊻ slices p n (v / 256)

pub byte_steps-slices : (p n v : ℕ) → byte_steps p n v ≡ slices p n v
unfolding byte_steps first_table
byte_steps-slices p zero v = refl
byte_steps-slices p (suc n) v =
    byte_steps_first p n v
    ∙ ap (byte_steps p n) (byte_step_low p v)
    ∙ byte_steps-xor p n (first_table p (v % 256)) (v / 256)
    ∙ ap₂ ◌⊻◌ (table n) (byte_steps-slices p n (v / 256))
  where
    table : (n : ℕ) → byte_steps p n (first_table p (v % 256)) ≡ make_crc_tables p n (v % 256)
    table n = sym (byte_steps_first p n (v % 256)) ∙ sym (make_crc_tables-byte_steps p n (v % 256))
