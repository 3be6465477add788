-- ===== src/Cache/Bitmap/Field.antt =====
-- The two-bit fields of one word: `put_bits` writes one field and keeps the others, and a masked
-- comparison compares the fields under the mask.
use Prim.Native.Nat.{bit_and, bit_or}
use native.Mathlib.Nat.{div-div-eq-div-mul, pow-suc}
use ngs3fs.Prelude.{
  ℕ, zero, suc, ◌+◌, ◌-◌, ◌*◌, ◌/◌, ◌%◌, ◌^◌, ◌≤◌, ◌<◌, ◌≡◌, refl, arith, ap₂, ◌∙◌, ◌≢◌, ap,
}
use ngs3fs.Prelude.Bits.{and_quad, or_quad, or-zero, and_three, pow_quad}

-- The field at `i`, by recursion.
unfoldable pub field : ℕ → ℕ → ℕ
field x zero = x % 4
field x (suc i) = field (x / 4) i

pub field-lt : (x i : ℕ) → field x i < 4
unfolding field
field-lt x zero = omega arith
field-lt x (suc i) = field-lt (x / 4) i

-- The code's `(x >> shift) & 3`.
pub field_lem : (i x : ℕ) → bit_and (x / 2 ^ (i * 2)) 3 ≡ field x i
unfolding field
field_lem zero x = rw and_three (omega arith)
field_lem (suc i) x = rw (pow_quad i, ← div-div-eq-div-mul x 4 (2 ^ (i * 2))) (field_lem i (x / 4))

-- `and` with all fields but the one at `i`, of `n` fields.
abbrev pub others : ℕ → ℕ → ℕ
others n i = 2 ^ (n * 2) - 1 - 3 * 2 ^ (i * 2)

pub pow_pos : (i : ℕ) → 0 < 2 ^ i
pow_pos zero = omega arith
pow_pos (suc i) = rw pow-suc (omega (arith, pow_pos i))

pub pow_room : (n i : ℕ) → i < n → 4 * 2 ^ (i * 2) ≤ 2 ^ (n * 2)
pow_room zero i h = absurd (omega arith)
pow_room (suc n) zero h = omega (arith, pow_quad n, pow_pos (n * 2))
pow_room (suc n) (suc i) h = omega (arith, pow_quad n, pow_quad i, pow_room n i (omega arith))

others-suc : (n i : ℕ) → i < n → others (suc n) (suc i) ≡ others n i * 4 + 3
others-suc n i h = omega (arith, pow_quad n, pow_quad i, pow_room n i h, pow_pos (i * 2))

-- Writing the field at `i` in a word of `n` fields.
unfoldable pub write_field : ℕ → ℕ → ℕ → ℕ → ℕ
write_field n i x v = bit_or (bit_and x (others n i)) (v * 2 ^ (i * 2))

pub field-low : (a r : ℕ) → r < 4 → field (a * 4 + r) 0 ≡ r
unfolding field
field-low a r h = omega arith

pub field-high : (a r j : ℕ) → r < 4 → field (a * 4 + r) (suc j) ≡ field a j
unfolding field
field-high a r j h = ap (λ (t : ℕ). field t j) (omega arith)

low_mask-suc : (n : ℕ) → 2 ^ (suc n * 2) - 1 ≡ (2 ^ (n * 2) - 1) * 4 + 3
low_mask-suc n = omega (arith, pow_quad n, pow_pos (n * 2))

pub and-four_three : (x m : ℕ) → bit_and x (m * 4 + 3) ≡ bit_and (x / 4) m * 4 + x % 4
and-four_three x m =
    let e : (m * 4 + 3) / 4 ≡ m = omega arith in
    omega (arith, and_quad x (m * 4 + 3), ap (bit_and (x / 4)) e)

pub and-four : (x m : ℕ) → bit_and x (m * 4) ≡ bit_and (x / 4) m * 4
and-four x m =
    let e : m * 4 / 4 ≡ m = omega arith in omega (arith, and_quad x (m * 4), ap (bit_and (x / 4)) e)

or-four : (a r m : ℕ) → r < 4 → bit_or (a * 4 + r) (m * 4) ≡ bit_or a m * 4 + r
or-four a r m h =
    let e : m * 4 / 4 ≡ m = omega arith in
    let d : (a * 4 + r) / 4 ≡ a = omega arith in
    omega (arith, or_quad (a * 4 + r) (m * 4), ap₂ bit_or d e)

or-low : (a v : ℕ) → v < 4 → bit_or (a * 4) v ≡ a * 4 + v
or-low a v h =
    let e : v / 4 ≡ 0 = omega arith in
    let d : a * 4 / 4 ≡ a = omega arith in
    omega (arith, or_quad (a * 4) v, ap₂ bit_or d e, or-zero a)

field-low_mask : (n y j : ℕ) → j < n → field (bit_and y (2 ^ (n * 2) - 1)) j ≡ field y j
unfolding field
field-low_mask zero y j h = absurd (omega arith)
field-low_mask (suc n) y zero h =
    omega
      (arith, low_mask-suc n, ap (bit_and y) (low_mask-suc n), and-four_three y (2 ^ (n * 2) - 1))
field-low_mask (suc n) y (suc j) h =
    rw (low_mask-suc n, and-four_three y (2 ^ (n * 2) - 1))
      (field-high (bit_and (y / 4) (2 ^ (n * 2) - 1)) (y % 4) j (omega arith)
        ∙ field-low_mask n (y / 4) j (omega arith))

write_field-zero :
    (n x v : ℕ) → v < 4 → write_field (suc n) 0 x v ≡ bit_and (x / 4) (2 ^ (n * 2) - 1) * 4 + v
unfolding write_field
write_field-zero n x v h =
    let e : others (suc n) 0 ≡ (2 ^ (n * 2) - 1) * 4 = omega (arith, pow_quad n, pow_pos (n * 2)) in
    let d : v * 2 ^ (0 * 2) ≡ v = omega arith in
    rw (e, d, and-four x (2 ^ (n * 2) - 1)) (or-low (bit_and (x / 4) (2 ^ (n * 2) - 1)) v h)

write_field-suc :
    (n i x v : ℕ) → i < n → write_field (suc n) (suc i) x v ≡ write_field n i (x / 4) v * 4 + x % 4
unfolding write_field
write_field-suc n i x v h =
    let d : v * 2 ^ (suc i * 2) ≡ v * 2 ^ (i * 2) * 4 =
      omega (arith, ap (λ (t : ℕ). v * t) (pow_quad i)) in
    rw (others-suc n i h, d, and-four_three x (others n i))
      (or-four (bit_and (x / 4) (others n i)) (x % 4) (v * 2 ^ (i * 2)) (omega arith))

pub field-write_field_self : (n i x v : ℕ) → i < n → v < 4 → field (write_field n i x v) i ≡ v
field-write_field_self zero i x v h k = absurd (omega arith)
field-write_field_self (suc n) zero x v h k =
    rw (write_field-zero n x v k) (field-low (bit_and (x / 4) (2 ^ (n * 2) - 1)) v k)
field-write_field_self (suc n) (suc i) x v h k = rw (write_field-suc n i x v (omega arith)) (
    field-high (write_field n i (x / 4) v) (x % 4) i (omega arith)
    ∙ field-write_field_self n i (x / 4) v (omega arith) k)

pub field-write_field_ne :
    (n i j x v : ℕ) → i < n → j < n → i ≢ j → v < 4 → field (write_field n i x v) j ≡ field x j
unfolding field
field-write_field_ne zero i j x v hi hj ne k = absurd (omega arith)
field-write_field_ne (suc n) zero zero x v hi hj ne k = absurd (ne refl)
field-write_field_ne (suc n) zero (suc j) x v hi hj ne k = rw (write_field-zero n x v k) (
    field-high (bit_and (x / 4) (2 ^ (n * 2) - 1)) v j k ∙ field-low_mask n (x / 4) j (omega arith))
field-write_field_ne (suc n) (suc i) zero x v hi hj ne k =
    rw (write_field-suc n i x v (omega arith))
      (field-low (write_field n i (x / 4) v) (x % 4) (omega arith))
field-write_field_ne (suc n) (suc i) (suc j) x v hi hj ne k =
    rw (write_field-suc n i x v (omega arith)) (
      field-high (write_field n i (x / 4) v) (x % 4) j (omega arith)
      ∙ field-write_field_ne n i j (x / 4) v (omega arith) (omega arith) (λ e. ne (ap suc e)) k)
