-- ===== src/Cache/Bitmap/Mask.antt =====
-- Two words agree under the mask of a run of fields exactly if they agree in each of its fields.
use Prim.Native.Nat.{bit_and}
use ngs3fs.Prelude.{
  ℕ, zero, suc, ◌+◌, ◌-◌, ◌*◌, ◌/◌, ◌^◌, ◌≤◌, ◌<◌, ◌≡◌, refl, arith, ◌==◌, leb, ap, if◌then◌else◌,
  Bool, true, ==_iff, le→leb,
}
use ngs3fs.Prelude.Bits.{pow_quad, and-zero}
use ngs3fs.Prelude.Table.{passes, passes_at}
use ngs3fs.Cache.Bitmap.{field_mask}
use ngs3fs.Cache.Bitmap.Field.{field, and-four_three, and-four, pow_pos}

-- The mask of the `c` fields from `i` on.
abbrev pub run_mask : ℕ → ℕ → ℕ
run_mask i c = (2 ^ (c * 2) - 1) * 2 ^ (i * 2)

run_mask-suc_start : (i c : ℕ) → run_mask (suc i) c ≡ run_mask i c * 4
run_mask-suc_start i c = omega (arith, ap (λ (t : ℕ). (2 ^ (c * 2) - 1) * t) (pow_quad i))

run_mask-suc_count : (c : ℕ) → run_mask 0 (suc c) ≡ run_mask 0 c * 4 + 3
run_mask-suc_count c =
    let e : 2 ^ (0 * 2) ≡ 1 = omega arith in rw e (omega (arith, pow_quad c, pow_pos (c * 2)))

pub fields_of_masked :
    (i c x y j : ℕ)
    → bit_and x (run_mask i c) ≡ bit_and y (run_mask i c)
    → i ≤ j
    → j < i + c
    → field x j ≡ field y j
unfolding field
fields_of_masked zero zero x y j h lo hi = absurd (omega arith)
fields_of_masked zero (suc c) x y zero h lo hi = omega (
  arith,
  rw (run_mask-suc_count c, and-four_three x (run_mask 0 c), and-four_three y (run_mask 0 c)) at h,
)
fields_of_masked zero (suc c) x y (suc j) h lo hi =
    let e =
      rw (run_mask-suc_count c, and-four_three x (run_mask 0 c), and-four_three y (run_mask 0 c)) at
        h in
    fields_of_masked zero c (x / 4) (y / 4) j (omega (arith, e)) (omega arith) (omega arith)
fields_of_masked (suc i) c x y zero h lo hi = absurd (omega arith)
fields_of_masked (suc i) c x y (suc j) h lo hi =
    let e =
      rw (run_mask-suc_start i c, and-four x (run_mask i c), and-four y (run_mask i c)) at h in
    fields_of_masked i c (x / 4) (y / 4) j (omega (arith, e)) (omega arith) (omega arith)

pub masked_of_fields :
    (i c x y : ℕ)
    → ((j : ℕ) → i ≤ j → j < i + c → field x j ≡ field y j)
    → bit_and x (run_mask i c) ≡ bit_and y (run_mask i c)
unfolding field
masked_of_fields zero zero x y h =
    let e : run_mask 0 0 ≡ 0 = omega arith in rw (e, and-zero x, and-zero y) refl
masked_of_fields zero (suc c) x y h =
    rw (run_mask-suc_count c, and-four_three x (run_mask 0 c), and-four_three y (run_mask 0 c))
      (omega (
        arith,
        h 0 (omega arith) (omega arith),
        masked_of_fields zero c (x / 4) (y / 4) (λ j p q. h (suc j) (omega arith) (omega arith)),
      ))
masked_of_fields (suc i) c x y h =
    rw (run_mask-suc_start i c, and-four x (run_mask i c), and-four y (run_mask i c))
      (ap (λ (t : ℕ). t * 4)
        (masked_of_fields i c (x / 4) (y / 4) (λ j p q. h (suc j) (omega arith) (omega arith))))

-- The mask that the code builds by shifts, for every run within a word.
mask_row : ℕ → ℕ → Bool
mask_row i c = if leb (i + c) 32 then field_mask (i * 2) c == run_mask i c else true

mask_table : passes (λ i. passes (mask_row i) 33) 33 ≡ true
unfolding passes mask_row field_mask
mask_table = refl

pub field_mask-eq-run_mask : (i c : ℕ) → i + c ≤ 32 → field_mask (i * 2) c ≡ run_mask i c
unfolding mask_row
field_mask-eq-run_mask i c h = (==_iff _ _).0 (rw (le→leb (i + c) 32 h) at row)
  where
    row : mask_row i c ≡ true
    row =
        passes_at (mask_row i) 33 c (omega arith)
          (passes_at (λ a. passes (mask_row a) 33) 33 i (omega arith) mask_table)
