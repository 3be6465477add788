-- ===== src/S3/Combine/Matrix.antt =====
-- The matrices stand for runs of CRC steps.
use native.Mathlib.Nat.{pow-suc, one-le-pow, pow-le-pow_right}
use ngs3fs.Prelude.{
  ℕ, zero, suc, ◌+◌, ◌*◌, ◌/◌, ◌%◌, ◌^◌, ◌≤◌, ◌<◌, ◌==◌, if◌then◌else◌, ◌≡◌, arith, ap, sym, ◌∙◌,
  inl, inr, if_elim, Bool-cases, ==_iff,
}
use ngs3fs.Prelude.Xor.{◌⊻◌, zero-xor, xor-zero, xor_self, xor_assoc, xor_fields}
use ngs3fs.S3.Combine.{times_loop, gf2_matrix_times, gf2_matrix_square}

-- The rows of the matrix are what the function makes of the powers of two.
abbrev pub Stands : (ℕ → ℕ) → (ℕ → ℕ) → Type 0
Stands matrix f = (i : ℕ) → i < 64 → matrix i ≡ f (2 ^ i)

next_power : (bit : ℕ) → 2 ^ (bit + 1) ≡ 2 * 2 ^ bit
next_power bit =
    let same : bit + 1 ≡ suc bit = omega arith in
    ap (λ (t : ℕ). 2 ^ t) same ∙ omega (arith, pow-suc 2 bit)

odd_parts : (v bit : ℕ) → v % 2 ≡ 1 → 2 ^ bit ⊻ (v / 2 * 2 ^ (bit + 1)) ≡ v * 2 ^ bit
odd_parts v bit odd =
    let pos = one-le-pow bit 2 (omega arith) in
    let next = next_power bit in
    let none : 0 + v / 2 * 2 ^ (bit + 1) ≡ v / 2 * 2 ^ (bit + 1) = omega arith in
    let whole : v ≡ 2 * (v / 2) + 1 = omega (arith, odd) in
    ap (λ t. 2 ^ bit ⊻ t) (sym none)
    ∙ (xor_fields (bit + 1) (2 ^ bit) 0 (v / 2) (omega (arith, next, pos))
        (omega (arith, next, pos))).0
    ∙ omega (
      arith,
      xor-zero (2 ^ bit),
      ap (λ (t : ℕ). v / 2 * t) next,
      ap (λ (t : ℕ). t * 2 ^ bit) whole,
    )

even_parts : (v bit : ℕ) → v % 2 ≡ 0 → v / 2 * 2 ^ (bit + 1) ≡ v * 2 ^ bit
even_parts v bit even =
    let whole : v ≡ 2 * (v / 2) = omega (arith, even) in
    omega (arith, ap (λ (t : ℕ). v / 2 * t) (next_power bit), ap (λ (t : ℕ). t * 2 ^ bit) whole)

power_63 : (i : ℕ) → i ≤ 63 → 2 ^ i ≤ 2 ^ 63
power_63 i h = pow-le-pow_right (omega arith) h

power : (i : ℕ) → i < 64 → 2 ^ i < 2 ^ 64
power i low = omega (arith, power_63 i (omega (arith, low)))

module _ (f : ℕ → ℕ) (linear : (a b : ℕ) → f (a ⊻ b) ≡ f a ⊻ f b) where
  at_zero : f 0 ≡ 0
  at_zero = ap f (sym (xor_self 0)) ∙ linear 0 0 ∙ xor_self (f 0)

  -- A shifted number by its lowest digit.
  split_odd : (v bit : ℕ) → v % 2 ≡ 1 → f (v * 2 ^ bit) ≡ f (2 ^ bit) ⊻ f (v / 2 * 2 ^ (bit + 1))
  split_odd v bit odd = ap f (sym (odd_parts v bit odd)) ∙ linear (2 ^ bit) (v / 2 * 2 ^ (bit + 1))

  nothing : (v bit sum : ℕ) → v ≡ 0 → sum ≡ sum ⊻ f (v * 2 ^ bit)
  nothing v bit sum none =
      let gone : v * 2 ^ bit ≡ 0 = omega (arith, ap (λ (t : ℕ). t * 2 ^ bit) none) in
      sym (ap (λ t. sum ⊻ t) (ap f gone ∙ at_zero) ∙ xor-zero sum)

  times_loop_lem :
      (fuel : ℕ) (matrix : ℕ → ℕ) (v bit sum : ℕ)
      → Stands matrix f
      → v < 2 ^ fuel
      → bit + fuel ≤ 64
      → times_loop fuel matrix v bit sum ≡ sum ⊻ f (v * 2 ^ bit)
  unfolding times_loop
  times_loop_lem zero matrix v bit sum s small room = nothing v bit sum (omega (arith, small))
  times_loop_lem (suc fuel) matrix v bit sum s small room =
      let rest : (sum' : ℕ)
          → times_loop fuel matrix (v / 2) (bit + 1) sum' ≡ sum' ⊻ f (v / 2 * 2 ^ (bit + 1)) =
        λ sum'.
          times_loop_lem fuel matrix (v / 2) (bit + 1) sum' s (omega (arith, small, pow-suc 2 fuel))
            (omega (arith, room)) in
      if_elim (λ t. t ≡ sum ⊻ f (v * 2 ^ bit)) (v == 0)
        (λ none. nothing v bit sum ((==_iff v 0).0 none))
        (λ _. elim (Bool-cases (v % 2 == 1)) [
          | inl odd ↦
              rest (if v % 2 == 1 then sum ⊻ matrix bit else sum)
              ∙ ap (λ t. t ⊻ f (v / 2 * 2 ^ (bit + 1)))
                  (rw odd (ap (λ t. sum ⊻ t) (s bit (omega (arith, room)))))
              ∙ xor_assoc sum (f (2 ^ bit)) (f (v / 2 * 2 ^ (bit + 1)))
              ∙ ap (λ t. sum ⊻ t) (sym (split_odd v bit ((==_iff (v % 2) 1).0 odd)))
          | inr even ↦
              rest (if v % 2 == 1 then sum ⊻ matrix bit else sum)
              ∙ rw even (ap (λ t. sum ⊻ f t) (even_parts v bit (ground (arith, even))))
        ])

  pub times_lem :
      (matrix : ℕ → ℕ) (v : ℕ) → Stands matrix f → v < 2 ^ 64 → gf2_matrix_times matrix v ≡ f v
  unfolding gf2_matrix_times
  times_lem matrix v s small =
      let same : v * 2 ^ 0 ≡ v = omega arith in
      times_loop_lem 64 matrix v 0 0 s small (omega arith) ∙ zero-xor (f (v * 2 ^ 0)) ∙ ap f same

  -- The square stands for the function twice.
  pub square_lem :
      (matrix : ℕ → ℕ)
      → ((v : ℕ) → v < 2 ^ 64 → f v < 2 ^ 64)
      → Stands matrix f
      → Stands (gf2_matrix_square matrix) (λ v. f (f v))
  unfolding gf2_matrix_square
  square_lem matrix bounded s i low =
      times_lem matrix (matrix i) s (rw (s i low) (bounded (2 ^ i) (power i low))) ∙ ap f (s i low)
