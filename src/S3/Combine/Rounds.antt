-- ===== src/S3/Combine/Rounds.antt =====
-- The loop of `combine_crc64` takes eight CRC steps for each byte of the length.
use native.Mathlib.Nat.{pow-suc}
use ngs3fs.Prelude.{
  ℕ, zero, suc, ◌+◌, ◌*◌, ◌/◌, ◌%◌, ◌^◌, ◌<◌, false, ◌==◌, if◌then◌else◌, ◌≡◌, arith, ap, ap₂, sym,
  ◌∙◌, inl, inr, if_elim, Bool-cases, ==_iff,
}
use ngs3fs.Prelude.Xor.{◌⊻◌, zero-xor, xor-zero}
use ngs3fs.S3.Crc.{bit_step, bit_steps}
use ngs3fs.S3.Crc.Linear.{bit_steps-xor}
use ngs3fs.S3.Crc.Update.{bit_steps_small}
use ngs3fs.S3.Combine.{gf2_matrix_times, gf2_matrix_square, first_rows, combine_rounds}
use ngs3fs.S3.Combine.Matrix.{Stands, times_lem, square_lem}

-- The steps of the digits of the length add up.
digits_of : (n : ℕ) → n ≡ n % 2 + 2 * (n / 2 % 2) + 4 * (n / 2 / 2)
digits_of n = omega arith

all : (j n : ℕ) → j * (n % 2) + (j + j) * (n / 2 % 2) + (j + j + (j + j)) * (n / 2 / 2) ≡ j * n
all j n = omega (arith, ap (λ (t : ℕ). j * t) (digits_of n))

last_two : (j n : ℕ) → n / 2 / 2 ≡ 0 → j * (n % 2) + (j + j) * (n / 2 % 2) ≡ j * n
last_two j n h = omega (arith, all j n, ap (λ (t : ℕ). (j + j + (j + j)) * t) h)

last : (j n : ℕ) → n / 2 ≡ 0 → j * (n % 2) ≡ j * n
last j n h = let same : n % 2 ≡ n = omega (arith, h) in ap (λ (t : ℕ). j * t) same

pub bit_steps_add : (p a b v : ℕ) → bit_steps p a (bit_steps p b v) ≡ bit_steps p (b + a) v
unfolding bit_steps
bit_steps_add p a zero v = let same : a ≡ 0 + a = omega arith in ap (λ t. bit_steps p t v) same
bit_steps_add p a (suc b) v =
    let same : suc (b + a) ≡ suc b + a = omega arith in
    bit_steps_add p a b (bit_step p v) ∙ ap (λ t. bit_steps p t v) same

module _ (p : ℕ) (hp : p < 2 ^ 64) where
  abbrev pub Runs : (ℕ → ℕ) → ℕ → Type 0
  Runs matrix k = Stands matrix (bit_steps p k)

  pub first_rows_lem : Runs (first_rows p) 1
  unfolding first_rows bit_steps bit_step
  first_rows_lem zero low = sym (zero-xor p)
  first_rows_lem (suc i) low =
      let half : 2 ^ suc i / 2 ≡ 2 ^ i = omega (arith, pow-suc 2 i) in
      let even : 2 ^ suc i % 2 ≡ 0 = omega (arith, pow-suc 2 i) in
      sym (ap₂ ◌⊻◌ half (ap (λ (t : ℕ). if t == 1 then p else 0) even) ∙ xor-zero (2 ^ i))

  pub twice : (matrix : ℕ → ℕ) (k : ℕ) → Runs matrix k → Runs (gf2_matrix_square matrix) (k + k)
  twice matrix k s i low =
      square_lem (bit_steps p k) (bit_steps-xor p k) matrix (λ v h. bit_steps_small 64 p k v hp h) s
        i low
      ∙ bit_steps_add p k k (2 ^ i)

  -- A digit of the length chooses whether the steps are taken.
  chosen :
      (matrix : ℕ → ℕ) (k n v : ℕ)
      → Runs matrix k
      → v < 2 ^ 64
      → (if n % 2 == 1 then gf2_matrix_times matrix v else v) ≡ bit_steps p (k * (n % 2)) v
  unfolding bit_steps
  chosen matrix k n v s small = elim (Bool-cases (n % 2 == 1)) [
    | inl odd ↦
        let one : k * (n % 2) ≡ k =
          omega (arith, ap (λ (t : ℕ). k * t) ((==_iff (n % 2) 1).0 odd)) in
        rw odd (
          times_lem (bit_steps p k) (bit_steps-xor p k) matrix v s small
          ∙ ap (λ t. bit_steps p t v) (sym one))
    | inr even ↦
        let none : k * (n % 2) ≡ 0 = omega (arith, ap (λ (t : ℕ). k * t) (is_even even)) in
        rw even (ap (λ t. bit_steps p t v) (sym none))
  ]
    where
      is_even : (n % 2 == 1) ≡ false → n % 2 ≡ 0
      is_even e = ground (arith, e)

  pub combine_rounds_lem :
      (fuel : ℕ) (odd : ℕ → ℕ) (k v n : ℕ)
      → Runs odd k
      → v < 2 ^ 64
      → n < 4 ^ fuel
      → combine_rounds fuel odd v n ≡ bit_steps p ((k + k) * n) v
  unfolding combine_rounds bit_steps
  combine_rounds_lem zero odd k v n s small few =
      let none : n ≡ 0 = omega (arith, few) in
      let gone : 0 ≡ (k + k) * n = omega (arith, ap (λ (t : ℕ). (k + k) * t) none) in
      ap (λ t. bit_steps p t v) gone
  combine_rounds_lem (suc fuel) odd k v n s small few =
      let j = k + k in
      let even = gf2_matrix_square odd in
      let odd' = gf2_matrix_square even in
      let s' = twice odd k s in
      let s'' = twice even j s' in
      let first' : ℕ = (if n % 2 == 1 then gf2_matrix_times even v else v) in
      let first'' : ℕ = (if n / 2 % 2 == 1 then gf2_matrix_times odd' first' else first') in
      let one = chosen even j n v s' small in
      let small' : first' < 2 ^ 64 = rw one (bit_steps_small 64 p (j * (n % 2)) v hp small) in
      let two = chosen odd' (j + j) (n / 2) first' s'' small' in
      let small'' : first'' < 2 ^ 64 =
        rw two (bit_steps_small 64 p ((j + j) * (n / 2 % 2)) first' hp small') in
      let both =
        two
        ∙ ap (bit_steps p ((j + j) * (n / 2 % 2))) one
        ∙ bit_steps_add p ((j + j) * (n / 2 % 2)) (j * (n % 2)) v in
      if_elim (λ t. t ≡ bit_steps p (j * n) v) (n / 2 == 0)
        (λ h. one ∙ ap (λ (t : ℕ). bit_steps p t v) (last j n ((==_iff (n / 2) 0).0 h)))
        (λ _.
          if_elim (λ t. t ≡ bit_steps p (j * n) v) (n / 2 / 2 == 0)
            (λ h.
              both ∙ ap (λ (t : ℕ). bit_steps p t v) (last_two j n ((==_iff (n / 2 / 2) 0).0 h)))
            (λ _.
              combine_rounds_lem fuel odd' (j + j) first'' (n / 2 / 2) s'' small''
                (omega (arith, few, pow-suc 4 fuel))
              ∙ ap (bit_steps p ((j + j + (j + j)) * (n / 2 / 2))) both
              ∙ bit_steps_add p ((j + j + (j + j)) * (n / 2 / 2))
                  (j * (n % 2) + (j + j) * (n / 2 % 2)) v
              ∙ ap (λ (t : ℕ). bit_steps p t v) (all j n)))
