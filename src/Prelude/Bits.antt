-- ===== src/Prelude/Bits.antt =====
-- `&` and `|` on words read two bits at a time, the width of a page state.
use Prim.Native.Nat.{
  ℕ, zero, suc, ◌+◌, ◌*◌, ◌/◌, ◌%◌, ◌^◌, ◌≤◌, min, max, bit_and, bit_or, digits, bit_and-bitwise,
  bit_or-bitwise,
}
use mathlib.Core.Path.{◌≡◌, refl, ap, sym, ◌∙◌}
use native.Mathlib.Omega.{arith}
use native.Mathlib.Nat.{pow-suc, div-div-eq-div-mul}

-- The digit recursion stops at 0, so two bounds that both reach the number give one result.
module _ (z : ℕ → ℕ) (op : ℕ → ℕ → ℕ) where
  spare : (y x k l : ℕ) → x ≤ k → x ≤ l → digits z op k x y ≡ digits z op l x y
  spare y zero zero zero u v = refl
  spare y zero zero (suc l) u v = refl
  spare y zero (suc k) zero u v = refl
  spare y zero (suc k) (suc l) u v = refl
  spare y (suc x) zero l u v = elim u [ ]
  spare y (suc x) (suc k) zero u v = elim v [ ]
  spare y (suc x) (suc k) (suc l) u v =
      ap (λ (t : ℕ). t * 2 + op (suc x % 2) (y % 2))
        (spare (y / 2) (suc x / 2) k l (omega arith) (omega arith))

  -- One binary digit of the result.
  pub one_digit :
      (x y : ℕ)
      → digits z op (suc x) (suc x) y
        ≡ digits z op (suc x / 2) (suc x / 2) (y / 2) * 2 + op (suc x % 2) (y % 2)
  one_digit x y =
      ap (λ (t : ℕ). t * 2 + op (suc x % 2) (y % 2))
        (spare (y / 2) (suc x / 2) x (suc x / 2) (omega arith) (omega arith))

and_zero_left : (y : ℕ) → bit_and zero y ≡ zero
and_zero_left y = bit_and-bitwise zero y

pub or_zero_left : (y : ℕ) → bit_or zero y ≡ y
or_zero_left y = bit_or-bitwise zero y

and_bit : (x y : ℕ) → bit_and x y ≡ bit_and (x / 2) (y / 2) * 2 + min (x % 2) (y % 2)
and_bit zero y = omega (arith, and_zero_left y, and_zero_left (y / 2))
and_bit (suc x) y =
    bit_and-bitwise (suc x) y
    ∙ one_digit (λ t. zero) min x y
    ∙ ap (λ (t : ℕ). t * 2 + min (suc x % 2) (y % 2)) (sym (bit_and-bitwise (suc x / 2) (y / 2)))

pub or_bit : (x y : ℕ) → bit_or x y ≡ bit_or (x / 2) (y / 2) * 2 + max (x % 2) (y % 2)
or_bit zero y = omega (arith, or_zero_left y, or_zero_left (y / 2))
or_bit (suc x) y =
    bit_or-bitwise (suc x) y
    ∙ one_digit (λ t. t) max x y
    ∙ ap (λ (t : ℕ). t * 2 + max (suc x % 2) (y % 2)) (sym (bit_or-bitwise (suc x / 2) (y / 2)))

-- Two bits at once.
pub and_quad :
    (a b : ℕ)
    → bit_and a b
      ≡ bit_and (a / 4) (b / 4) * 4 + min (a / 2 % 2) (b / 2 % 2) * 2 + min (a % 2) (b % 2)
and_quad a b =
    rw (← div-div-eq-div-mul a 2 2, ← div-div-eq-div-mul b 2 2)
      (omega (arith, and_bit a b, and_bit (a / 2) (b / 2)))

pub or_quad :
    (a b : ℕ)
    → bit_or a b
      ≡ bit_or (a / 4) (b / 4) * 4 + max (a / 2 % 2) (b / 2 % 2) * 2 + max (a % 2) (b % 2)
or_quad a b =
    rw (← div-div-eq-div-mul a 2 2, ← div-div-eq-div-mul b 2 2)
      (omega (arith, or_bit a b, or_bit (a / 2) (b / 2)))

-- Both zero laws halve the number; `k` bounds it.
zero_laws : (k x : ℕ) → x ≤ k → (bit_or x zero ≡ x) × (bit_and x zero ≡ zero)
zero_laws k zero u = (refl, refl)
zero_laws zero (suc x) u = elim u [ ]
zero_laws (suc k) (suc x) u =
    let half = zero_laws k (suc x / 2) (omega arith) in
    (omega (arith, or_bit (suc x) zero, half.0), omega (arith, and_bit (suc x) zero, half.1))

pub or-zero : (a : ℕ) → bit_or a 0 ≡ a
or-zero a = (zero_laws a a (omega arith)).0

pub and-zero : (a : ℕ) → bit_and a 0 ≡ 0
and-zero a = (zero_laws a a (omega arith)).1

pub and_three : (a : ℕ) → bit_and a 3 ≡ a % 4
and_three a = omega (arith, and_quad a 3, and-zero (a / 4))

-- Shifts by two bits.
pub pow_quad : (i : ℕ) → 2 ^ (suc i * 2) ≡ 4 * 2 ^ (i * 2)
pow_quad i = rw (two_steps i, pow-suc, pow-suc) (omega arith)
  where
    two_steps : (i : ℕ) → suc i * 2 ≡ suc (suc (i * 2))
    two_steps i = omega arith
