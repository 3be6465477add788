-- ===== src/Prelude/Xor.antt =====
-- `^` on words, and `|` of fields that do not meet.
use Prim.Native.Nat.{
  ℕ, zero, suc, ◌+◌, ◌*◌, ◌/◌, ◌%◌, ◌^◌, ◌≤◌, ◌<◌, bit_or, bit_xor, differ, bit_xor-bitwise,
}
use mathlib.Core.Path.{◌≡◌, ap, sym, ◌∙◌}
use native.Mathlib.Omega.{arith}
use native.Mathlib.Nat.{pow-suc}
use ngs3fs.Prelude.Bits.{one_digit, or_bit, or_zero_left}

infixl 60 ◌⊻◌
abbrev pub ◌⊻◌ : ℕ → ℕ → ℕ
a ⊻ b = bit_xor a b

pub zero-xor : (y : ℕ) → 0 ⊻ y ≡ y
zero-xor y = bit_xor-bitwise zero y

-- One digit more.
pub xor_bit : (x y : ℕ) → x ⊻ y ≡ (x / 2 ⊻ y / 2) * 2 + differ (x % 2) (y % 2)
xor_bit zero y = omega (arith, zero-xor y, zero-xor (y / 2))
xor_bit (suc x) y =
    bit_xor-bitwise (suc x) y
    ∙ one_digit (λ t. t) differ x y
    ∙ ap (λ (t : ℕ). t * 2 + differ (suc x % 2) (y % 2)) (sym (bit_xor-bitwise (suc x / 2) (y / 2)))

differ_lem : (a b : ℕ) → a < 2 → b < 2 → differ a b ≡ (a + b) % 2
differ_lem zero b h k = omega arith
differ_lem (suc zero) zero h k = omega arith
differ_lem (suc zero) (suc zero) h k = omega arith
differ_lem (suc zero) (suc (suc b)) h k = absurd (omega arith)
differ_lem (suc (suc a)) b h k = absurd (omega arith)

pub xor_half : (x y : ℕ) → (x ⊻ y) / 2 ≡ x / 2 ⊻ y / 2
xor_half x y = omega (arith, xor_bit x y, differ_lem (x % 2) (y % 2) (omega arith) (omega arith))

pub xor_parity : (x y : ℕ) → (x ⊻ y) % 2 ≡ (x % 2 + y % 2) % 2
xor_parity x y = omega (arith, xor_bit x y, differ_lem (x % 2) (y % 2) (omega arith) (omega arith))

-- Each law halves the numbers; `k` bounds them.
xor-zero_upto : (k x : ℕ) → x ≤ k → x ⊻ 0 ≡ x
xor-zero_upto k zero u = zero-xor 0
xor-zero_upto zero (suc x) u = absurd (omega arith)
xor-zero_upto (suc k) (suc x) u =
    omega
      (arith, xor_half (suc x) 0, xor_parity (suc x) 0, xor-zero_upto k (suc x / 2) (omega arith))

pub xor-zero : (x : ℕ) → x ⊻ 0 ≡ x
xor-zero x = xor-zero_upto x x (omega arith)

xor_self_upto : (k x : ℕ) → x ≤ k → x ⊻ x ≡ 0
xor_self_upto k zero u = zero-xor 0
xor_self_upto zero (suc x) u = absurd (omega arith)
xor_self_upto (suc k) (suc x) u = omega (
  arith,
  xor_half (suc x) (suc x),
  xor_parity (suc x) (suc x),
  xor_self_upto k (suc x / 2) (omega arith),
)

pub xor_self : (x : ℕ) → x ⊻ x ≡ 0
xor_self x = xor_self_upto x x (omega arith)

xor_comm_upto : (k x y : ℕ) → x ≤ k → x ⊻ y ≡ y ⊻ x
xor_comm_upto k zero y u = zero-xor y ∙ sym (xor-zero y)
xor_comm_upto zero (suc x) y u = absurd (omega arith)
xor_comm_upto (suc k) (suc x) y u = omega (
  arith,
  xor_half (suc x) y,
  xor_half y (suc x),
  xor_parity (suc x) y,
  xor_parity y (suc x),
  xor_comm_upto k (suc x / 2) (y / 2) (omega arith),
)

pub xor_comm : (x y : ℕ) → x ⊻ y ≡ y ⊻ x
xor_comm x y = xor_comm_upto x x y (omega arith)

-- Numbers with one half and one parity are equal.
by_halves : (a b : ℕ) → a / 2 ≡ b / 2 → a % 2 ≡ b % 2 → a ≡ b
by_halves a b h k = omega arith

xor_assoc_upto : (k x y z : ℕ) → x ≤ k → x ⊻ y ⊻ z ≡ x ⊻ (y ⊻ z)
xor_assoc_upto k zero y z u = ap (λ t. t ⊻ z) (zero-xor y) ∙ sym (zero-xor (y ⊻ z))
xor_assoc_upto zero (suc x) y z u = absurd (omega arith)
xor_assoc_upto (suc k) (suc x) y z u =
    by_halves (suc x ⊻ y ⊻ z) (suc x ⊻ (y ⊻ z))
      (xor_half (suc x ⊻ y) z
        ∙ ap (λ t. t ⊻ z / 2) (xor_half (suc x) y)
        ∙ xor_assoc_upto k (suc x / 2) (y / 2) (z / 2) (omega arith)
        ∙ ap (λ t. suc x / 2 ⊻ t) (sym (xor_half y z))
        ∙ sym (xor_half (suc x) (y ⊻ z)))
      (omega (
        arith,
        xor_parity (suc x ⊻ y) z,
        xor_parity (suc x) y,
        xor_parity (suc x) (y ⊻ z),
        xor_parity y z,
      ))

pub xor_assoc : (x y z : ℕ) → x ⊻ y ⊻ z ≡ x ⊻ (y ⊻ z)
xor_assoc x y z = xor_assoc_upto x x y z (omega arith)

pub xor_swap : (a b c d : ℕ) → a ⊻ b ⊻ (c ⊻ d) ≡ a ⊻ c ⊻ (b ⊻ d)
xor_swap a b c d =
    xor_assoc a b (c ⊻ d)
    ∙ ap (λ t. a ⊻ t) (sym (xor_assoc b c d) ∙ ap (λ t. t ⊻ d) (xor_comm b c) ∙ xor_assoc c b d)
    ∙ sym (xor_assoc a c (b ⊻ d))

double : (k z : ℕ) → z * 2 ^ suc k ≡ 2 * (z * 2 ^ k)
double k z = omega (arith, ap (λ (t : ℕ). z * t) (pow-suc 2 k))

-- The low `k` digits of the sum of fields are those of the first.
pub xor_fields :
    (k x y z : ℕ)
    → x < 2 ^ k
    → y < 2 ^ k
    → (x ⊻ (y + z * 2 ^ k) ≡ (x ⊻ y) + z * 2 ^ k) × ((x ⊻ y) < 2 ^ k)
xor_fields zero x y z hx hy =
    let none : x ≡ 0 = omega (arith, hx) in
    let none' : y ≡ 0 = omega (arith, hy) in
    rw (none, none', zero-xor (0 + z * 1), zero-xor 0) (omega arith, omega arith)
xor_fields (suc k) x y z hx hy =
    let twice = double k z in
    let low = pow-suc 2 k in
    let (half, small) = xor_fields k (x / 2) (y / 2) z (omega arith) (omega arith) in
    let shifted : (y + z * 2 ^ suc k) / 2 ≡ y / 2 + z * 2 ^ k = omega (arith, twice) in
    (
      by_halves (x ⊻ (y + z * 2 ^ suc k)) ((x ⊻ y) + z * 2 ^ suc k)
          (xor_half x (y + z * 2 ^ suc k)
            ∙ ap (λ t. x / 2 ⊻ t) shifted
            ∙ omega (arith, half, xor_half x y, twice))
          (omega (arith, xor_parity x (y + z * 2 ^ suc k), xor_parity x y, twice)),
      omega (arith, xor_half x y, small, low),
    )

pub or_fields : (k x z : ℕ) → x < 2 ^ k → bit_or x (z * 2 ^ k) ≡ x + z * 2 ^ k
or_fields zero x z h =
    let none : x ≡ 0 = omega (arith, h) in rw (none, or_zero_left (z * 1)) (omega arith)
or_fields (suc k) x z h =
    let twice = double k z in
    let low = pow-suc 2 k in
    let shifted : z * 2 ^ suc k / 2 ≡ z * 2 ^ k = omega (arith, twice) in
    let half = ap (λ t. bit_or (x / 2) t) shifted ∙ or_fields k (x / 2) z (omega arith) in
    omega (arith, or_bit x (z * 2 ^ suc k), half, twice)
