-- ===== src/Prelude/Int.antt =====
-- Signed 64-bit numbers that stay in range, over the native ℕ.
use Prim.Native.Nat.{ℕ, suc, ◌+◌, ◌-◌, ◌*◌}
use mathlib.Core.Path.{◌≡◌, ap}
use native.Mathlib.Omega.{arith}
use ngs3fs.Prelude.Tests.{ltb, if◌then◌else◌, Bool-cases}
use mathlib.Core.Logic.{inl, inr}

-- `negsuc n` is -(n + 1).
pub data ℤ : Type 0 where
  pos negsuc : ℕ → ℤ

infixl 60 ◌⊖◌ ◌+ℤ◌
-- The difference of two natural numbers.
abbrev pub ◌⊖◌ : ℕ → ℕ → ℤ
a ⊖ b = if ltb a b then negsuc (b - a - 1) else pos (a - b)

abbrev pub ◌+ℤ◌ : ℤ → ℤ → ℤ
pos a +ℤ pos b = pos (a + b)
pos a +ℤ negsuc b = a ⊖ suc b
negsuc a +ℤ pos b = b ⊖ suc a
negsuc a +ℤ negsuc b = negsuc (suc (a + b))

-- A product with a number that is not negative.
abbrev pub scale : ℤ → ℕ → ℤ
scale (pos a) n = pos (a * n)
scale (negsuc a) n = 0 ⊖ (suc a * n)

-- `z` is `a - b`.
abbrev pub Is : ℤ → ℕ → ℕ → Type 0
Is (pos n) a b = n + b ≡ a
Is (negsuc n) a b = suc n + a ≡ b

pub Is-diff : (a b : ℕ) → Is (a ⊖ b) a b
Is-diff a b = elim (Bool-cases (ltb a b)) [
  | inl t ↦ rw t (ground (arith, t))
  | inr f ↦ rw f (ground (arith, f))
]

pub Is-unique : (y z : ℤ) (a b : ℕ) → Is y a b → Is z a b → y ≡ z
Is-unique (pos m) (pos n) a b h k = ap pos (omega (arith, h, k))
Is-unique (pos m) (negsuc n) a b h k = absurd (omega (arith, h, k))
Is-unique (negsuc m) (pos n) a b h k = absurd (omega (arith, h, k))
Is-unique (negsuc m) (negsuc n) a b h k = ap negsuc (omega (arith, h, k))

pub Is-move : (z : ℤ) (a b c d : ℕ) → a + d ≡ c + b → Is z a b → Is z c d
Is-move (pos n) a b c d e h = omega (arith, e, h)
Is-move (negsuc n) a b c d e h = omega (arith, e, h)

pub Is-add : (y z : ℤ) (a b c d : ℕ) → Is y a b → Is z c d → Is (y +ℤ z) (a + c) (b + d)
Is-add (pos m) (pos n) a b c d h k = omega (arith, h, k)
Is-add (pos m) (negsuc n) a b c d h k =
    Is-move (m ⊖ suc n) m (suc n) (a + c) (b + d) (omega (arith, h, k)) (Is-diff m (suc n))
Is-add (negsuc m) (pos n) a b c d h k =
    Is-move (n ⊖ suc m) n (suc m) (a + c) (b + d) (omega (arith, h, k)) (Is-diff n (suc m))
Is-add (negsuc m) (negsuc n) a b c d h k = omega (arith, h, k)

pub Is-scale : (z : ℤ) (a b n : ℕ) → Is z a b → Is (scale z n) (a * n) (b * n)
Is-scale (pos m) a b n h = omega (arith, ap (λ (t : ℕ). t * n) h)
Is-scale (negsuc m) a b n h =
    Is-move (0 ⊖ (suc m * n)) 0 (suc m * n) (a * n) (b * n) (omega (arith, ap (λ (t : ℕ). t * n) h))
      (Is-diff 0 (suc m * n))
