-- ===== src/Prelude/Blocks.antt =====
-- Division by the size of a block.
use Prim.Native.Nat.{ℕ, ◌/◌, ◌≤◌, ◌<◌}
use native.Mathlib.Omega.{arith}
use native.Mathlib.Nat.{le-div_iff_mul-le, div-mul-le_self}

pub div_mono : (a b c : ℕ) → 0 < c → a ≤ b → a / c ≤ b / c
div_mono a b c h k =
    (le-div_iff_mul-le {k = c} {x = a / c} {y = b} h).1 (omega (arith, div-mul-le_self a c))
