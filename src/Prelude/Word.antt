-- ===== src/Prelude/Word.antt =====
-- 64-bit machine words: the values are native numbers, and each operation wraps as the source's
-- `uint64_t` and `size_t` do. `size_t` has 64 bits.
use Prim.Native.Nat.{ℕ, ◌+◌, ◌-◌, ◌*◌, ◌%◌, ◌^◌, ◌≤◌, ◌<◌}
use mathlib.Core.Path.{◌≡◌}
use native.Mathlib.Omega.{arith}

-- UINT64_MAX + 1
abbrev pub word : ℕ
word = 2 ^ 64

abbrev pub add64 : ℕ → ℕ → ℕ
add64 a b = (a + b) % word

abbrev pub sub64 : ℕ → ℕ → ℕ
sub64 a b = (a + word - b) % word

abbrev pub mul64 : ℕ → ℕ → ℕ
mul64 a b = a * b % word

pub add64-eq-add : (a b : ℕ) → a + b < word → add64 a b ≡ a + b
add64-eq-add a b h = omega arith

pub sub64-eq-sub : (a b : ℕ) → b ≤ a → a < word → sub64 a b ≡ a - b
sub64-eq-sub a b h k = omega arith
