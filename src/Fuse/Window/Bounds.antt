-- ===== src/Fuse/Window/Bounds.antt =====
-- The window of a handle stays between a block and the maximum.
use ngs3fs.Prelude.{
  zero, suc, ℕ, ◌*◌, ◌/◌, ◌≤◌, ◌<◌, max, Bool, true, ◌==◌, not, if_elim, ◌≡◌, arith, word, add64,
  sub64,
}
use native.Mathlib.Nat.{le-div_iff_mul-le, div-mul-le_self}
use ngs3fs.Fuse.Window.{
  OpenHandle, maximum_window, initial_window, grown, next_window, cache_fetch_expansion,
}

-- A handle that was read has a window between a block and the maximum.
pub record IsWindow (handle : OpenHandle) (block limit : ℕ) : Type 0 where
  pub above : handle.cache_read_seen ≡ true → block ≤ handle.cache_read_window
  pub below : handle.cache_read_seen ≡ true → handle.cache_read_window ≤ maximum_window block limit

Within : ℕ → ℕ → ℕ → Type 0
Within block limit n = (block ≤ n) × (n ≤ maximum_window block limit)

maximum-below :
    (block limit : ℕ)
    → 0 < block
    → block < word
    → limit < word
    → (block ≤ maximum_window block limit) × (maximum_window block limit < word)
unfolding maximum_window
maximum-below block limit h k l =
    let part : limit / block * block ≤ limit = div-mul-le_self limit block in
    (omega arith, omega (arith, part))

mul_above : (q b : ℕ) → 1 ≤ q → b ≤ q * b
mul_above zero b h = absurd (omega (arith, h))
mul_above (suc q) b h = omega arith

rounded_above : (x b : ℕ) → 0 < b → b ≤ x → b ≤ x / b * b
rounded_above x b h k =
    mul_above (x / b) b ((le-div_iff_mul-le {k = b} {x = 1} {y = x} h).1 (omega (arith, k)))

initial-Within :
    (block limit : ℕ)
    → 0 < block
    → block < 2147483648
    → limit < word
    → Within block limit (initial_window block limit)
unfolding Within initial_window
initial-Within block limit h k l =
    let big = rounded_above (sub64 (add64 8388608 block) 1) block h (omega (arith, h, k)) in
    let m = maximum-below block limit h (omega (arith, k)) l in
    (omega (arith, big, m.0), omega arith)

grown-Within :
    (block limit window : ℕ)
    → maximum_window block limit < word
    → Within block limit window
    → Within block limit
        (max (initial_window block limit) (grown window (maximum_window block limit)))
unfolding Within grown initial_window
grown-Within block limit window m v = (omega (arith, m, v.0, v.1), omega (arith, m, v.0, v.1))

next-Within :
    (handle : OpenHandle) (block limit offset : ℕ) (covered : Bool)
    → 0 < block
    → block < 2147483648
    → limit < word
    → IsWindow handle block limit
    → Within block limit (next_window handle block limit covered offset)
unfolding next_window Within
next-Within handle block limit offset covered h k l v =
    let first = initial-Within block limit h k l in
    let m = maximum-below block limit h (omega (arith, k)) l in
    let one : Within block limit block = (omega arith, m.0) in
    if_elim (Within block limit) (not handle.cache_read_seen)
      (λ _. if_elim (Within block limit) (offset == 0) (λ _. first) (λ _. one))
      (λ seen.
        let w : Within block limit handle.cache_read_window =
          (v.above (ground (arith, seen)), v.below (ground (arith, seen))) in
        if_elim (Within block limit) covered (λ _. w)
          (λ _.
            if_elim (Within block limit) (offset == handle.cache_last_read_end)
              (λ _. grown-Within block limit handle.cache_read_window m.1 w) (λ _. one)))

-- For blocks of less than 2 GiB and a limit below 2 ^ 64: a read keeps the window of its handle
-- between a block and the maximum, and fetches the bytes that are wanted, and no more than those or
-- the maximum.
pub cache_fetch_expansion-IsWindow :
    (handle : OpenHandle) (block limit offset wanted : ℕ) (covered : Bool)
    → 0 < block
    → block < 2147483648
    → limit < word
    → IsWindow handle block limit
    → IsWindow (cache_fetch_expansion handle block limit covered offset wanted).1 block limit
      × (wanted ≤ (cache_fetch_expansion handle block limit covered offset wanted).0)
      × ((cache_fetch_expansion handle block limit covered offset wanted).0
          ≤ max wanted (maximum_window block limit))
unfolding cache_fetch_expansion Within
cache_fetch_expansion-IsWindow handle block limit offset wanted covered h k l v =
    let w = next-Within handle block limit offset covered h k l v in
    (record { above = λ _. w.0; below = λ _. w.1 }, omega arith, omega (arith, w.1))
