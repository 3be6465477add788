-- ===== src/Cache/Entry/Geometry.antt =====
-- The sizes of an entry, as `LocalCache` admits them, and what its block and page numbers are then.
use native.Mathlib.Nat.{lt_of_mul-lt-mul_right, mul-le-mul_right, add-div_right, div-eq_of_lt-le}
use ngs3fs.Prelude.{ℕ, ◌+◌, ◌-◌, ◌*◌, ◌/◌, ◌%◌, ◌^◌, ◌≤◌, ◌<◌, min, ◌≡◌, arith, ap}
use ngs3fs.Cache.Bitmap.{page_size}
use ngs3fs.Cache.Entry.{Entry, block_first_page, block_last_page}

-- A block is a positive number of pages, at most 128 MiB, an object is a file, so its size is below 2 ^ 63, and
-- `page_count_` counts its pages.
pub record Geometry (e : Entry) : Type 0 where
  pub block_pos : 0 < e.block_size
  pub block_pages : e.block_size % page_size ≡ 0
  pub block_max : e.block_size ≤ 2 ^ 27
  pub size_max : e.size < 2 ^ 63
  pub pages : e.page_count ≡ (e.size + page_size - 1) / page_size

-- An offset at the beginning of a block.
abbrev pub IsAligned : Entry → ℕ → Type 0
IsAligned e b = b / e.block_size * e.block_size ≡ b

pub aligned_pages : (e : Entry) (b : ℕ) → Geometry e → IsAligned e b → b % page_size ≡ 0
aligned_pages e b g a =
    let whole : e.block_size ≡ e.block_size / page_size * page_size =
      omega (arith, g.block_pages) in
    omega (arith, a, ap (λ (t : ℕ). b / e.block_size * t) whole)

pub IsAligned-next :
    (e : Entry) (b : ℕ) → Geometry e → IsAligned e b → IsAligned e (b + e.block_size)
IsAligned-next e b g a = rw (add-div_right b g.block_pos) (omega (arith, a))

pub first_page-aligned : (e : Entry) (b : ℕ) → IsAligned e b → block_first_page e b ≡ b / page_size
unfolding block_first_page
first_page-aligned e b a = rw a

-- The byte behind a block's last one, and its page.
pub last_page-aligned :
    (e : Entry) (b : ℕ)
    → Geometry e
    → IsAligned e b
    → b < e.size
    → block_last_page e b ≡ (min e.size (b + e.block_size) - 1) / page_size + 1
unfolding block_last_page
last_page-aligned e b g a h = rw a (ground (arith, g.size_max, g.block_max, g.pages, g.block_pos))

-- The block of a page within a block.
pub block_of_page :
    (e : Entry) (b x : ℕ)
    → Geometry e
    → IsAligned e b
    → b ≤ x
    → x < b + e.block_size
    → x / e.block_size ≡ b / e.block_size
block_of_page e b x g a lo hi =
    div-eq_of_lt-le {k = b / e.block_size} e.block_size {m = x} (omega (arith, a))
      (omega (arith, a))

-- The sizes of an entry that no operation on its downloads changes.
pub record SameShape (e e' : Entry) : Type 0 where
  pub block_size : e'.block_size ≡ e.block_size
  pub size : e'.size ≡ e.size
  pub page_count : e'.page_count ≡ e.page_count
  pub regions : e'.regions ≡ e.regions

pub SameShape-Geometry : (e e' : Entry) → SameShape e e' → Geometry e → Geometry e'
SameShape-Geometry e e' s g = record {
  block_pos = rw s.block_size g.block_pos;
  block_pages = rw s.block_size g.block_pages;
  block_max = rw s.block_size g.block_max;
  size_max = rw s.size g.size_max;
  pages = rw (s.page_count, s.size) g.pages;
}

-- Between two offsets at blocks there is a whole block.
pub aligned_gap : (s x y : ℕ) → 0 < s → x / s * s ≡ x → y / s * s ≡ y → x < y → x + s ≤ y
aligned_gap s x y h ax ay lt =
    let below : x / s < y / s = lt_of_mul-lt-mul_right s (rw (ax, ay) lt) in
    let scaled : (x / s + 1) * s ≤ y / s * s = mul-le-mul_right s (omega (arith, below)) in
    omega (arith, scaled, ax, ay)
