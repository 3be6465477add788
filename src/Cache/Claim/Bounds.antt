-- ===== src/Cache/Claim/Bounds.antt =====
-- The ends of a claim, before the loop that cuts it.
use native.Mathlib.Nat.{lt-div-mul-add, mul-div_cancel, div-mul-le_self}
use ngs3fs.Prelude.{
  ℕ, zero, suc, ◌+◌, ◌-◌, ◌*◌, ◌/◌, ◌≤◌, ◌<◌, min, max, ltb, if◌then◌else◌, ◌≡◌, refl, arith, ap,
  if_elim, word, mul64, length, leb, inl, inr, ◌⊎◌, Bool-cases,
}
use ngs3fs.Cache.Bitmap.{Words, page_size, set_page_state, read_pending}
use ngs3fs.Cache.Entry.{Entry, set_pages}
use ngs3fs.Cache.Entry.Geometry.{Geometry, IsAligned, IsAligned-next}
use ngs3fs.Cache.Claim.{round_to_block, wanted_end, claim_pages, cut_end, stops_at}

pub words-claim_pages : (w : Words) (p n : ℕ) → (claim_pages w p n).1 ≡ set_pages w p n read_pending
unfolding claim_pages set_pages
words-claim_pages w p zero = refl
words-claim_pages w p (suc n) = words-claim_pages (set_page_state w p read_pending) (p + 1) n

pub length-claim_pages : (w : Words) (p n : ℕ) → length (claim_pages w p n).0 ≡ n
unfolding claim_pages
length-claim_pages w p zero = refl
length-claim_pages w p (suc n) =
    omega (arith, length-claim_pages (set_page_state w p read_pending) (p + 1) n)

le-round_to_block : (s x : ℕ) → 0 < s → x ≤ word - 1 → x ≤ round_to_block s x
unfolding round_to_block
le-round_to_block s x h k =
    if_elim (λ t. x ≤ t) (ltb (word - 1 - (s - 1)) x) (λ _. k)
      (λ _. omega (arith, lt-div-mul-add {a = x + s - 1} {b = s} h))

-- What was asked for reaches to the end of the first block, or of the object.
pub wanted_end_low :
    (e : Entry) (start request_end expansion : ℕ)
    → Geometry e
    → start < e.size
    → expansion ≤ word - 1
    → min e.size (start + e.block_size) ≤ wanted_end e start request_end expansion
unfolding wanted_end
wanted_end_low e start request_end expansion g h bound =
    omega (arith, grown, le-round_to_block e.block_size expanded g.block_pos (omega (arith, small)))
  where
    expanded : ℕ
    expanded =
        if ltb (word - 1 - max expansion e.block_size) start
        then word - 1
        else start + max expansion e.block_size

    grown : start + e.block_size ≤ expanded
    grown = ground (arith, g.size_max, g.block_max)

    small : expanded ≤ word - 1
    small = ground (arith, bound, h, g.size_max)

pub wanted_end_high :
    (e : Entry) (start request_end expansion : ℕ)
    → wanted_end e start request_end expansion ≤ e.size
unfolding wanted_end
wanted_end_high e start request_end expansion = omega arith

round_to_block_whole :
    (e : Entry) (x : ℕ)
    → Geometry e
    → (word - 1 ≤ round_to_block e.block_size x) ⊎ IsAligned e (round_to_block e.block_size x)
unfolding round_to_block
round_to_block_whole e x g =
    if_elim (λ t. (word - 1 ≤ t) ⊎ IsAligned e t) (ltb (word - 1 - (e.block_size - 1)) x)
      (λ _. inl (omega arith))
      (λ _. inr (
        ap (λ (t : ℕ). t * e.block_size)
          (mul-div_cancel ((x + e.block_size - 1) / e.block_size) g.block_pos)))

-- What is asked for ends with the object or at a block.
whole_cases :
    (e : Entry) (x y : ℕ)
    → e.size < word - 1
    → (word - 1 ≤ x) ⊎ IsAligned e x
    → (word - 1 ≤ y) ⊎ IsAligned e y
    → (min e.size (max x y) ≡ e.size) ⊎ IsAligned e (min e.size (max x y))
whole_cases e x y h (inl a) b = inl (omega arith)
whole_cases e x y h (inr a) (inl b) = inl (omega arith)
whole_cases e x y h (inr a) (inr b) = elim (Bool-cases (leb e.size (max x y))) [
  | inl all ↦ inl (ground (arith, all))
  | inr less ↦ elim (Bool-cases (leb x y)) [
    | inl t ↦ let same : min e.size (max x y) ≡ y = ground (arith, less, t) in rw same (inr b)
    | inr t ↦ let same : min e.size (max x y) ≡ x = ground (arith, less, t) in rw same (inr a)
  ]
]

pub wanted_end_whole :
    (e : Entry) (start request_end expansion : ℕ)
    → Geometry e
    → (wanted_end e start request_end expansion ≡ e.size)
      ⊎ IsAligned e (wanted_end e start request_end expansion)
unfolding wanted_end
wanted_end_whole e start request_end expansion g =
    whole_cases e _ _ (omega (arith, g.size_max)) (round_to_block_whole e request_end g)
      (round_to_block_whole e _ g)

-- The claim is cut at a block.
pub cut_end_whole :
    (fuel : ℕ) (e : Entry) (start block end : ℕ)
    → Geometry e
    → IsAligned e block
    → (end ≡ e.size) ⊎ IsAligned e end
    → (cut_end fuel e start block end ≡ e.size) ⊎ IsAligned e (cut_end fuel e start block end)
unfolding cut_end
cut_end_whole zero e start block end g a whole = whole
cut_end_whole (suc fuel) e start block end g a whole =
    if_elim Whole (ltb block end)
      (λ _.
        if_elim Whole (stops_at e start block) (λ _. inr a)
          (λ _.
            if_elim Whole (ltb (word - 1 - e.block_size) block) (λ _. whole)
              (λ _.
                cut_end_whole fuel e start (block + e.block_size) end g (IsAligned-next e block g a)
                  whole)))
      (λ _. whole)
  where
    Whole : ℕ → Type 0
    Whole x = (x ≡ e.size) ⊎ IsAligned e x

abbrev pub begin : Entry → ℕ → ℕ
begin e page = mul64 page page_size / e.block_size * e.block_size

-- The block of a page begins at or before it.
pub begin_lem :
    (e : Entry) (page : ℕ)
    → Geometry e
    → page * page_size < e.size
    → IsAligned e (begin e page)
      × (begin e page ≤ page * page_size)
      × (page * page_size < begin e page + e.block_size)
begin_lem e page g h =
    let exact : mul64 page page_size ≡ page * page_size = omega (arith, g.size_max) in
    rw exact (
      ap (λ (t : ℕ). t * e.block_size)
          (mul-div_cancel (page * page_size / e.block_size) g.block_pos),
      div-mul-le_self (page * page_size) e.block_size,
      lt-div-mul-add {a = page * page_size} {b = e.block_size} g.block_pos,
    )

-- The fuel of `claim_from` is enough.
pub enough_rounds :
    (start wanted s : ℕ) → 0 < s → wanted ≤ start + suc ((wanted - start) / s + 1) * s
enough_rounds start wanted s h = omega (arith, lt-div-mul-add {a = wanted - start} {b = s} h)
