-- ===== src/Fuse/Multipart/Copy.antt =====
-- The parts of a multipart copy tile the object.
use ngs3fs.Prelude.{
  ℕ, zero, suc, ◌+◌, ◌-◌, ◌*◌, ◌/◌, ◌^◌, ◌≤◌, ◌<◌, min, ltb, List, [], ◌∷◌, none, some, length,
  add64, mul64, sub64, ◌≡◌, refl, arith, ap, subst, inl, inr, ◌⊎◌, Bool-cases,
}
use ngs3fs.Fuse.Multipart.{part_size, maximum_parts, copy_parts, copy_ranges}

-- The ranges, with their ends, follow each other from `begin` to the end of the object, and each is
-- a part that is not empty and has 1 GiB at most.
abbrev pub Tiles : ℕ → List (ℕ × ℕ) → ℕ → Type 0
Tiles begin [] size = begin ≡ size
Tiles begin ((b, e) ∷ ranges) size =
    (b ≡ begin) × (b ≤ e) × (e < begin + part_size) × Tiles (e + 1) ranges size

copy_parts-Tiles :
    (n part size : ℕ)
    → size + part_size < 2 ^ 64
    → (part + n) * part_size < size + part_size
    → size ≤ (part + n) * part_size
    → Tiles (min size (part * part_size)) (copy_parts n part size) size
unfolding copy_parts
copy_parts-Tiles zero part size small low high = omega (arith, high)
copy_parts-Tiles (suc n) part size small low high =
    let exact : mul64 part part_size ≡ part * part_size = omega (arith, low, small) in
    let end : sub64 (min size (add64 (mul64 part part_size) part_size)) 1
        ≡ min size ((part + 1) * part_size) - 1 =
      omega (arith, exact, low, small) in
    let next : sub64 (min size (add64 (mul64 part part_size) part_size)) 1 + 1
        ≡ min size ((part + 1) * part_size) =
      omega (arith, end, low) in
    (
      omega (arith, exact, low),
      omega (arith, exact, end, low),
      omega (arith, end, low),
      rw next (copy_parts-Tiles n (part + 1) size small (omega (arith, low)) (omega (arith, high))),
    )

length-copy_parts : (n part size : ℕ) → length (copy_parts n part size) ≡ n
unfolding copy_parts
length-copy_parts zero part size = refl
length-copy_parts (suc n) part size = ap suc (length-copy_parts n (part + 1) size)

-- Of an object that is not within 1 GiB of 2 ^ 64 bytes: `multipart_copy_object` refuses it, and it
-- has more than 10000 GiB; or it copies 10000 parts at most, of 1 GiB at most each, whose ranges
-- follow each other from the first byte of the object to its last.
pub copy_ranges-Tiles :
    (size : ℕ)
    → size + part_size < 2 ^ 64
    → ((copy_ranges size ≡ none) × (maximum_parts * part_size < size))
      ⊎ ((ranges : List (ℕ × ℕ)) × (copy_ranges size ≡ some ranges)
          × (length ranges ≤ maximum_parts)
          × Tiles 0 ranges size)
unfolding copy_ranges
copy_ranges-Tiles size small =
    let first : min size (0 * part_size) ≡ 0 = omega arith in
    let count : sub64 (add64 size part_size) 1 ≡ size + part_size - 1 = omega (arith, small) in
    elim (Bool-cases (ltb maximum_parts (sub64 (add64 size part_size) 1 / part_size))) [
      | inl many ↦ inl (rw many refl, ground (arith, many, count))
      | inr few ↦ inr (
        copy_parts (sub64 (add64 size part_size) 1 / part_size) 0 size,
        rw few refl,
        ground (arith, few, length-copy_parts (sub64 (add64 size part_size) 1 / part_size) 0 size),
        subst
            (λ (b : ℕ).
              Tiles b (copy_parts (sub64 (add64 size part_size) 1 / part_size) 0 size) size)
            first
            (copy_parts-Tiles (sub64 (add64 size part_size) 1 / part_size) 0 size small
              (omega (arith, count)) (omega (arith, count))),
      )
    ]
