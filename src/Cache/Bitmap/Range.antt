-- ===== src/Cache/Bitmap/Range.antt =====
-- `range_all_state` compares a whole word at a time under a mask; it holds exactly if every page
-- of the range has the state.
use ngs3fs.Prelude.{
  ℕ, zero, suc, ◌+◌, ◌-◌, ◌*◌, ◌/◌, ◌%◌, ◌≤◌, ◌<◌, min, ◌≡◌, refl, ◌↔◌, arith, word, ◌==◌, Bool,
  true, false, ap, ==_iff, ltb, Bool-cases, inl, inr, ◌∙◌, sym, lt→ltb, ltb→lt,
}
use ngs3fs.Prelude.Table.{passes, passes_at}
use ngs3fs.Cache.Bitmap.{
  PageState, missing, read_pending, clean, bad, bits, from_bits, Words, page_state, page_size,
  last_page, pattern_of, field_mask, same_field, all_state_loop, range_all_state,
}
use ngs3fs.Cache.Bitmap.Field.{field, field-lt}
use ngs3fs.Cache.Bitmap.Mask.{fields_of_masked, masked_of_fields, field_mask-eq-run_mask}
use ngs3fs.Cache.Bitmap.Update.{page_state-field, from_bits-bits, bits-from_bits}

-- Every page from `a` up to `b`, without `b`, has the state.
abbrev pub AllState : Words → ℕ → ℕ → PageState → Type 0
AllState w a b s = (q : ℕ) → a ≤ q → q < b → page_state w q ≡ s

pattern_row : PageState → ℕ → Bool
pattern_row s j = field (pattern_of s) j == bits s

pattern_table : (s : PageState) → passes (pattern_row s) 32 ≡ true
unfolding passes pattern_row pattern_of bits field
pattern_table missing = refl
pattern_table read_pending = refl
pattern_table clean = refl
pattern_table bad = refl

field-pattern_of : (s : PageState) (j : ℕ) → j < 32 → field (pattern_of s) j ≡ bits s
unfolding pattern_row
field-pattern_of s j h = (==_iff _ _).0 (passes_at (pattern_row s) 32 j h (pattern_table s))

-- A page has the state if the field of its word holds the state's bits.
state_of_field :
    (w : Words) (q : ℕ) (s : PageState) → field (w (q / 32)) (q % 32) ≡ bits s → page_state w q ≡ s
state_of_field w q s h = page_state-field w q ∙ ap from_bits h ∙ from_bits-bits s

field_of_state :
    (w : Words) (q : ℕ) (s : PageState) → page_state w q ≡ s → field (w (q / 32)) (q % 32) ≡ bits s
field_of_state w q s h =
    sym (bits-from_bits (field (w (q / 32)) (q % 32)) (field-lt (w (q / 32)) (q % 32)))
    ∙ ap bits (sym (page_state-field w q) ∙ h)

module _ (w : Words) (s : PageState) (page count : ℕ) (fits : page % 32 + count ≤ 32) where
  abbrev here : ℕ
  here = w (page / 32)

  abbrev mask : ℕ
  mask = field_mask (page % 32 * 2) count

  same_field→ : same_field here (pattern_of s) mask ≡ true → AllState w page (page + count) s
  unfolding same_field
  same_field→ h q lo hi =
      let row : q / 32 ≡ page / 32 = omega arith in
      let e =
        fields_of_masked (page % 32) count here (pattern_of s) (q % 32)
          (rw (field_mask-eq-run_mask (page % 32) count fits) at ((==_iff _ _).0 h)) (omega arith)
          (omega arith) in
      state_of_field w q s
        (ap (λ (t : ℕ). field (w t) (q % 32)) row ∙ e ∙ field-pattern_of s (q % 32) (omega arith))

  →same_field : AllState w page (page + count) s → same_field here (pattern_of s) mask ≡ true
  unfolding same_field
  →same_field all = (==_iff _ _).1 (
      rw (field_mask-eq-run_mask (page % 32) count fits)
        (masked_of_fields (page % 32) count here (pattern_of s) λ j lo hi. one j lo hi))
    where
      one : (j : ℕ) → page % 32 ≤ j → j < page % 32 + count → field here j ≡ field (pattern_of s) j
      one j lo hi =
          let q : ℕ = page / 32 * 32 + j in
          let row : q / 32 ≡ page / 32 = omega arith in
          let col : q % 32 ≡ j = omega arith in
          sym (ap (λ (t : ℕ). field (w t) j) row)
          ∙ sym (ap (λ (t : ℕ). field (w (q / 32)) t) col)
          ∙ field_of_state w q s (all q (omega arith) (omega arith))
          ∙ sym (field-pattern_of s j (omega arith))

abbrev chunk : ℕ → ℕ → ℕ
chunk page last = min (32 - page % 32) (last - page)

loop→ :
    (fuel : ℕ) (w : Words) (page last : ℕ) (s : PageState)
    → all_state_loop fuel w page last s ≡ true
    → AllState w page last s
unfolding all_state_loop
loop→ zero w page last s h q lo hi = ground arith
loop→ (suc fuel) w page last s h q lo hi =
    elim (Bool-cases
      (same_field (w (page / 32)) (pattern_of s) (field_mask (page % 32 * 2) count))) [
        | inl ok ↦
            let rest =
              loop→ fuel w (page + count) last s (rw (lt→ltb page last (omega arith), ok) at h) q in
            elim (Bool-cases (ltb q (page + count))) [
              | inl now ↦
                  same_field→ w s page count (omega arith) ok q lo (ltb→lt q (page + count) now)
              | inr later ↦ rest (ground (arith, later)) hi
            ]
        | inr differs ↦ absurd (stop (rw (lt→ltb page last (omega arith), differs) at h))
      ]
  where
    count : ℕ
    count = chunk page last

    stop : false ≡ true → ⊥
    stop e = cc

→loop :
    (fuel : ℕ) (w : Words) (page last : ℕ) (s : PageState)
    → last - page < fuel
    → AllState w page last s
    → all_state_loop fuel w page last s ≡ true
unfolding all_state_loop
→loop zero w page last s h all = absurd (omega arith)
→loop (suc fuel) w page last s h all = elim (Bool-cases (ltb page last)) [
  | inl more ↦
      let lt : page < last = ltb→lt page last more in
      let same =
        →same_field w s page (chunk page last) (omega arith) (λ q lo hi. all q lo (omega arith)) in
      rw (more, same)
        (→loop fuel w (page + chunk page last) last s (omega arith)
          (λ q lo hi. all q (omega arith) hi))
  | inr done ↦ rw done refl
]

-- On a range that is not empty and ends below 2 ^ 64, `range_all_state` returns true exactly if
-- every page that the range meets has the state.
pub range_all_state_iff :
    (w : Words) (offset length : ℕ) (s : PageState)
    → 0 < length
    → offset + length < word
    → (range_all_state w offset length s ≡ true)
      ↔ AllState w (offset / page_size) ((offset + length - 1) / page_size + 1) s
unfolding range_all_state
range_all_state_iff w offset length s h k =
    rw (nonzero, end) (loop→ _ w first last s, →loop _ w first last s (omega arith))
  where
    first : ℕ
    first = offset / page_size

    last : ℕ
    last = (offset + length - 1) / page_size + 1

    nonzero : (length == 0) ≡ false
    nonzero = ground arith

    end : last_page offset length ≡ (offset + length - 1) / page_size
    end = omega arith
