-- ===== src/Cache/Claim/Free.antt =====
-- The loops of `claim_fetch`: what holds of the page where the claim begins, and of all the pages
-- up to its end.
use ngs3fs.Prelude.{
  ℕ, zero, suc, ◌+◌, ◌-◌, ◌*◌, ◌/◌, ◌≤◌, ◌<◌, min, true, false, ◌&&◌, ltb, ◌==◌, not, ◌≡◌, refl,
  arith, ap, sym, ◌∙◌, Bool-cases, inl, inr, if_elim, some, ◌⊎◌, word, ltb→lt, ==_iff,
}
use ngs3fs.Cache.Bitmap.{PageState, Words, page_size, page_state, missing, read_pending, clean, bad}
use ngs3fs.Cache.Entry.{Entry, block_first_page, block_last_page}
use ngs3fs.Cache.Entry.Geometry.{
  Geometry, IsAligned, aligned_pages, IsAligned-next, first_page-aligned, last_page-aligned,
  block_of_page,
}
use ngs3fs.Cache.Claim.{
  seek_step, first_missing, is_busy, BlockScan, scan_pages, before_pages, scan_block, stops_at,
  cut_end,
}

-- A missing page among the `n` from `p` on.
abbrev pub Missing : Words → ℕ → ℕ → ℕ → Type 0
Missing w p n m = (p ≤ m) × (m < p + n) × (page_state w m ≡ missing)

seek_step_lem :
    (w : Words) (p n m : ℕ) (s : PageState)
    → (first_missing w (p + 1) n ≡ some m → Missing w (p + 1) n m)
    → page_state w p ≡ s
    → seek_step s p (first_missing w (p + 1) n) ≡ some m
    → Missing w p (suc n) m
unfolding seek_step
seek_step_lem w p n m missing rest e q =
    let same : p ≡ m = cc in (omega arith, omega arith, ap (page_state w) (sym same) ∙ e)
seek_step_lem w p n m read_pending rest e q = absurd (cc)
seek_step_lem w p n m clean rest e q =
    let (lo, hi, found) = rest q in (omega arith, omega arith, found)
seek_step_lem w p n m bad rest e q = absurd (cc)

-- `first_missing` finds a page of its run, and it is missing.
pub first_missing_lem : (w : Words) (p n m : ℕ) → first_missing w p n ≡ some m → Missing w p n m
unfolding first_missing
first_missing_lem w p zero m h = absurd (cc)
first_missing_lem w p (suc n) m h =
    seek_step_lem w p n m (page_state w p) (first_missing_lem w (p + 1) n m) refl h

-- No download or bad page is here, and the page's region is not pinned.
pub record Free (e : Entry) (q : ℕ) : Type 0 where
  pub idle : is_busy (page_state e.words q) ≡ false
  pub unpinned :
      (ltb (q * page_size / e.block_size) e.regions
        && not (e.pins (q * page_size / e.block_size) == 0))
      ≡ false

-- Every page from `start` up to the offset `x`.
abbrev pub FreeUpTo : Entry → ℕ → ℕ → Type 0
FreeUpTo e start x = (q : ℕ) → start / page_size ≤ q → q * page_size < x → Free e q

scan_pages_lem :
    (w : Words) (p n : ℕ) (s : BlockScan)
    → (scan_pages w p n s).blocked ≡ false
    → (s.blocked ≡ false) × ((q : ℕ) → p ≤ q → q < p + n → is_busy (page_state w q) ≡ false)
unfolding scan_pages
scan_pages_lem w p zero s h = (h, λ q lo hi. absurd (omega arith))
scan_pages_lem w p (suc n) s h = elim (Bool-cases s.blocked) [
  | inl b ↦ absurd (ground (arith, b, h))
  | inr b ↦
      let rest = scan_pages_lem w (p + 1) n _ (rw b at h) in
      (
        b,
        λ q lo hi. elim (Bool-cases (p == q)) [
          | inl e ↦ ap (λ t. is_busy (page_state w t)) (sym ((==_iff p q).0 e)) ∙ rest.0
          | inr ne ↦ rest.1 q (ground (arith, ne)) (omega arith)
        ],
      )
]

-- A block that does not stop the claim has no busy page, and its region is not pinned.
scan_block_lem :
    (e : Entry) (start b : ℕ)
    → Geometry e
    → IsAligned e b
    → b < e.size
    → stops_at e start b ≡ false
    → (q : ℕ) → b / page_size ≤ q
    → q * page_size < min e.size (b + e.block_size)
    → Free e q
unfolding stops_at scan_block
scan_block_lem e start b g a h stop q lo hi =
    let (pin, idle) =
      scan_pages_lem e.words (block_first_page e b) (block_last_page e b - block_first_page e b)
        (before_pages e b) (ground (arith, stop)) in
    let whole = aligned_pages e b g a in
    let region = block_of_page e b (q * page_size) g a (omega arith) (omega arith) in
    record {
      idle =
          idle q (omega (arith, first_page-aligned e b a))
            (omega (arith, first_page-aligned e b a, last_page-aligned e b g a h));
      unpinned = rw region pin;
    }

-- The cut end of a claim: no further than asked, with all pages free up to it; and it is the end
-- that was asked for, or the claim is empty, or it reaches behind the first block.
pub record Cut (e : Entry) (start b end x : ℕ) : Type 0 where
  pub low : x ≤ end
  pub free : FreeUpTo e start x
  pub reaches : (x ≡ end) ⊎ (b ≤ x)

-- A round that does not stop extends the free pages by its block.
free_further :
    (e : Entry) (start b end : ℕ)
    → Geometry e
    → IsAligned e b
    → end ≤ e.size
    → b < end
    → stops_at e start b ≡ false
    → FreeUpTo e start (min b end)
    → FreeUpTo e start (min (b + e.block_size) end)
free_further e start b end g a fits lt go free q lo hi = elim (Bool-cases (ltb (q * page_size) b)) [
  | inl old ↦ free q lo (ground (arith, old))
  | inr new ↦
      scan_block_lem e start b g a (omega arith) go q (ground (arith, new, aligned_pages e b g a))
        (ground (arith, hi))
]

further_reaches : {x b end : ℕ} (s : ℕ) → (x ≡ end) ⊎ (b + s ≤ x) → (x ≡ end) ⊎ (b ≤ x)
further_reaches s (inl e) = inl e
further_reaches s (inr h) = inr (omega arith)

-- Of a round that goes on, what the rest of the loop gives.
Cut-further :
    {e : Entry} {start b end x : ℕ} → Cut e start (b + e.block_size) end x → Cut e start b end x
Cut-further {e} c = record {
  low = c.low;
  free = c.free;
  reaches = further_reaches e.block_size c.reaches;
}

Cut-stop :
    {e : Entry} {start b end : ℕ} → b < end → FreeUpTo e start (min b end) → Cut e start b end b
Cut-stop lt free = record {
  low = omega arith;
  free = λ q lo hi. free q lo (omega arith);
  reaches = inr (omega arith);
}

Cut-all :
    {e : Entry} {start b end : ℕ} → end ≤ b → FreeUpTo e start (min b end) → Cut e start b end end
Cut-all le free = record {
  low = omega arith;
  free = λ q lo hi. free q lo (omega arith);
  reaches = inl refl;
}

no_wrap :
    {e : Entry} {b end : ℕ}
    → Geometry e
    → end ≤ e.size
    → b < end
    → ltb (word - 1 - e.block_size) b ≡ true
    → ⊥
no_wrap g fits lt wrap = ground (arith, wrap, g.size_max, g.block_max)

pub cut_end_lem :
    (fuel : ℕ) (e : Entry) (start b end : ℕ)
    → Geometry e
    → IsAligned e b
    → end ≤ e.size
    → end ≤ b + fuel * e.block_size
    → FreeUpTo e start (min b end)
    → Cut e start b end (cut_end fuel e start b end)
unfolding cut_end
cut_end_lem zero e start b end g a fits enough free = Cut-all (omega arith) free
cut_end_lem (suc fuel) e start b end g a fits enough free =
    if_elim (Cut e start b end) (ltb b end)
      (λ l.
        let lt : b < end = ltb→lt b end l in
        if_elim (Cut e start b end) (stops_at e start b) (λ _. Cut-stop lt free)
          (λ go.
            if_elim (Cut e start b end) (ltb (word - 1 - e.block_size) b)
              (λ wrap. absurd (no_wrap {e = e} g fits lt wrap))
              (λ _. Cut-further (
                cut_end_lem fuel e start (b + e.block_size) end g (IsAligned-next e b g a) fits
                  (omega arith) (free_further e start b end g a fits lt go free)))))
      (λ l. Cut-all (ground (arith, l)) free)

-- Before the first round there is no page.
pub none_before :
    (e : Entry) (start end : ℕ) → Geometry e → IsAligned e start → FreeUpTo e start (min start end)
none_before e start end g a q lo hi = absurd (omega (arith, aligned_pages e start g a))

-- A claim that is not empty has its whole first block, or all that was asked for.
pub first_round :
    (fuel : ℕ) (e : Entry) (start end : ℕ)
    → Geometry e
    → IsAligned e start
    → end ≤ e.size
    → end ≤ start + suc fuel * e.block_size
    → start < cut_end (suc fuel) e start start end
    → (cut_end (suc fuel) e start start end ≡ end)
      ⊎ (start + e.block_size ≤ cut_end (suc fuel) e start start end)
unfolding cut_end
first_round fuel e start end g a fits enough =
    if_elim Reach (ltb start end)
      (λ l.
        let lt : start < end = ltb→lt start end l in
        if_elim Reach (stops_at e start start) (λ _ h. absurd (omega arith))
          (λ go.
            if_elim Reach (ltb (word - 1 - e.block_size) start) (λ _ h. inl refl)
              (λ _ h.
                (cut_end_lem fuel e start (start + e.block_size) end g (IsAligned-next e start g a)
                  fits (omega arith)
                  (free_further e start start end g a fits lt go
                    (none_before e start end g a))).reaches)))
      (λ _ h. inl refl)
  where
    Reach : ℕ → Type 0
    Reach x = start < x → (x ≡ end) ⊎ (start + e.block_size ≤ x)
