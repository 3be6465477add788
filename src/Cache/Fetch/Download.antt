-- ===== src/Cache/Fetch/Download.antt =====
-- What `publish_clean` makes of the pages of a download.
use ngs3fs.Prelude.{
  ℕ, ◌+◌, ◌-◌, ◌*◌, ◌/◌, ◌≤◌, ◌<◌, min, false, ◌&&◌, leb, ltb, ◌≡◌, refl, arith, ◌∙◌, inl, inr, ◌⊎◌,
  add64, length, Bool-cases, inside,
}
use ngs3fs.Cache.Bitmap.{PageState, Words, page_size, page_state}
use ngs3fs.Cache.Entry.{Entry, ActiveFetch, block_first_page, block_last_page, change_pages}
use ngs3fs.Cache.Entry.Pages.{state-change_pages}
use ngs3fs.Cache.Entry.Geometry.{
  Geometry, IsAligned, aligned_pages, first_page-aligned, last_page-aligned, aligned_gap,
}

-- A download begins at a block and ends at a block or with the object; so does the part that is
-- published; and it remembers the states of no page behind its end.
pub record IsDownload (block_size size : ℕ) (a : ActiveFetch) : Type 0 where
  pub aligned : a.offset / block_size * block_size ≡ a.offset
  pub fits : a.offset + a.length ≤ size
  pub whole :
      (a.offset + a.length ≡ size)
      ⊎ ((a.offset + a.length) / block_size * block_size ≡ a.offset + a.length)
  pub progress : a.published ≤ a.length
  pub at :
      (a.published ≡ a.length)
      ⊎ ((a.offset + a.published) / block_size * block_size ≡ a.offset + a.published)
  pub prior :
      a.offset / page_size + length a.prior_states
      ≤ (a.offset + a.length + page_size - 1) / page_size

-- Where a block ends.
abbrev pub stop_of : Entry → ℕ → ℕ
stop_of e block = min e.size (block + e.block_size)

pub add64_stop :
    (e : Entry) (block : ℕ)
    → Geometry e
    → block < e.size
    → min e.size (add64 block e.block_size) ≡ stop_of e block
add64_stop e block g lt = omega (arith, g.size_max, g.block_max)

-- The block lies within the download, and ends with it or at a block.
pub within_download :
    (e : Entry) (a : ActiveFetch) (block : ℕ)
    → Geometry e
    → IsDownload e.block_size e.size a
    → IsAligned e block
    → block < a.offset + a.length
    → (stop_of e block ≤ a.offset + a.length)
      × ((a.offset + a.length ≡ stop_of e block) ⊎ (stop_of e block ≡ block + e.block_size))
within_download e a block g d at lt = go d.whole
  where
    go :
        (a.offset + a.length ≡ e.size) ⊎ IsAligned e (a.offset + a.length)
        → (stop_of e block ≤ a.offset + a.length)
          × ((a.offset + a.length ≡ stop_of e block) ⊎ (stop_of e block ≡ block + e.block_size))
    go (inl all) = elim (Bool-cases (leb (block + e.block_size) e.size)) [
      | inl t ↦ (omega arith, inr (ground (arith, t)))
      | inr f ↦ (omega arith, inl (ground (arith, f, all)))
    ]
    go (inr aligned) =
        let gap : block + e.block_size ≤ a.offset + a.length =
          aligned_gap e.block_size block (a.offset + a.length) g.block_pos at aligned lt in
        (omega arith, inr (omega (arith, gap, d.fits)))

-- Of the pages of one block, and of no other, those in the first state change.
pub change_block :
    (e : Entry) (w : Words) (block q : ℕ)
    → Geometry e
    → IsAligned e block
    → block < e.size
    → (leb block (q * page_size) && ltb (q * page_size) (stop_of e block)) ≡ false
    → (from to : PageState)
    → page_state
        (change_pages w
          (block_first_page e block)
          (block_last_page e block - block_first_page e block)
          from
          to)
        q
      ≡ page_state w q
change_block e w block q g a lt outside from to =
    state-change_pages w (block_first_page e block)
      (block_last_page e block - block_first_page e block) from to q
    ∙ rw missed refl
  where
    missed :
        inside (block_first_page e block) (block_last_page e block - block_first_page e block) q
        ≡ false
    missed =
        rw (first_page-aligned e block a, last_page-aligned e block g a lt)
          (ground (arith, outside, aligned_pages e block g a))
