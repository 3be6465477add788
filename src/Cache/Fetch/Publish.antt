-- ===== src/Cache/Fetch/Publish.antt =====
-- `publish_clean` makes clean only pages that its download had still to publish.
use ngs3fs.Prelude.{
  ℕ, zero, suc, ◌+◌, ◌-◌, ◌*◌, ◌≤◌, ◌<◌, min, Bool, false, ◌&&◌, leb, ltb, ◌≡◌, arith, subst, ◌∙◌,
  inl, inr, ◌⊎◌, if_elim, word, add64,
}
use ngs3fs.Cache.Bitmap.{Words, page_size, page_state, read_pending, clean}
use ngs3fs.Cache.Entry.{Entry, FetchClaim, ActiveFetch}
use ngs3fs.Cache.Entry.Geometry.{Geometry, IsAligned, IsAligned-next}
use ngs3fs.Cache.Fetch.{Publishing, publish_block, is_unfinished, publish_loop}
use ngs3fs.Cache.Fetch.Download.{IsDownload, stop_of, add64_stop, within_download, change_block}

-- What the rounds have published so far, from the pages `w`.
pub record Progress (e : Entry) (a : ActiveFetch) (w : Words) (p : Publishing) : Type 0 where
  pub further : a.published ≤ p.published
  pub progress : p.published ≤ a.length
  pub at : (p.published ≡ a.length) ⊎ IsAligned e (a.offset + p.published)
  pub same :
      (q : ℕ)
      → (leb (a.offset + a.published) (q * page_size)
          && ltb (q * page_size) (a.offset + p.published))
        ≡ false
      → page_state p.words q ≡ page_state w q

-- The next block is the first that is not published, or there is none.
abbrev Ready : Entry → ActiveFetch → Publishing → ℕ → Type 0
Ready e a p block =
    ((block ≡ a.offset + p.published) × IsAligned e block) ⊎ (a.offset + a.length ≤ block)

module _ (e : Entry) (c : FetchClaim) (a : ActiveFetch) (g : Geometry e)
    (d : IsDownload e.block_size e.size a) (at : c.offset ≡ a.offset)
    (len : c.length ≡ a.length) where
  module _ (w : Words) (block : ℕ) (p : Publishing) (first : block ≡ a.offset + p.published)
      (whole : IsAligned e block) (lt : block < a.offset + a.length) (x : Progress e a w p) where
    stop_whole :
        (a.offset + a.length ≡ stop_of e block) ⊎ (stop_of e block ≡ block + e.block_size)
        → (stop_of e block - a.offset ≡ a.length)
          ⊎ IsAligned e (a.offset + (stop_of e block - a.offset))
    stop_whole (inl all) = inl (omega (arith, all))
    stop_whole (inr next) =
        let same : block + e.block_size ≡ a.offset + (stop_of e block - a.offset) =
          omega (arith, next, first) in
        inr (subst (IsAligned e) same (IsAligned-next e block g whole))

    block-Progress : Progress e a w (publish_block e c block (stop_of e block) p)
    unfolding publish_block
    block-Progress =
        let (below, ends) = within_download e a block g d whole lt in
        record {
          further = rw at (omega (arith, x.further, first, g.block_pos, d.fits));
          progress = rw at (omega (arith, below));
          at = rw at (stop_whole ends);
          same = λ q outside.
              change_block e p.words block q g whole (omega (arith, d.fits))
                (ground (arith, outside, at, first, x.further, g.block_pos, d.fits)) read_pending
                clean
              ∙ x.same q (ground (arith, outside, at, first, g.block_pos, d.fits));
        }

    Ready-next : Ready e a (publish_block e c block (stop_of e block) p) (block + e.block_size)
    unfolding publish_block
    Ready-next = go (within_download e a block g d whole lt).1
      where
        go :
            (a.offset + a.length ≡ stop_of e block) ⊎ (stop_of e block ≡ block + e.block_size)
            → Ready e a (publish_block e c block (stop_of e block) p) (block + e.block_size)
        go (inl all) = inr (omega (arith, all))
        go (inr next) = inl (omega (arith, next, at, first), IsAligned-next e block g whole)

  pub publish_loop_lem :
      (fuel : ℕ) (w : Words) (progress : ℕ) (final : Bool) (block : ℕ) (p : Publishing)
      → Ready e a p block
      → Progress e a w p
      → Progress e a w (publish_loop fuel e c progress final block p)
  unfolding publish_loop
  publish_loop_lem zero w progress final block p r x = x
  publish_loop_lem (suc fuel) w progress final block p (inr over) x =
      if_elim (Progress e a w) (ltb block (c.offset + c.length))
        (λ lt. absurd (ground (arith, lt, at, len, over))) (λ _. x)
  publish_loop_lem (suc fuel) w progress final block p (inl (first, whole)) x =
      if_elim (Progress e a w) (ltb block (c.offset + c.length))
        (λ t.
          let lt : block < a.offset + a.length = ground (arith, t, at, len) in
          let stop = add64_stop e block g (omega (arith, lt, d.fits)) in
          let here = block-Progress w block p first whole lt x in
          if_elim (Progress e a w)
            (is_unfinished e progress (min e.size (add64 block e.block_size)) final) (λ _. x)
            (λ _.
              if_elim (Progress e a w) (ltb (word - 1 - e.block_size) block) (λ _. rw stop here)
                (λ _. rw stop (
                  publish_loop_lem fuel w progress final (block + e.block_size) _
                    (Ready-next w block p first whole lt x) here))))
        (λ _. x)
