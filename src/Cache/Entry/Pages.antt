-- ===== src/Cache/Entry/Pages.antt =====
-- The states of the pages after the loops that write them.
use ngs3fs.Prelude.{
  ℕ, zero, suc, ◌+◌, true, false, ◌&&◌, ◌==◌, if◌then◌else◌, inside, ◌≡◌, refl, arith, ◌∙◌,
  Bool-cases, inl, inr, ==_iff,
}
use ngs3fs.Cache.Bitmap.{PageState, Words, same_state, page_state, set_page_state}
use ngs3fs.Cache.Bitmap.Update.{page_state-set_page_state}
use ngs3fs.Cache.Entry.{set_pages, change_pages}

pub same_state-eq : (s t : PageState) → same_state s t ≡ true → s ≡ t
unfolding same_state
same_state-eq s t h = ground arith

-- `set_pages` writes the pages of its run, and no other.
pub state-set_pages :
    (w : Words) (p n : ℕ) (s : PageState) (q : ℕ)
    → page_state (set_pages w p n s) q ≡ (if inside p n q then s else page_state w q)
unfolding set_pages
state-set_pages w p zero s q = ground arith
state-set_pages w p (suc n) s q =
    state-set_pages (set_page_state w p s) (p + 1) n s q
    ∙ ground (arith, page_state-set_page_state w p q s)

-- `change_pages` changes the pages of its run that are in the first state, and no other.
pub state-change_pages :
    (w : Words) (p n : ℕ) (from to : PageState) (q : ℕ)
    → page_state (change_pages w p n from to) q
      ≡ (if inside p n q && same_state (page_state w q) from then to else page_state w q)
unfolding change_pages
state-change_pages w p zero from to q = ground arith
state-change_pages w p (suc n) from to q =
    state-change_pages next (p + 1) n from to q ∙ elim (Bool-cases (p == q)) [
      | inl e ↦ here ((==_iff p q).0 e)
      | inr ne ↦ ground (arith, ne, other ne)
    ]
  where
    next : Words
    next = if same_state (page_state w p) from then set_page_state w p to else w

    other : (p == q) ≡ false → page_state next q ≡ page_state w q
    other ne = elim (Bool-cases (same_state (page_state w p) from)) [
      | inl s ↦ rw s (page_state-set_page_state w p q to ∙ ground (arith, ne))
      | inr s ↦ rw s refl
    ]

    at_p : page_state next p ≡ (if same_state (page_state w p) from then to else page_state w p)
    at_p = elim (Bool-cases (same_state (page_state w p) from)) [
      | inl s ↦ rw s (page_state-set_page_state w p p to ∙ ground arith)
      | inr s ↦ rw s refl
    ]

    here :
        p ≡ q
        → (if inside (p + 1) n q && same_state (page_state next q) from
            then to
            else page_state next q)
          ≡ (if inside p (suc n) q && same_state (page_state w q) from then to else page_state w q)
    here e = rw (← e) (ground (arith, at_p))
