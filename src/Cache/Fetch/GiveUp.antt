-- ===== src/Cache/Fetch/GiveUp.antt =====
-- What the end of a download changes: pages that it had still to publish, and no other.
use ngs3fs.Prelude.{
  ℕ, zero, suc, ◌+◌, ◌-◌, ◌*◌, ◌≤◌, ◌<◌, false, ◌&&◌, leb, ltb, List, [], ◌∷◌, some, length, ◌≡◌,
  refl, arith, ◌∙◌, inl, inr, ◌⊎◌, if_elim, word, inside,
}
use ngs3fs.Cache.Bitmap.{
  PageState, Words, any_state, page_size, page_state, set_page_state, read_pending, missing,
}
use ngs3fs.Cache.Bitmap.Update.{page_state-set_page_state}
use ngs3fs.Cache.Entry.{
  Entry, change_pages, FetchClaim, ActiveFetch, find_claim, erase_claim, block_first_page,
  block_last_page,
}
use ngs3fs.Cache.Entry.Geometry.{Geometry, IsAligned, IsAligned-next, SameShape, SameShape-Geometry}
use ngs3fs.Cache.Fetch.{give_up_block, give_up_loop, end_found, end_fetch, restore_pages}
use ngs3fs.Cache.Fetch.Download.{IsDownload, within_download, change_block}

-- From the entry `e` to `e'`, only pages from `block` on of the fetch have changed.
pub record GivenUp (e : Entry) (a : ActiveFetch) (block : ℕ) (e' : Entry) : Type 0 where
  pub shape : SameShape e e'
  pub active : e'.active ≡ e.active
  pub same :
      (q : ℕ)
      → (leb block (q * page_size) && ltb (q * page_size) (a.offset + a.length)) ≡ false
      → page_state e'.words q ≡ page_state e.words q

GivenUp-none : (e : Entry) (a : ActiveFetch) (block : ℕ) → GivenUp e a block e
GivenUp-none e a block = record {
  shape = record { block_size = refl; size = refl; page_count = refl; regions = refl };
  active = refl;
  same = λ q outside. refl;
}

GivenUp-more :
    (e e' e'' : Entry) (a : ActiveFetch) (block next : ℕ)
    → block ≤ next
    → GivenUp e a block e'
    → GivenUp e' a next e''
    → GivenUp e a block e''
GivenUp-more e e' e'' a block next h x y = record {
  shape = record {
    block_size = y.shape.block_size ∙ x.shape.block_size;
    size = y.shape.size ∙ x.shape.size;
    page_count = y.shape.page_count ∙ x.shape.page_count;
    regions = y.shape.regions ∙ x.shape.regions;
  };
  active = y.active ∙ x.active;
  same = λ q outside. y.same q (ground (arith, outside)) ∙ x.same q outside;
}

give_up_block_lem :
    (e : Entry) (a : ActiveFetch) (block : ℕ)
    → Geometry e
    → IsDownload e.block_size e.size a
    → IsAligned e block
    → block < a.offset + a.length
    → GivenUp e a block (give_up_block e block)
unfolding give_up_block
give_up_block_lem e a block g d whole lt =
    if_elim (GivenUp e a block) (any_state e.words first n read_pending) (λ _. changed)
      (λ _. changed)
  where
    first : ℕ
    first = block_first_page e block

    n : ℕ
    n = block_last_page e block - first

    same :
        (q : ℕ)
        → (leb block (q * page_size) && ltb (q * page_size) (a.offset + a.length)) ≡ false
        → page_state (change_pages e.words first n read_pending missing) q ≡ page_state e.words q
    same q outside =
        change_block e e.words block q g whole (omega (arith, lt, d.fits))
          (ground (arith, outside, (within_download e a block g d whole lt).0)) read_pending missing

    changed :
        {t : List (ℕ × ℕ)}
        → GivenUp e a block
            (record e { words = change_pages e.words first n read_pending missing; punched = t })
    changed {t} = record {
      shape = record { block_size = refl; size = refl; page_count = refl; regions = refl };
      active = refl;
      same = same;
    }

pub give_up_loop_lem :
    (fuel : ℕ) (e : Entry) (c : FetchClaim) (a : ActiveFetch) (block : ℕ)
    → Geometry e
    → IsDownload e.block_size e.size a
    → c.offset ≡ a.offset
    → c.length ≡ a.length
    → IsAligned e block ⊎ (a.offset + a.length ≤ block)
    → GivenUp e a block (give_up_loop fuel e c block)
unfolding give_up_loop
give_up_loop_lem zero e c a block g d at len r = GivenUp-none e a block
give_up_loop_lem (suc fuel) e c a block g d at len (inr over) =
    if_elim (GivenUp e a block) (ltb block (c.offset + c.length))
      (λ lt. absurd (ground (arith, lt, at, len, over))) (λ _. GivenUp-none e a block)
give_up_loop_lem (suc fuel) e c a block g d at len (inl whole) =
    if_elim (GivenUp e a block) (ltb block (c.offset + c.length))
      (λ t.
        let here = give_up_block_lem e a block g d whole (ground (arith, t, at, len)) in
        let next = give_up_block e block in
        if_elim (GivenUp e a block) (ltb (word - 1 - e.block_size) block) (λ _. here)
          (λ _. GivenUp-more e next _ a block (block + e.block_size) (omega arith) here (
            give_up_loop_lem fuel next c a (block + e.block_size)
              (SameShape-Geometry e next here.shape g)
              (rw (here.shape.block_size, here.shape.size) d) at len
              (inl (rw here.shape.block_size (IsAligned-next e block g whole))))))
      (λ _. GivenUp-none e a block)

-- `end_fetch_locked` takes the fetch that it finds from the list.
pub record Ended (e : Entry) (c : FetchClaim) (e' : Entry) : Type 0 where
  pub shape : SameShape e e'
  pub words : e'.words ≡ e.words
  pub active : e'.active ≡ erase_claim e.active c

pub end_fetch_lem :
    (e : Entry) (c : FetchClaim) (a : ActiveFetch)
    → find_claim e.active c ≡ some a
    → Ended e c (end_fetch e c).1
unfolding end_fetch end_found ngs3fs.Cache.Pins.store_pins
end_fetch_lem e c a found = rw found (
    if_elim (λ t. Ended e c (record t { active = erase_claim t.active c })) a.verifying
      (λ _. record {
        shape = record { block_size = refl; size = refl; page_count = refl; regions = refl };
        words = refl;
        active = refl;
      })
      (λ _. record {
        shape = record { block_size = refl; size = refl; page_count = refl; regions = refl };
        words = refl;
        active = refl;
      }))

-- Pages out of the run that `restore_pages` writes are as they were.
pub restore_pages_lem :
    (w : Words) (page : ℕ) (states : List PageState) (q : ℕ)
    → inside page (length states) q ≡ false
    → page_state (restore_pages w page states) q ≡ page_state w q
unfolding restore_pages
restore_pages_lem w page [] q outside = refl
restore_pages_lem w page (s ∷ states) q outside =
    restore_pages_lem (set_page_state w page s) (page + 1) states q (ground (arith, outside))
    ∙ page_state-set_page_state w page q s
    ∙ ground (arith, outside)
