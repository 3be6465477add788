-- ===== src/Cache/Evict/Safe.antt =====
-- What `evict_one_region` may change.
use ngs3fs.Prelude.{
  ℕ, zero, suc, ◌*◌, ◌/◌, ◌%◌, ◌<◌, Bool, true, false, ◌||◌, ◌==◌, not, List, ◌≡◌, refl, arith, ap,
  sym, ◌∙◌, ◌⊎◌, inl, inr, Bool-cases, if_elim, ==_iff, add64,
}
use ngs3fs.Cache.Bitmap.{Words, page_size, page_state, missing, clean}
use ngs3fs.Cache.Entry.{Entry, update, notify_waiters}
use ngs3fs.Cache.Entry.Geometry.{Geometry}
use ngs3fs.Cache.Evict.{
  Punch, RegionScan, set_listed, evict_region, no_pages, region_scan, clock, evict_one_region,
}
use ngs3fs.Cache.Evict.Region.{listed, state-set_listed, Covered, region_scan_lem}

-- The pages of `region` that change were clean and are missing, and no one has pinned it.
pub record Evicted (e : Entry) (words : Words) (region : ℕ) : Type 0 where
  pub exists : region < e.regions
  pub unpinned : e.pins region ≡ 0
  pub changed :
      (q : ℕ)
      → (page_state words q ≡ page_state e.words q)
        ⊎ ((page_state e.words q ≡ clean)
            × (page_state words q ≡ missing)
            × (q * page_size / e.block_size ≡ region))

-- No page changes, or those of one region do.
abbrev pub SafeEviction : Entry → Words → Type 0
SafeEviction e words = (words ≡ e.words) ⊎ ((region : ℕ) × Evicted e words region)

words-notify_waiters : (e : Entry) → (notify_waiters e).words ≡ e.words
unfolding notify_waiters
words-notify_waiters e =
    if_elim (λ (t : Entry). t.words ≡ e.words) (not e.wait_fd || e.waiters == 0) (λ _. refl)
      (λ _. refl)

module _ (e : Entry) (region : ℕ) (pages : List ℕ) (exists : region < e.regions)
    (unpinned : e.pins region ≡ 0)
    (clean_pages : (q : ℕ)
      → listed pages q ≡ true
      → (page_state e.words q ≡ clean) × (q * page_size / e.block_size ≡ region)) where
  -- The words of an entry whose listed pages became missing.
  emptied : (words : Words) → words ≡ set_listed e.words pages missing → SafeEviction e words
  emptied words same = inr (
    region,
    record {
      exists = exists;
      unpinned = unpinned;
      changed = λ q.
          let now =
            ap (λ (w : Words). page_state w q) same ∙ state-set_listed e.words pages missing q in
          elim (Bool-cases (listed pages q)) [
            | inl t ↦ let (c, r) = clean_pages q t in inr (c, now ∙ rw t refl, r)
            | inr f ↦ inl (now ∙ rw f refl)
          ];
    },
  )

  -- The pages are clean again.
  undone :
      (words : Words)
      → words ≡ set_listed (set_listed e.words pages missing) pages clean
      → SafeEviction e words
  undone words same = inr (
    region,
    record {
      exists = exists;
      unpinned = unpinned;
      changed = λ q.
          let now =
            ap (λ (w : Words). page_state w q) same
            ∙ state-set_listed (set_listed e.words pages missing) pages clean q in
          elim (Bool-cases (listed pages q)) [
            | inl t ↦ inl (now ∙ rw t (sym (clean_pages q t).0))
            | inr f ↦ inl (now ∙ rw f (state-set_listed e.words pages missing q ∙ rw f refl))
          ];
    },
  )

  evict_region_lem : (k : Punch) → SafeEviction e (evict_region e k region pages).1.words
  unfolding evict_region
  evict_region_lem k =
      if_elim Safe (not k.stat_before) (λ _. inl refl)
        (λ _.
          if_elim Safe (not k.punches) (λ _. undone _ refl)
            (λ _.
              if_elim Safe (not k.stat_after) (λ _. emptied _ refl)
                (λ _. emptied _ (words-notify_waiters _))))
    where
      Safe : ℕ × Entry → Type 0
      Safe r = SafeEviction e r.1.words

-- The entry in the next round of the clock.
abbrev moved : Entry → (ℕ → Bool) → Entry
moved e referenced = record e { referenced = referenced; clock_hand = add64 e.clock_hand 1 }

moved-Geometry : (e : Entry) (referenced : ℕ → Bool) → Geometry e → Geometry (moved e referenced)
moved-Geometry e referenced g = record {
  block_pos = g.block_pos;
  block_pages = g.block_pages;
  block_max = g.block_max;
  size_max = g.size_max;
  pages = g.pages;
}

unmoved :
    (e : Entry) (referenced : ℕ → Bool) (words : Words)
    → SafeEviction (moved e referenced) words
    → SafeEviction e words
unmoved e referenced words (inl same) = inl same
unmoved e referenced words (inr (region, x)) =
    inr (region, record { exists = x.exists; unpinned = x.unpinned; changed = x.changed })

clock_lem :
    (scans : ℕ) (e : Entry) (k : Punch)
    → Geometry e
    → Covered e
    → 0 < e.regions
    → SafeEviction e (clock scans e k).1.words
unfolding clock
clock_lem zero e k g v some_region = inl refl
clock_lem (suc scans) e k g v some_region =
    if_elim Safe (e.referenced region)
      (λ _. unmoved e (update e.referenced region false) _ (
        clock_lem scans (moved e (update e.referenced region false)) k
          (moved-Geometry e (update e.referenced region false) g) v some_region))
      (λ _.
        if_elim Safe (not scan.evictable || (not (e.pins region == 0) || no_pages scan.clean_pages))
          (λ _. unmoved e e.referenced _ (
            clock_lem scans (moved e e.referenced) k (moved-Geometry e e.referenced g) v
              some_region))
          (λ free. unmoved e e.referenced _ (
            evict_region_lem (moved e e.referenced) region scan.clean_pages (omega arith)
              ((==_iff (e.pins region) 0).0 (ground (arith, free)))
              (λ q. region_scan_lem e region q g v (omega arith)) k)))
  where
    region : ℕ
    region = e.clock_hand % e.regions

    scan : RegionScan
    scan = region_scan e region

    Safe : ℕ × Entry → Type 0
    Safe r = SafeEviction e r.1.words

-- Of an entry of `Geometry` whose regions cover the object: `evict_one_region` leaves every page as
-- it was, or makes missing some pages of one region that were clean, where the region is not
-- pinned; whatever the calls of the kernel answer.
pub evict_one_region-SafeEviction :
    (unlimited : Bool) (e : Entry) (k : Punch)
    → Geometry e
    → Covered e
    → SafeEviction e (evict_one_region unlimited e k).1.words
unfolding evict_one_region
evict_one_region-SafeEviction unlimited e k g v =
    if_elim Safe
      (unlimited
        || (e.stale
            || (e.eviction_disabled || ((e.header.dirty || e.header.exported) || e.regions == 0))))
      (λ _. inl refl) (λ enabled. clock_lem e.regions e k g v (ground (arith, enabled)))
  where
    Safe : ℕ × Entry → Type 0
    Safe r = SafeEviction e r.1.words
