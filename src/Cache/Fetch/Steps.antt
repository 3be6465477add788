-- ===== src/Cache/Fetch/Steps.antt =====
-- Each operation on a download keeps the entry sound.
use ngs3fs.Prelude.{
  ℕ, ◌+◌, ◌-◌, ◌/◌, ◌≤◌, true, false, ◌||◌, ◌&&◌, ltb, not, ◌==◌, Option, some, none, length, drop,
  Bool, ◌≡◌, refl, arith, ap, subst, sym, ◌∙◌, inl, inr, ◌⊎◌, if_elim, inside,
}
use ngs3fs.Prelude.Slices.{length-drop}
use ngs3fs.Cache.Bitmap.{page_size, page_state}
use ngs3fs.Cache.Entry.{
  Entry, FetchClaim, ActiveFetch, is_claimed, find_claim, erase_claim, replace_claim,
  block_first_page,
}
use ngs3fs.Cache.Entry.Geometry.{IsAligned, SameShape, first_page-aligned, aligned_pages}
use ngs3fs.Cache.Claim.Exclusive.{in_tail}
use ngs3fs.Cache.Fetch.{
  Publishing, claim_rounds, store_published, publish_found, publish_clean, give_up_loop, end_fetch,
  finish_found, finish_fetch, restore_pages, rollback_found, rollback_fetch, mark_found, mark_bad,
}
use ngs3fs.Cache.Fetch.Exclusive.{mark_found-IsExclusive}
use ngs3fs.Cache.Fetch.Each.{Each, find_claim-Each, find_claim-claimed}
use ngs3fs.Cache.Fetch.Download.{IsDownload}
use ngs3fs.Cache.Fetch.Publish.{Progress, publish_loop_lem}
use ngs3fs.Cache.Fetch.GiveUp.{give_up_loop_lem, end_fetch_lem, restore_pages_lem}
use ngs3fs.Cache.Fetch.Sound.{IsSound, reshaped, notify_waiters-IsSound, erased, replaced}

-- The fetch that a claim finds has the claim's place.
claimed_at :
    (c : FetchClaim) (a : ActiveFetch)
    → is_claimed c a ≡ true
    → (c.offset ≡ a.offset) × (c.length ≡ a.length)
unfolding is_claimed
claimed_at c a h = (ground (arith, h), ground (arith, h))

module _ (e : Entry) (c : FetchClaim) (a : ActiveFetch) (x : IsSound e)
    (found : find_claim e.active c ≡ some a) where
  download : IsDownload e.block_size e.size a
  download = find_claim-Each (IsDownload e.block_size e.size) e.active c a x.downloads found

  place : (c.offset ≡ a.offset) × (c.length ≡ a.length)
  place = claimed_at c a (find_claim-claimed e.active c a found)

  published_next :
      (p : Publishing)
      → Progress e a e.words p
      → IsDownload e.block_size e.size (record a { published = p.published })
  published_next p y = record {
    aligned = download.aligned;
    fits = download.fits;
    whole = download.whole;
    progress = y.progress;
    at = y.at;
    prior = download.prior;
  }

  store_published-IsSound :
      (p : Publishing) → Progress e a e.words p → IsSound (store_published e c a p)
  unfolding store_published
  store_published-IsSound p y =
      if_elim IsSound p.changed (λ _. notify_waiters-IsSound _ stored) (λ _. stored)
    where
      stored : IsSound (record e {
        words = p.words;
        active = replace_claim e.active c (record a { published = p.published });
      })
      stored =
          replaced e _ c a (record a { published = p.published }) x found
            (record { block_size = refl; size = refl; page_count = refl; regions = refl })
            (λ q out. y.same q (ground (arith, out, y.progress)))
            (λ q t. (ground (arith, t, y.further), y.same q (ground (arith, t))))
            (published_next p y) refl

  give_up-IsSound :
      (fuel : ℕ) → IsSound (end_fetch (give_up_loop fuel e c (c.offset + a.published)) c).1
  give_up-IsSound fuel =
      let given =
        give_up_loop_lem fuel e c a (c.offset + a.published) x.geometry download place.0 place.1
          (start download.at) in
      let found' = ap (λ l. find_claim l c) given.active ∙ found in
      let ended = end_fetch_lem (give_up_loop fuel e c (c.offset + a.published)) c a found' in
      erased e _ c a x found (both given.shape ended.shape)
        (λ q out.
          ap (λ w. page_state w q) ended.words ∙ given.same q (ground (arith, out, place.0)))
        (ended.active ∙ ap (λ l. erase_claim l c) given.active)
    where
      start :
          (a.published ≡ a.length) ⊎ IsAligned e (a.offset + a.published)
          → IsAligned e (c.offset + a.published) ⊎ (a.offset + a.length ≤ c.offset + a.published)
      start (inl all) = inr (omega (arith, all, place.0))
      start (inr at) = inl (rw place.0 at)

      both : {e' e'' : Entry} → SameShape e e' → SameShape e' e'' → SameShape e e''
      both s t = record {
        block_size = t.block_size ∙ s.block_size;
        size = t.size ∙ s.size;
        page_count = t.page_count ∙ s.page_count;
        regions = t.regions ∙ s.regions;
      }

  roll_back-IsSound : IsSound (rollback_found e c (some a))
  unfolding rollback_found
  roll_back-IsSound =
      let words =
        restore_pages e.words (block_first_page e c.offset + index) (drop index a.prior_states) in
      let restored : Entry = record e { words = words } in
      let ended = end_fetch_lem restored c a found in
      notify_waiters-IsSound _ (
        erased e _ c a x found
          (record {
            block_size = ended.shape.block_size;
            size = ended.shape.size;
            page_count = ended.shape.page_count;
            regions = ended.shape.regions;
          })
          (λ q out.
            ap (λ w. page_state w q) ended.words
            ∙ restore_pages_lem e.words (block_first_page e c.offset + index)
                (drop index a.prior_states) q (outside q out))
          ended.active)
    where
      index : ℕ
      index = (a.published + page_size - 1) / page_size

      outside :
          (q : ℕ)
          → in_tail a q ≡ false
          → inside (block_first_page e c.offset + index) (length (drop index a.prior_states)) q
            ≡ false
      outside q out =
          let first : block_first_page e c.offset ≡ a.offset / page_size =
            ap (block_first_page e) place.0 ∙ first_page-aligned e a.offset download.aligned in
          rw (first, length-drop index a.prior_states)
            (ground
              (arith, out, download.prior, aligned_pages e a.offset x.geometry download.aligned))

publish_found-IsSound :
    (e : Entry) (c : FetchClaim) (found : Option ActiveFetch) (published length : ℕ) (final : Bool)
    → IsSound e
    → find_claim e.active c ≡ found
    → IsSound (publish_found e c found published length final)
unfolding publish_found
publish_found-IsSound e c none published length final x found = x
publish_found-IsSound e c (some a) published length final x found =
    if_elim IsSound (e.stale || (ltb length published || (length == published && not final)))
      (λ _. x)
      (λ _. store_published-IsSound e c a x found _ (
        publish_loop_lem e c a x.geometry d at len (claim_rounds e c) e.words _ final
          (c.offset + a.published) _ (ready d.at)
          (record {
            further = omega arith;
            progress = d.progress;
            at = d.at;
            same = λ q out. refl;
          })))
  where
    d : IsDownload e.block_size e.size a
    d = download e c a x found

    at : c.offset ≡ a.offset
    at = (place e c a x found).0

    len : c.length ≡ a.length
    len = (place e c a x found).1

    ready :
        (a.published ≡ a.length) ⊎ IsAligned e (a.offset + a.published)
        → ((c.offset + a.published ≡ a.offset + a.published) × IsAligned e (c.offset + a.published))
          ⊎ (a.offset + a.length ≤ c.offset + a.published)
    ready (inl all) = inr (omega (arith, all, at))
    ready (inr whole) = inl (rw at refl, rw at whole)

pub publish_clean-IsSound :
    (e : Entry) (c : FetchClaim) (published length : ℕ) (final : Bool)
    → IsSound e
    → IsSound (publish_clean e c published length final)
unfolding publish_clean
publish_clean-IsSound e c published length final x =
    publish_found-IsSound e c (find_claim e.active c) published length final x refl

finish_found-IsSound :
    (e : Entry) (c : FetchClaim) (found : Option ActiveFetch)
    → IsSound e
    → find_claim e.active c ≡ found
    → IsSound (finish_found e c found)
unfolding finish_found
finish_found-IsSound e c none x found = x
finish_found-IsSound e c (some a) x found = give_up-IsSound e c a x found (claim_rounds e c)

pub finish_fetch-IsSound : (e : Entry) (c : FetchClaim) → IsSound e → IsSound (finish_fetch e c)
unfolding finish_fetch
finish_fetch-IsSound e c x =
    notify_waiters-IsSound _ (finish_found-IsSound e c (find_claim e.active c) x refl)

rollback_found-IsSound :
    (e : Entry) (c : FetchClaim) (found : Option ActiveFetch)
    → IsSound e
    → find_claim e.active c ≡ found
    → IsSound (rollback_found e c found)
unfolding rollback_found
rollback_found-IsSound e c none x found = x
rollback_found-IsSound e c (some a) x found = roll_back-IsSound e c a x found

pub rollback_fetch-IsSound : (e : Entry) (c : FetchClaim) → IsSound e → IsSound (rollback_fetch e c)
unfolding rollback_fetch
rollback_fetch-IsSound e c x = rollback_found-IsSound e c (find_claim e.active c) x refl

mark_found-same :
    (e : Entry) (c : FetchClaim) (found : Option ActiveFetch)
    → SameShape e (mark_found e c found) × ((mark_found e c found).active ≡ e.active)
unfolding mark_found
mark_found-same e c none =
    (record { block_size = refl; size = refl; page_count = refl; regions = refl }, refl)
mark_found-same e c (some a) =
    if_elim (λ t. SameShape e t × (t.active ≡ e.active)) e.stale
      (λ _. (record { block_size = refl; size = refl; page_count = refl; regions = refl }, refl))
      (λ _. (record { block_size = refl; size = refl; page_count = refl; regions = refl }, refl))

mark_found-IsSound :
    (e : Entry) (c : FetchClaim) (found : Option ActiveFetch)
    → IsSound e
    → IsSound (mark_found e c found)
mark_found-IsSound e c found x =
    let (shape, list) = mark_found-same e c found in
    reshaped e _ shape x (subst (Each (IsDownload e.block_size e.size)) (sym list) x.downloads)
      (mark_found-IsExclusive e c found x.exclusive)

pub mark_bad-IsSound : (e : Entry) (c : FetchClaim) → IsSound e → IsSound (mark_bad e c)
unfolding mark_bad
mark_bad-IsSound e c x = notify_waiters-IsSound _ (mark_found-IsSound e c (find_claim e.active c) x)
