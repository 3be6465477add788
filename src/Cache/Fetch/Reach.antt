-- ===== src/Cache/Fetch/Reach.antt =====
-- The life of an entry's downloads: any sequence of claims, publications, failures, roll backs, marks
-- and evictions, without the verification of whole objects.
use ngs3fs.Prelude.{
  ℕ, ◌*◌, ◌/◌, ◌+◌, ◌-◌, ◌≤◌, Bool, true, ◌≡◌, arith, ap, subst, sym, ◌∙◌, inl, inr, ◌⊎◌, word,
}
use ngs3fs.Cache.Bitmap.{Words, page_state, same_state, clean, missing, page_size}
use ngs3fs.Cache.Entry.{Entry, FetchClaim, Outcome, done, thrown, after}
use ngs3fs.Cache.Claim.{is_busy, claim_fetch}
use ngs3fs.Cache.Claim.Result.{Claimed, Promise, claim_fetch-Promise}
use ngs3fs.Cache.Claim.Exclusive.{
  Kept, Busy, Disjoint, Busy-Kept, IsExclusive, claim_fetch-IsExclusive,
}
use ngs3fs.Cache.Evict.{Punch, evict_one_region}
use ngs3fs.Cache.Evict.Safe.{SafeEviction, evict_one_region-SafeEviction}
use ngs3fs.Cache.Evict.Shape.{evict_one_region-Unshaped}
use ngs3fs.Cache.Fetch.{publish_clean, finish_fetch, rollback_fetch, mark_bad}
use ngs3fs.Cache.Fetch.Each.{Each, Each-append}
use ngs3fs.Cache.Fetch.Download.{IsDownload}
use ngs3fs.Cache.Fetch.Sound.{IsSound, reshaped}
use ngs3fs.Cache.Fetch.Steps.{
  publish_clean-IsSound, finish_fetch-IsSound, rollback_fetch-IsSound, mark_bad-IsSound,
}

-- One call, of any claim, also one that is not active; the kernel answers what it likes.
pub data Step (e : Entry) : Entry → Type 0 where
  claim :
      (offset length expansion : ℕ)
      → expansion ≤ word - 1
      → Step e (after (claim_fetch e offset length expansion))
  publish :
      (c : FetchClaim) (published length : ℕ) (final : Bool)
      → Step e (publish_clean e c published length final)
  finish : (c : FetchClaim) → Step e (finish_fetch e c)
  rollback : (c : FetchClaim) → Step e (rollback_fetch e c)
  mark : (c : FetchClaim) → Step e (mark_bad e c)
  evict : (unlimited : Bool) (k : Punch) → Step e (evict_one_region unlimited e k).1

pub data Reach (e : Entry) : Entry → Type 0 where
  here : Reach e e
  next : {t u : Entry} → Reach e t → Step t u → Reach e u

Claimed-IsSound :
    (e e' : Entry) (offset stop : ℕ) (c : FetchClaim)
    → Claimed e offset stop c e'
    → IsSound e
    → IsExclusive e'
    → IsSound e'
Claimed-IsSound e e' offset stop c k x ex =
    let (a, list, _, _, at, len, none_yet, prior) = k.listed in
    let d : IsDownload e.block_size e.size a = record {
      aligned = rw at k.aligned;
      fits = rw (at, len) k.within;
      whole = rw (at, len) k.whole;
      progress = omega (arith, none_yet);
      at = inr (
          let same : a.offset + a.published ≡ c.offset = omega (arith, at, none_yet) in
          rw same k.aligned);
      prior = prior;
    } in
    reshaped e e' k.shape x
      (subst (Each (IsDownload e.block_size e.size)) (sym list)
        (Each-append (IsDownload e.block_size e.size) e.active a x.downloads d))
      ex

after-IsSound :
    (e : Entry) (offset stop : ℕ) (o : Outcome FetchClaim)
    → Promise e offset stop o
    → IsSound e
    → IsExclusive (after o)
    → IsSound (after o)
unfolding Promise
after-IsSound e offset stop (done c e') (inl (_, same)) x ex = subst IsSound (sym same) x
after-IsSound e offset stop (done c e') (inr k) x ex = Claimed-IsSound e e' offset stop c k x ex
after-IsSound e offset stop (thrown error e') same x ex = subst IsSound (sym same) x

-- Eviction changes no busy page.
SafeEviction-Kept : (e : Entry) (w : Words) → SafeEviction e w → Kept e.words w
unfolding is_busy same_state
SafeEviction-Kept e w (inl same) q b = ap (λ t. is_busy (page_state t q)) same ∙ b
SafeEviction-Kept e w (inr (region, x)) q b = one (x.changed q)
  where
    one :
        (page_state w q ≡ page_state e.words q)
          ⊎ ((page_state e.words q ≡ clean)
              × (page_state w q ≡ missing)
              × (q * page_size / e.block_size ≡ region))
        → is_busy (page_state w q) ≡ true
    one (inl same) = ap is_busy same ∙ b
    one (inr (was, now, at)) = absurd (ground (arith, was, b))

evict-IsSound :
    (unlimited : Bool) (e : Entry) (k : Punch)
    → IsSound e
    → IsSound (evict_one_region unlimited e k).1
evict-IsSound unlimited e k x =
    let u = evict_one_region-Unshaped unlimited e k in
    let safe = evict_one_region-SafeEviction unlimited e k x.geometry x.covered in
    reshaped e _ u.shape x
      (subst (Each (IsDownload e.block_size e.size)) (sym u.active) x.downloads)
      (record {
        disjoint = subst Disjoint (sym u.active) x.exclusive.disjoint;
        busy =
            subst (Busy (evict_one_region unlimited e k).1.words) (sym u.active)
              (Busy-Kept e.words _ e.active (SafeEviction-Kept e _ safe) x.exclusive.busy);
      })

Step-IsSound : {e e' : Entry} → Step e e' → IsSound e → IsSound e'
Step-IsSound {e} (claim offset length expansion small) x =
    after-IsSound e offset _ _ (claim_fetch-Promise e offset length expansion x.geometry small) x
      (claim_fetch-IsExclusive e offset length expansion x.geometry small x.exclusive)
Step-IsSound {e} (publish c published length final) x =
    publish_clean-IsSound e c published length final x
Step-IsSound {e} (finish c) x = finish_fetch-IsSound e c x
Step-IsSound {e} (rollback c) x = rollback_fetch-IsSound e c x
Step-IsSound {e} (mark c) x = mark_bad-IsSound e c x
Step-IsSound {e} (evict unlimited k) x = evict-IsSound unlimited e k x

-- Of an entry whose sizes are as the cache makes them, and whose active fetches are whole blocks,
-- pending or bad in the pages that they have still to publish, no two with such a page in common:
-- so is every entry that claims, publications, failures, roll backs, marks and evictions lead to,
-- in any order, with any claims, and whatever the kernel answers; each claim asks for an expansion
-- that fits 64 bits.
pub Reach-Downloads : {e e' : Entry} → IsSound e → Reach e e' → IsSound e'
Reach-Downloads x here = x
Reach-Downloads x (next r s) = Step-IsSound s (Reach-Downloads x r)
