-- ===== src/Cache/Fetch/Sound.antt =====
-- What holds of an entry throughout its downloads.
use ngs3fs.Prelude.{◌||◌, not, ◌==◌, some, ◌≡◌, refl, subst, sym, if_elim}
use ngs3fs.Cache.Entry.{
  Entry, FetchClaim, ActiveFetch, find_claim, erase_claim, replace_claim, notify_waiters,
}
use ngs3fs.Cache.Entry.Geometry.{Geometry, SameShape, SameShape-Geometry}
use ngs3fs.Cache.Evict.Region.{Covered}
use ngs3fs.Cache.Claim.Exclusive.{Disjoint, Busy, IsExclusive}
use ngs3fs.Cache.Fetch.Exclusive.{Disjoint-erase}
use ngs3fs.Cache.Fetch.Each.{Each, Each-erase, Each-replace}
use ngs3fs.Cache.Fetch.Others.{Untouched, Later, Busy-erased, Busy-replaced, Disjoint-replaced}
use ngs3fs.Cache.Fetch.Download.{IsDownload}

-- The sizes fit, each active fetch is a download, and no page is of two of them.
pub record IsSound (e : Entry) : Type 0 where
  pub geometry : Geometry e
  pub covered : Covered e
  pub downloads : Each (IsDownload e.block_size e.size) e.active
  pub exclusive : IsExclusive e

-- The fetches of the entry `e'`, with the sizes of `e`.
pub reshaped :
    (e e' : Entry)
    → SameShape e e'
    → IsSound e
    → Each (IsDownload e.block_size e.size) e'.active
    → IsExclusive e'
    → IsSound e'
reshaped e e' s x all ex = record {
  geometry = SameShape-Geometry e e' s x.geometry;
  covered = rw (s.regions, s.size, s.block_size) x.covered;
  downloads = rw (s.block_size, s.size) all;
  exclusive = ex;
}

pub notify_waiters-IsSound : (e : Entry) → IsSound e → IsSound (notify_waiters e)
unfolding notify_waiters
notify_waiters-IsSound e x =
    if_elim IsSound (not e.wait_fd || e.waiters == 0) (λ _. x)
      (λ _.
        reshaped e _ (record { block_size = refl; size = refl; page_count = refl; regions = refl })
          x x.downloads (record { disjoint = x.exclusive.disjoint; busy = x.exclusive.busy }))

-- A fetch is taken from the list, and only pages that it had still to publish change.
pub erased :
    (e e' : Entry) (c : FetchClaim) (a : ActiveFetch)
    → IsSound e
    → find_claim e.active c ≡ some a
    → SameShape e e'
    → Untouched e.words e'.words a
    → e'.active ≡ erase_claim e.active c
    → IsSound e'
erased e e' c a x found s same list =
    reshaped e e' s x
      (subst (Each (IsDownload e.block_size e.size)) (sym list)
        (Each-erase (IsDownload e.block_size e.size) e.active c x.downloads))
      (record {
        disjoint = subst Disjoint (sym list) (Disjoint-erase e.active c x.exclusive.disjoint);
        busy = subst (Busy e'.words) (sym list) (
            Busy-erased e.words e'.words e.active c a found same x.exclusive.disjoint
              x.exclusive.busy);
      })

-- A fetch publishes some of the pages that it had still to publish.
pub replaced :
    (e e' : Entry) (c : FetchClaim) (a a' : ActiveFetch)
    → IsSound e
    → find_claim e.active c ≡ some a
    → SameShape e e'
    → Untouched e.words e'.words a
    → Later e.words e'.words a a'
    → IsDownload e.block_size e.size a'
    → e'.active ≡ replace_claim e.active c a'
    → IsSound e'
replaced e e' c a a' x found s same later d list =
    reshaped e e' s x
      (subst (Each (IsDownload e.block_size e.size)) (sym list)
        (Each-replace (IsDownload e.block_size e.size) e.active c a' x.downloads d))
      (record {
        disjoint =
            subst Disjoint (sym list)
              (Disjoint-replaced e.active c a a' found (λ q t. (later q t).0) x.exclusive.disjoint);
        busy = subst (Busy e'.words) (sym list) (
            Busy-replaced e.words e'.words e.active c a a' found same later x.exclusive.disjoint
              x.exclusive.busy);
      })
