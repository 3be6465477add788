-- ===== src/Cache/Fetch/Exclusive.antt =====
-- The downloads that end or fail leave those of the other claims alone.
use ngs3fs.Prelude.{
  ℕ, ◌+◌, ◌-◌, ◌/◌, ◌||◌, ◌==◌, not, if◌then◌else◌, List, [], ◌∷◌, Option, none, some, arith,
  if_elim,
}
use ngs3fs.Cache.Bitmap.{Words, page_size, bad, same_state}
use ngs3fs.Cache.Entry.{
  Entry, FetchClaim, ActiveFetch, erase_claim, is_claimed, find_claim, notify_waiters, set_pages,
}
use ngs3fs.Cache.Entry.Pages.{state-set_pages}
use ngs3fs.Cache.Claim.{is_busy}
use ngs3fs.Cache.Claim.Exclusive.{Apart, Disjoint, Busy, Kept, Busy-Kept, IsExclusive}
use ngs3fs.Cache.Fetch.{claim_end_page, mark_found, mark_bad, end_found, end_fetch}

pub notify_waiters-IsExclusive : (e : Entry) → IsExclusive e → IsExclusive (notify_waiters e)
unfolding notify_waiters
notify_waiters-IsExclusive e x =
    if_elim IsExclusive (not e.wait_fd || e.waiters == 0) (λ _. x)
      (λ _. record { disjoint = x.disjoint; busy = x.busy })

-- A bad page is busy, so marking pages as bad keeps the busy ones.
set_bad-Kept : (w : Words) (p n : ℕ) → Kept w (set_pages w p n bad)
unfolding is_busy same_state
set_bad-Kept w p n q b = rw (state-set_pages w p n bad q) (ground (arith, b))

pub mark_found-IsExclusive :
    (e : Entry) (c : FetchClaim) (found : Option ActiveFetch)
    → IsExclusive e
    → IsExclusive (mark_found e c found)
unfolding mark_found
mark_found-IsExclusive e c none x = x
mark_found-IsExclusive e c (some a) x =
    if_elim IsExclusive e.stale (λ _. x)
      (λ _. record {
        disjoint = x.disjoint;
        busy =
            Busy-Kept e.words _ e.active (set_bad-Kept e.words first (claim_end_page e c - first))
              x.busy;
      })
  where
    first : ℕ
    first =
        c.offset / page_size
        + (if a.verifying then 0 else (a.published + page_size - 1) / page_size)

pub Apart-erase :
    (a : ActiveFetch) (fs : List ActiveFetch) (c : FetchClaim)
    → Apart a fs
    → Apart a (erase_claim fs c)
unfolding erase_claim
Apart-erase a [] c p = tt
Apart-erase a (b ∷ rest) c p =
    if_elim (Apart a) (is_claimed c b) (λ _. p.1) (λ _. (p.0, Apart-erase a rest c p.1))

pub Disjoint-erase :
    (fs : List ActiveFetch) (c : FetchClaim) → Disjoint fs → Disjoint (erase_claim fs c)
unfolding erase_claim
Disjoint-erase [] c d = tt
Disjoint-erase (b ∷ rest) c d =
    if_elim Disjoint (is_claimed c b) (λ _. d.1)
      (λ _. (Apart-erase b rest c d.0, Disjoint-erase rest c d.1))

Busy-erase :
    (w : Words) (fs : List ActiveFetch) (c : FetchClaim) → Busy w fs → Busy w (erase_claim fs c)
unfolding erase_claim
Busy-erase w [] c b = tt
Busy-erase w (a ∷ rest) c b =
    if_elim (Busy w) (is_claimed c a) (λ _. b.1) (λ _. (b.0, Busy-erase w rest c b.1))

end_found-IsExclusive :
    (e : Entry) (c : FetchClaim) (found : Option ActiveFetch)
    → IsExclusive e
    → IsExclusive (end_found e c found).1
unfolding end_found ngs3fs.Cache.Pins.store_pins
end_found-IsExclusive e c none x = x
end_found-IsExclusive e c (some a) x =
    if_elim (λ t. IsExclusive (record t { active = erase_claim t.active c })) a.verifying
      (λ _. record { disjoint = apart; busy = Busy-erase e.words e.active c x.busy })
      (λ _. record { disjoint = apart; busy = Busy-erase e.words e.active c x.busy })
  where
    apart : Disjoint (erase_claim e.active c)
    apart = Disjoint-erase e.active c x.disjoint

-- While the pages that the active fetches have still to publish are pending or bad, and no two of
-- the fetches have such a page in common, this is so after `mark_bad` and after `end_fetch_locked`,
-- of any claim.
pub mark_bad-IsExclusive :
    (e : Entry) (c : FetchClaim)
    → IsExclusive e
    → IsExclusive (mark_bad e c) × IsExclusive (end_fetch e c).1
unfolding mark_bad end_fetch
mark_bad-IsExclusive e c x = (
  notify_waiters-IsExclusive _ (mark_found-IsExclusive e c (find_claim e.active c) x),
  end_found-IsExclusive e c (find_claim e.active c) x,
)
