-- ===== src/Cache/Claim/Exclusive.antt =====
-- No page is downloaded by two claims: what the active fetches have still to publish is pending or
-- bad, so `claim_fetch` leaves it alone.
use ngs3fs.Prelude.{
  ℕ, ◌+◌, ◌-◌, ◌*◌, ◌≤◌, min, Bool, true, false, ◌&&◌, leb, ltb, List, [], ◌∷◌, ◌++◌, ◌≡◌, refl,
  arith, subst, sym, ◌∙◌, inl, inr, word, Bool-cases,
}
use ngs3fs.Cache.Bitmap.{Words, page_size, page_state, same_state}
use ngs3fs.Cache.Entry.{Entry, FetchClaim, ActiveFetch, Outcome, done, thrown, after}
use ngs3fs.Cache.Entry.Geometry.{Geometry, aligned_pages}
use ngs3fs.Cache.Claim.{is_busy, claim_fetch}
use ngs3fs.Cache.Claim.Result.{in_claim, Claimed, Promise, claim_fetch-Promise}

-- A page that the fetch has still to publish.
abbrev pub in_tail : ActiveFetch → ℕ → Bool
in_tail a q =
    leb (a.offset + a.published) (q * page_size) && ltb (q * page_size) (a.offset + a.length)

-- The fetches have no such page in common with `a`.
abbrev pub Apart : ActiveFetch → List ActiveFetch → Type 0
Apart a [] = Unit {0}
Apart a (b ∷ rest) = ((q : ℕ) → in_tail a q ≡ true → in_tail b q ≡ false) × Apart a rest

abbrev pub Disjoint : List ActiveFetch → Type 0
Disjoint [] = Unit {0}
Disjoint (a ∷ rest) = Apart a rest × Disjoint rest

-- What the fetches have still to publish is pending or bad.
abbrev pub Busy : Words → List ActiveFetch → Type 0
Busy w [] = Unit {0}
Busy w (a ∷ rest) = ((q : ℕ) → in_tail a q ≡ true → is_busy (page_state w q) ≡ true) × Busy w rest

pub record IsExclusive (e : Entry) : Type 0 where
  pub disjoint : Disjoint e.active
  pub busy : Busy e.words e.active

-- Pages that are busy in `w` are so in `w'`.
abbrev pub Kept : Words → Words → Type 0
Kept w w' = (q : ℕ) → is_busy (page_state w q) ≡ true → is_busy (page_state w' q) ≡ true

pub Busy-Kept : (w w' : Words) (fs : List ActiveFetch) → Kept w w' → Busy w fs → Busy w' fs
Busy-Kept w w' [] k b = tt
Busy-Kept w w' (a ∷ rest) k b = (λ q t. k q (b.0 q t), Busy-Kept w w' rest k b.1)

-- A new fetch behind the others.
Busy-append :
    (w : Words) (fs : List ActiveFetch) (a : ActiveFetch)
    → Busy w fs
    → ((q : ℕ) → in_tail a q ≡ true → is_busy (page_state w q) ≡ true)
    → Busy w (fs ++ a ∷ [])
Busy-append w [] a b h = (h, tt)
Busy-append w (c ∷ rest) a b h = (b.0, Busy-append w rest a b.1 h)

Apart-append :
    (c : ActiveFetch) (fs : List ActiveFetch) (a : ActiveFetch)
    → Apart c fs
    → ((q : ℕ) → in_tail c q ≡ true → in_tail a q ≡ false)
    → Apart c (fs ++ a ∷ [])
Apart-append c [] a p h = (h, tt)
Apart-append c (b ∷ rest) a p h = (p.0, Apart-append c rest a p.1 h)

-- Pages that are busy are none of the new fetch's, so the others have none of them.
Disjoint-append :
    (w : Words) (fs : List ActiveFetch) (a : ActiveFetch)
    → Disjoint fs
    → Busy w fs
    → ((q : ℕ) → is_busy (page_state w q) ≡ true → in_tail a q ≡ false)
    → Disjoint (fs ++ a ∷ [])
Disjoint-append w [] a d b h = (tt, tt)
Disjoint-append w (c ∷ rest) a d b h =
    (Apart-append c rest a d.0 (λ q t. h q (b.0 q t)), Disjoint-append w rest a d.1 b.1 h)

module _ (e e' : Entry) (offset stop : ℕ) (c : FetchClaim) (g : Geometry e)
    (k : Claimed e offset stop c e') where
  claim_pending : (q : ℕ) → in_claim c q ≡ true → is_busy (page_state e'.words q) ≡ true
  unfolding is_busy same_state
  claim_pending q t = rw (k.pending q, t) refl

  claim-Kept : Kept e.words e'.words
  unfolding is_busy same_state
  claim-Kept q b = rw (k.pending q) (ground (arith, b))

  -- A page that was busy is not in the claim.
  claim_idle : (q : ℕ) → is_busy (page_state e.words q) ≡ true → in_claim c q ≡ false
  claim_idle q b = elim (Bool-cases (in_claim c q)) [
    | inl t ↦
        let f : is_busy (page_state e.words q) ≡ false =
          (k.free q (ground (arith, t)) (ground (arith, t))).idle in
        absurd (cc)
    | inr f ↦ f
  ]

  Claimed-IsExclusive : IsExclusive e → IsExclusive e'
  Claimed-IsExclusive x =
      let (a, list, _, _, at, len, none_yet, _) = k.listed in
      let same : (q : ℕ) → in_tail a q ≡ in_claim c q =
        λ q. rw (at, len, none_yet) (ground (arith, aligned_pages e c.offset g k.aligned)) in
      record {
        disjoint =
            subst Disjoint (sym list) (
              Disjoint-append e.words e.active a x.disjoint x.busy
                (λ q b. same q ∙ claim_idle q b));
        busy = subst (Busy e'.words) (sym list) (
            Busy-append e'.words e.active a (Busy-Kept e.words e'.words e.active claim-Kept x.busy)
              (λ q t. claim_pending q (sym (same q) ∙ t)));
      }

after-IsExclusive :
    (e : Entry) (offset stop : ℕ) (o : Outcome FetchClaim)
    → Geometry e
    → Promise e offset stop o
    → IsExclusive e
    → IsExclusive (after o)
unfolding Promise
after-IsExclusive e offset stop (done c e') g (inl (_, same)) x = subst IsExclusive (sym same) x
after-IsExclusive e offset stop (done c e') g (inr k) x =
    Claimed-IsExclusive e e' offset stop c g k x
after-IsExclusive e offset stop (thrown error e') g same x = subst IsExclusive (sym same) x

-- Of an entry of `Geometry`, and an expansion that fits 64 bits: while the pages that the active
-- fetches have still to publish are pending or bad, and no two of the fetches have such a page in
-- common, this is so after another `claim_fetch`, also one that throws.
pub claim_fetch-IsExclusive :
    (e : Entry) (offset length expansion : ℕ)
    → Geometry e
    → expansion ≤ word - 1
    → IsExclusive e
    → IsExclusive (after (claim_fetch e offset length expansion))
claim_fetch-IsExclusive e offset length expansion g k =
    after-IsExclusive e offset (offset + min length (e.size - offset)) _ g
      (claim_fetch-Promise e offset length expansion g k)
