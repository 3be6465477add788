-- ===== src/Cache/Fetch/Others.antt =====
-- The list of active fetches when one of them ends or publishes: the others are as they were.
use ngs3fs.Prelude.{
  ℕ, true, false, List, [], ◌∷◌, some, ◌≡◌, arith, ap, subst, sym, ◌∙◌, inl, inr, Bool-cases,
}
use ngs3fs.Cache.Bitmap.{Words, page_state}
use ngs3fs.Cache.Entry.{FetchClaim, ActiveFetch, is_claimed, find_claim, erase_claim, replace_claim}
use ngs3fs.Cache.Claim.{is_busy}
use ngs3fs.Cache.Claim.Exclusive.{in_tail, Apart, Disjoint, Busy}

-- Only pages that the fetch had still to publish have changed.
abbrev pub Untouched : Words → Words → ActiveFetch → Type 0
Untouched w w' a = (q : ℕ) → in_tail a q ≡ false → page_state w' q ≡ page_state w q

-- The second fetch has no more to publish than the first, and what it has is as it was.
abbrev pub Later : Words → Words → ActiveFetch → ActiveFetch → Type 0
Later w w' a b =
    (q : ℕ) → in_tail b q ≡ true → (in_tail a q ≡ true) × (page_state w' q ≡ page_state w q)

-- The fetch that is found shares no page with one before it.
Apart-found :
    (b : ActiveFetch) (fs : List ActiveFetch) (c : FetchClaim) (a : ActiveFetch)
    → Apart b fs
    → find_claim fs c ≡ some a
    → (q : ℕ) → in_tail b q ≡ true
    → in_tail a q ≡ false
unfolding find_claim
Apart-found b [] c a p h q t = absurd (cc)
Apart-found b (d ∷ rest) c a p h q t = elim (Bool-cases (is_claimed c d)) [
  | inl y ↦
      let same : d ≡ a = ground (arith, h, y) in subst (λ x. in_tail x q ≡ false) same (p.0 q t)
  | inr n ↦ Apart-found b rest c a p.1 (ground (arith, h, n)) q t
]

-- The pages of a fetch that is apart from the changed one stay busy.
still_busy :
    (w w' : Words) (a b : ActiveFetch)
    → Untouched w w' a
    → ((q : ℕ) → in_tail b q ≡ true → in_tail a q ≡ false)
    → ((q : ℕ) → in_tail b q ≡ true → is_busy (page_state w q) ≡ true)
    → (q : ℕ) → in_tail b q ≡ true
    → is_busy (page_state w' q) ≡ true
still_busy w w' a b same p busy q t = ap is_busy (same q (p q t)) ∙ busy q t

apart_sym :
    (a b : ActiveFetch)
    → ((q : ℕ) → in_tail a q ≡ true → in_tail b q ≡ false)
    → (q : ℕ) → in_tail b q ≡ true
    → in_tail a q ≡ false
apart_sym a b p q t = elim (Bool-cases (in_tail a q)) [
  | inl y ↦ let n : in_tail b q ≡ false = p q y in absurd (cc)
  | inr n ↦ n
]

-- All of a list that is apart from the changed fetch.
Busy-Apart :
    (w w' : Words) (a : ActiveFetch) (fs : List ActiveFetch)
    → Untouched w w' a
    → Apart a fs
    → Busy w fs
    → Busy w' fs
Busy-Apart w w' a [] same p busy = tt
Busy-Apart w w' a (b ∷ rest) same p busy =
    (still_busy w w' a b same (apart_sym a b p.0) busy.0, Busy-Apart w w' a rest same p.1 busy.1)

-- The fetch that is found may change its own pages when it is taken from the list.
pub Busy-erased :
    (w w' : Words) (fs : List ActiveFetch) (c : FetchClaim) (a : ActiveFetch)
    → find_claim fs c ≡ some a
    → Untouched w w' a
    → Disjoint fs
    → Busy w fs
    → Busy w' (erase_claim fs c)
unfolding find_claim erase_claim
Busy-erased w w' [] c a h same d busy = tt
Busy-erased w w' (b ∷ rest) c a h same d busy = elim (Bool-cases (is_claimed c b)) [
  | inl t ↦
      let own : b ≡ a = ground (arith, h, t) in
      rw t (Busy-Apart w w' b rest (subst (Untouched w w') (sym own) same) d.0 busy.1)
  | inr f ↦
      let found : find_claim rest c ≡ some a = ground (arith, h, f) in
      rw f (
        still_busy w w' a b same (Apart-found b rest c a d.0 found) busy.0,
        Busy-erased w w' rest c a found same d.1 busy.1,
      )
]

-- It may also publish pages of its own.
pub Busy-replaced :
    (w w' : Words) (fs : List ActiveFetch) (c : FetchClaim) (a a' : ActiveFetch)
    → find_claim fs c ≡ some a
    → Untouched w w' a
    → Later w w' a a'
    → Disjoint fs
    → Busy w fs
    → Busy w' (replace_claim fs c a')
unfolding find_claim replace_claim
Busy-replaced w w' [] c a a' h same later d busy = tt
Busy-replaced w w' (b ∷ rest) c a a' h same later d busy = elim (Bool-cases (is_claimed c b)) [
  | inl t ↦
      let own : b ≡ a = ground (arith, h, t) in
      rw t (
        λ q y.
            let (old, kept) = later q y in
            ap is_busy kept ∙ busy.0 q (ap (λ x. in_tail x q) own ∙ old),
        Busy-Apart w w' b rest (subst (Untouched w w') (sym own) same) d.0 busy.1,
      )
  | inr f ↦
      let found : find_claim rest c ≡ some a = ground (arith, h, f) in
      rw f (
        still_busy w w' a b same (Apart-found b rest c a d.0 found) busy.0,
        Busy-replaced w w' rest c a a' found same later d.1 busy.1,
      )
]

-- A fetch with fewer pages is apart from what the one before it was apart from.
Apart-fewer :
    (a a' : ActiveFetch) (fs : List ActiveFetch)
    → ((q : ℕ) → in_tail a' q ≡ true → in_tail a q ≡ true)
    → Apart a fs
    → Apart a' fs
Apart-fewer a a' [] fewer p = tt
Apart-fewer a a' (b ∷ rest) fewer p = (λ q t. p.0 q (fewer q t), Apart-fewer a a' rest fewer p.1)

Apart-replace :
    (b : ActiveFetch) (fs : List ActiveFetch) (c : FetchClaim) (a a' : ActiveFetch)
    → find_claim fs c ≡ some a
    → ((q : ℕ) → in_tail a' q ≡ true → in_tail a q ≡ true)
    → Apart b fs
    → Apart b (replace_claim fs c a')
unfolding find_claim replace_claim
Apart-replace b [] c a a' h fewer p = tt
Apart-replace b (d ∷ rest) c a a' h fewer p = elim (Bool-cases (is_claimed c d)) [
  | inl t ↦
      let own : d ≡ a = ground (arith, h, t) in
      rw t (
        λ q y. elim (Bool-cases (in_tail a' q)) [
          | inl z ↦
              let n : in_tail d q ≡ false = p.0 q y in
              let m : in_tail a q ≡ true = fewer q z in
              let e : in_tail d q ≡ in_tail a q = ap (λ x. in_tail x q) own in absurd (cc)
          | inr n ↦ n
        ],
        p.1,
      )
  | inr f ↦ rw f (p.0, Apart-replace b rest c a a' (ground (arith, h, f)) fewer p.1)
]

pub Disjoint-replaced :
    (fs : List ActiveFetch) (c : FetchClaim) (a a' : ActiveFetch)
    → find_claim fs c ≡ some a
    → ((q : ℕ) → in_tail a' q ≡ true → in_tail a q ≡ true)
    → Disjoint fs
    → Disjoint (replace_claim fs c a')
unfolding find_claim replace_claim
Disjoint-replaced [] c a a' h fewer d = tt
Disjoint-replaced (b ∷ rest) c a a' h fewer d = elim (Bool-cases (is_claimed c b)) [
  | inl t ↦
      let own : b ≡ a = ground (arith, h, t) in
      rw t (Apart-fewer b a' rest (λ q y. ap (λ x. in_tail x q) own ∙ fewer q y) d.0, d.1)
  | inr f ↦
      let found : find_claim rest c ≡ some a = ground (arith, h, f) in
      rw f
        (Apart-replace b rest c a a' found fewer d.0, Disjoint-replaced rest c a a' found fewer d.1)
]
