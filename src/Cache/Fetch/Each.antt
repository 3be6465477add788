-- ===== src/Cache/Fetch/Each.antt =====
-- What holds of each active fetch, when one of them is looked up, changed, added or taken out.
use ngs3fs.Prelude.{
  true, List, [], ◌∷◌, ◌++◌, some, ◌≡◌, arith, ap, subst, sym, ◌∙◌, inl, inr, Bool-cases,
}
use ngs3fs.Cache.Entry.{FetchClaim, ActiveFetch, is_claimed, find_claim, erase_claim, replace_claim}

-- A property of every fetch of the list.
abbrev pub Each : (ActiveFetch → Type 0) → List ActiveFetch → Type 0
Each P [] = Unit {0}
Each P (a ∷ rest) = P a × Each P rest

-- What the lookup finds is one of the list, by the test of the claim.
pub find_claim-Each :
    (P : ActiveFetch → Type 0) (fs : List ActiveFetch) (c : FetchClaim) (a : ActiveFetch)
    → Each P fs
    → find_claim fs c ≡ some a
    → P a
unfolding find_claim
find_claim-Each P [] c a all h = absurd (cc)
find_claim-Each P (b ∷ rest) c a all h = elim (Bool-cases (is_claimed c b)) [
  | inl t ↦ let same : b ≡ a = ground (arith, h, t) in subst P same all.0
  | inr f ↦ find_claim-Each P rest c a all.1 (ground (arith, h, f))
]

pub find_claim-claimed :
    (fs : List ActiveFetch) (c : FetchClaim) (a : ActiveFetch)
    → find_claim fs c ≡ some a
    → is_claimed c a ≡ true
unfolding find_claim
find_claim-claimed [] c a h = absurd (cc)
find_claim-claimed (b ∷ rest) c a h = elim (Bool-cases (is_claimed c b)) [
  | inl t ↦ let same : b ≡ a = ground (arith, h, t) in ap (is_claimed c) (sym same) ∙ t
  | inr f ↦ find_claim-claimed rest c a (ground (arith, h, f))
]

pub Each-erase :
    (P : ActiveFetch → Type 0) (fs : List ActiveFetch) (c : FetchClaim)
    → Each P fs
    → Each P (erase_claim fs c)
unfolding erase_claim
Each-erase P [] c all = tt
Each-erase P (a ∷ rest) c all = elim (Bool-cases (is_claimed c a)) [
  | inl t ↦ rw t all.1
  | inr f ↦ rw f (all.0, Each-erase P rest c all.1)
]

pub Each-replace :
    (P : ActiveFetch → Type 0) (fs : List ActiveFetch) (c : FetchClaim) (b : ActiveFetch)
    → Each P fs
    → P b
    → Each P (replace_claim fs c b)
unfolding replace_claim
Each-replace P [] c b all h = tt
Each-replace P (a ∷ rest) c b all h = elim (Bool-cases (is_claimed c a)) [
  | inl t ↦ rw t (h, all.1)
  | inr f ↦ rw f (all.0, Each-replace P rest c b all.1 h)
]

pub Each-append :
    (P : ActiveFetch → Type 0) (fs : List ActiveFetch) (b : ActiveFetch)
    → Each P fs
    → P b
    → Each P (fs ++ b ∷ [])
Each-append P [] b all h = (h, tt)
Each-append P (a ∷ rest) b all h = (all.0, Each-append P rest b all.1 h)
