-- ===== src/Cache/Evict/Region.antt =====
-- The pages that the clock finds in a region.
use native.Mathlib.Nat.{mul-div_cancel, div-mul-le_self, mul-le-mul_right}
use ngs3fs.Prelude.{
  ℕ, zero, suc, ◌+◌, ◌-◌, ◌*◌, ◌/◌, ◌≤◌, ◌<◌, Bool, true, false, ◌||◌, ◌==◌, if◌then◌else◌, List,
  [], ◌∷◌, ◌≡◌, refl, arith, ap, sym, ◌∙◌, inl, inr, Bool-cases, ==_iff, mul64,
}
use ngs3fs.Cache.Bitmap.{
  PageState, Words, page_size, page_state, set_page_state, missing, read_pending, clean, bad,
}
use ngs3fs.Cache.Bitmap.Update.{page_state-set_page_state}
use ngs3fs.Cache.Entry.{Entry}
use ngs3fs.Cache.Entry.Geometry.{Geometry, IsAligned, aligned_pages, block_of_page}
use ngs3fs.Cache.Evict.{RegionScan, scan_state, scan_region, set_listed, region_scan}

abbrev pub listed : List ℕ → ℕ → Bool
listed [] q = false
listed (p ∷ pages) q = p == q || listed pages q

pub state-set_listed :
    (w : Words) (pages : List ℕ) (s : PageState) (q : ℕ)
    → page_state (set_listed w pages s) q ≡ (if listed pages q then s else page_state w q)
unfolding set_listed
state-set_listed w [] s q = refl
state-set_listed w (p ∷ pages) s q =
    state-set_listed (set_page_state w p s) pages s q
    ∙ ground (arith, page_state-set_page_state w p q s)

-- The pages that a scan lists are clean pages of its run.
abbrev Scanned : Words → ℕ → ℕ → RegionScan → ℕ → Type 0
Scanned w p n s q = listed s.clean_pages q ≡ true → (page_state w q ≡ clean) × (p ≤ q) × (q < p + n)

scan_state_lem :
    (w : Words) (p n q : ℕ) (s : PageState) (rest : RegionScan)
    → page_state w p ≡ s
    → Scanned w (p + 1) n rest q
    → Scanned w p (suc n) (scan_state s p rest) q
unfolding scan_state
scan_state_lem w p n q missing rest e k h = let (c, lo, hi) = k h in (c, omega arith, omega arith)
scan_state_lem w p n q read_pending rest e k h = absurd (cc)
scan_state_lem w p n q clean rest e k h = elim (Bool-cases (p == q)) [
  | inl t ↦
      let same : p ≡ q = (==_iff p q).0 t in
      (ap (page_state w) (sym same) ∙ e, omega arith, omega arith)
  | inr f ↦ let (c, lo, hi) = k (ground (arith, f, h)) in (c, omega arith, omega arith)
]
scan_state_lem w p n q bad rest e k h = absurd (cc)

scan_region_lem : (w : Words) (p n q : ℕ) → Scanned w p n (scan_region w p n) q
unfolding scan_region
scan_region_lem w p zero q = λ h. absurd (cc)
scan_region_lem w p (suc n) q =
    scan_state_lem w p n q (page_state w p) _ refl (scan_region_lem w (p + 1) n q)

-- The regions of an entry cover the object.
abbrev pub Covered : Entry → Type 0
Covered e = e.regions ≡ (e.size + e.block_size - 1) / e.block_size

region_begins :
    (e : Entry) (region : ℕ)
    → Geometry e
    → Covered e
    → region < e.regions
    → region * e.block_size < e.size
region_begins e region g v lt = omega (
  arith,
  g.block_pos,
  div-mul-le_self (e.size + e.block_size - 1) e.block_size,
  mul-le-mul_right {m = region + 1} {n = (e.size + e.block_size - 1) / e.block_size} e.block_size
      (omega (arith, v)),
)

-- Each listed page is clean and lies in the region.
pub region_scan_lem :
    (e : Entry) (region q : ℕ)
    → Geometry e
    → Covered e
    → region < e.regions
    → listed (region_scan e region).clean_pages q ≡ true
    → (page_state e.words q ≡ clean) × (q * page_size / e.block_size ≡ region)
unfolding region_scan
region_scan_lem e region q g v lt h =
    let (c, lo, hi) = scan_region_lem e.words _ _ q h in
    let begins = region_begins e region g v lt in
    let cancel : region * e.block_size / e.block_size ≡ region =
      mul-div_cancel region g.block_pos in
    let a : IsAligned e (region * e.block_size) = ap (λ (t : ℕ). t * e.block_size) cancel in
    let whole = aligned_pages e (region * e.block_size) g a in
    let exact : mul64 region e.block_size ≡ region * e.block_size =
      omega (arith, begins, g.size_max) in
    let after_begin : region * e.block_size ≤ q * page_size = omega (arith, lo, whole, exact) in
    let before_end : q * page_size < region * e.block_size + e.block_size =
      omega (arith, hi, lo, exact, g.block_max, g.size_max, begins) in
    (c, block_of_page e (region * e.block_size) (q * page_size) g a after_begin before_end ∙ cancel)
