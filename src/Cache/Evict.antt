-- ===== src/Cache/Evict.antt =====
-- Clock eviction (src/cache.cpp, `evict_one_region`): a second chance for each referenced region,
-- then the clean pages of the first region that no one uses become missing, and the region is
-- punched. The calls of the kernel are an argument: whether the two `fstat`s and the `fallocate`
-- succeed, and the blocks of the file before and after.
pub mod Region
pub mod Safe
pub mod Shape
use ngs3fs.Prelude.{
  ℕ, zero, suc, ◌+◌, ◌-◌, ◌/◌, ◌%◌, min, Bool, true, false, ◌||◌, ◌==◌, not, if◌then◌else◌, List,
  [], ◌∷◌, add64, mul64,
}
use ngs3fs.Cache.Bitmap.{
  PageState, Words, page_size, page_state, set_page_state, missing, read_pending, clean, bad,
}
use ngs3fs.Cache.Entry.{Entry, update, notify_waiters}

pub record Punch : Type 0 where
  pub stat_before : Bool
  pub punches : Bool
  pub stat_after : Bool
  pub blocks_before : ℕ
  pub blocks_after : ℕ

-- The pages of a region: evictable, and those that are clean.
pub record RegionScan : Type 0 where
  pub evictable : Bool
  pub clean_pages : List ℕ

unfoldable pub scan_state : PageState → ℕ → RegionScan → RegionScan
scan_state clean page rest = record rest { clean_pages = page ∷ rest.clean_pages }
scan_state missing page rest = rest
scan_state read_pending page rest = record { evictable = false; clean_pages = [] }
scan_state bad page rest = record { evictable = false; clean_pages = [] }

unfoldable pub scan_region : Words → ℕ → ℕ → RegionScan
scan_region words page zero = record { evictable = true; clean_pages = [] }
scan_region words page (suc n) =
    scan_state (page_state words page) page (scan_region words (page + 1) n)

-- `for (size_t page : pages) set_page_state(page, state);`
unfoldable pub set_listed : Words → List ℕ → PageState → Words
set_listed words [] state = words
set_listed words (page ∷ pages) state = set_listed (set_page_state words page state) pages state

-- The region's clean pages become missing, and clean again if the region cannot be punched.
unfoldable pub evict_region : Entry → Punch → ℕ → List ℕ → ℕ × Entry
evict_region e k region pages =
    let words = set_listed e.words pages missing in
    if not k.stat_before
    then (0, e)
    else if not k.punches
    then (0, record e { words = set_listed words pages clean })
    else let e' : Entry = record e {
      words = words;
      punched = (mul64 region e.block_size, e.block_size) ∷ e.punched;
    } in
      if not k.stat_after
      then (0, e')
      else (mul64 (k.blocks_before - k.blocks_after) 512, notify_waiters e')

unfoldable pub no_pages : List ℕ → Bool
no_pages [] = true
no_pages (p ∷ pages) = false

unfoldable pub region_scan : Entry → ℕ → RegionScan
region_scan e region =
    let offset = mul64 region e.block_size in
    let first = offset / page_size in
    let last = (min e.size (add64 offset e.block_size) - 1) / page_size + 1 in
    scan_region e.words first (last - first)

-- The rounds of the clock left; the hand moves in every round.
unfoldable pub clock : ℕ → Entry → Punch → ℕ × Entry
clock zero e k = (0, e)
clock (suc scans) e k =
    let region = e.clock_hand % e.regions in
    let moved : Entry = record e { clock_hand = add64 e.clock_hand 1 } in
    let passed = clock scans (record moved { referenced = update e.referenced region false }) k in
    let skipped = clock scans moved k in
    let scan = region_scan e region in
    if e.referenced region
    then passed
    else (if not scan.evictable || (not (e.pins region == 0) || no_pages scan.clean_pages)
        then skipped
        else evict_region moved k region scan.clean_pages)

unfoldable pub evict_one_region : Bool → Entry → Punch → ℕ × Entry
evict_one_region unlimited e k =
    if unlimited
      || (e.stale
          || (e.eviction_disabled || ((e.header.dirty || e.header.exported) || e.regions == 0)))
    then (0, e)
    else clock e.regions e k
