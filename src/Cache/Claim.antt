-- ===== src/Cache/Claim.antt =====
-- Claiming blocks for a download (src/cache.cpp, `claim_fetch`): from the block of the first
-- missing page on, all the blocks that the request and the expansion reach, up to the first that
-- is pinned, being read, bad, or wholly clean.
pub mod Free
pub mod Bounds
pub mod Result
pub mod Exclusive
use ngs3fs.Prelude.{
  ℕ, zero, suc, ◌+◌, ◌-◌, ◌*◌, ◌/◌, min, max, Bool, true, false, ◌||◌, ◌&&◌, ltb, leb, ◌==◌, not,
  if◌then◌else◌, List, [], ◌∷◌, ◌++◌, Option, none, some, word, add64, mul64,
}
use ngs3fs.Cache.Bitmap.{
  PageState, Words, page_size, page_state, set_page_state, same_state, missing, read_pending, clean,
  bad, first_page, last_page,
}
use ngs3fs.Cache.Entry.{
  Entry, Outcome, done, thrown, estale, FetchClaim, no_claim, ActiveFetch, block_first_page,
  block_last_page,
}

-- The loop to the first page that is not clean: `some page` if that page is missing.
unfoldable pub seek_step : PageState → ℕ → Option ℕ → Option ℕ
seek_step missing page rest = some page
seek_step read_pending page rest = none
seek_step clean page rest = rest
seek_step bad page rest = none

unfoldable pub first_missing : Words → ℕ → ℕ → Option ℕ
first_missing words page zero = none
first_missing words page (suc n) =
    seek_step (page_state words page) page (first_missing words (page + 1) n)

-- The smallest multiple of the block size from `x` on, or UINT64_MAX.
unfoldable pub round_to_block : ℕ → ℕ → ℕ
round_to_block block_size x =
    if ltb (word - 1 - (block_size - 1)) x
    then word - 1
    else (x + block_size - 1) / block_size * block_size

-- `end`, before the blocks are looked at.
unfoldable pub wanted_end : Entry → ℕ → ℕ → ℕ → ℕ
wanted_end e start request_end expansion =
    let extent = max expansion e.block_size in
    let expanded_end = (if ltb (word - 1 - extent) start then word - 1 else start + extent) in
    min e.size
      (max (round_to_block e.block_size request_end) (round_to_block e.block_size expanded_end))

-- What the loop over a block's pages finds.
pub record BlockScan : Type 0 where
  pub blocked : Bool
  pub all_clean : Bool

-- `state == CACHE_PAGE_READ_PENDING || state == CACHE_PAGE_BAD`
unfoldable pub is_busy : PageState → Bool
is_busy state = same_state state read_pending || same_state state bad

-- `for (page = block_first; page < block_last && !blocked; ++page)`
unfoldable pub scan_pages : Words → ℕ → ℕ → BlockScan → BlockScan
scan_pages words page zero s = s
scan_pages words page (suc n) s =
    let state = page_state words page in
    let rest =
      scan_pages words (page + 1) n
        (record { blocked = is_busy state; all_clean = s.all_clean && same_state state clean }) in
    if s.blocked then s else rest

-- `blocked` and `all_clean` before the loop: a pinned region blocks.
abbrev pub before_pages : Entry → ℕ → BlockScan
before_pages e block = record {
  blocked = ltb (block / e.block_size) e.regions && not (e.pins (block / e.block_size) == 0);
  all_clean = true;
}

unfoldable pub scan_block : Entry → ℕ → BlockScan
scan_block e block =
    let first = block_first_page e block in
    scan_pages e.words first (block_last_page e block - first) (before_pages e block)

-- The claim stops before this block.
unfoldable pub stops_at : Entry → ℕ → ℕ → Bool
stops_at e start block =
    let s = scan_block e block in s.blocked || (not (block == start) && s.all_clean)

-- The loop that cuts `end`; at most one round for each block between `block` and `end`.
unfoldable pub cut_end : ℕ → Entry → ℕ → ℕ → ℕ → ℕ
cut_end zero e start block end = end
cut_end (suc fuel) e start block end =
    let rest = cut_end fuel e start (block + e.block_size) end in
    if ltb block end
    then (if stops_at e start block
        then block
        else (if ltb (word - 1 - e.block_size) block then end else rest))
    else end

-- The states of `n` pages from `page` on, which all become pending.
unfoldable pub claim_pages : Words → ℕ → ℕ → List PageState × Words
claim_pages words page zero = ([], words)
claim_pages words page (suc n) =
    let (states, words') = claim_pages (set_page_state words page read_pending) (page + 1) n in
    (page_state words page ∷ states, words')

-- `next_claim_id_++`, twice if the first id is 0: the id, and the next one.
unfoldable pub take_id : ℕ → ℕ × ℕ
take_id next = if next == 0 then (add64 next 1, add64 (add64 next 1) 1) else (next, add64 next 1)

-- The claim of the blocks from `start` to `end`.
unfoldable pub make_claim : Entry → ℕ → ℕ → Outcome FetchClaim
make_claim e start end =
    let first = block_first_page e start in
    let end_page = min e.page_count ((end - 1) / page_size + 1) in
    let (id, next) = take_id e.next_claim_id in
    let (states, words) = claim_pages e.words first (end_page - first) in
    let active : ActiveFetch = record {
      id = id;
      epoch = e.epoch;
      offset = start;
      length = end - start;
      published = 0;
      verifying = false;
      retrying = false;
      prior_states = states;
    } in
    done (record { offset = start; epoch = e.epoch; id = id; length = end - start })
      (record e { words = words; next_claim_id = next; active = e.active ++ active ∷ [] })

unfoldable pub claim_from : Entry → ℕ → ℕ → ℕ → Outcome FetchClaim
claim_from e missing_page request_end expansion =
    let start = mul64 missing_page page_size / e.block_size * e.block_size in
    let wanted = wanted_end e start request_end expansion in
    let end = cut_end (suc ((wanted - start) / e.block_size + 1)) e start start wanted in
    if leb end start then done no_claim e else make_claim e start end

unfoldable pub claim_missing : Entry → Option ℕ → ℕ → ℕ → Outcome FetchClaim
claim_missing e none request_end expansion = done no_claim e
claim_missing e (some page) request_end expansion = claim_from e page request_end expansion

unfoldable pub claim_fetch : Entry → ℕ → ℕ → ℕ → Outcome FetchClaim
claim_fetch e offset length expansion =
    if e.stale
    then thrown estale e
    else if length == 0 || (leb e.size offset || (e.header.dirty || e.header.exported))
    then done no_claim e
    else let wanted = min length (e.size - offset) in
      let first = first_page offset in
      claim_missing e (first_missing e.words first (last_page offset wanted + 1 - first))
        (add64 offset wanted) expansion
