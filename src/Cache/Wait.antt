-- ===== src/Cache/Wait.antt =====
-- Waiting for a state of the cache (src/cache.cpp, `range_ready_locked`, the `begin_*_wait` calls
-- and `end_async_wait`). A wait returns `none` when a recheck is already useful; else it registers
-- a waiter, and the descriptor of the eventfd is returned. The eventfd is made once; a failure to
-- make it is not modelled.
use ngs3fs.Prelude.{
  ℕ, zero, suc, ◌+◌, ◌-◌, ◌/◌, Bool, true, false, ◌||◌, ◌&&◌, ltb, ◌==◌, not, if◌then◌else◌, Option,
  none, some, List, [], ◌∷◌, add64, sub64, mul64,
}
use ngs3fs.Cache.Bitmap.{
  PageState, Words, page_state, missing, read_pending, clean, bad, first_page, last_page,
}
use ngs3fs.Cache.Entry.{
  Entry, Outcome, done, thrown, retirement_pending, logic_error, Manifest, loading, unknown,
  available, unavailable, PartState, unverified, verifying, retrying, verified, part_bad,
  ActiveFetch, block_first_page, block_last_page, notify_waiters,
}
use ngs3fs.Cache.Parts.{checksum_blocked}

-- What a loop over pages finds: it returns `true` at a bad page, and remembers a pending one.
pub data Seen : Type 0 where
  is_bad has_pending none_pending : Seen

unfoldable pub see : PageState → Seen → Seen
see bad rest = is_bad
see read_pending is_bad = is_bad
see read_pending has_pending = has_pending
see read_pending none_pending = has_pending
see missing rest = rest
see clean rest = rest

unfoldable pub see_pages : Words → ℕ → ℕ → Seen
see_pages words page zero = none_pending
see_pages words page (suc n) = see (page_state words page) (see_pages words (page + 1) n)

-- The pages of a block: one is pending, one is not clean, or all are clean.
pub data BlockSeen : Type 0 where
  block_pending block_incomplete block_clean : BlockSeen

unfoldable pub see_block : PageState → BlockSeen → BlockSeen
see_block read_pending rest = block_pending
see_block clean rest = rest
see_block missing block_pending = block_pending
see_block missing block_incomplete = block_incomplete
see_block missing block_clean = block_incomplete
see_block bad block_pending = block_pending
see_block bad block_incomplete = block_incomplete
see_block bad block_clean = block_incomplete

unfoldable pub see_block_pages : Words → ℕ → ℕ → BlockSeen
see_block_pages words page zero = block_clean
see_block_pages words page (suc n) =
    see_block (page_state words page) (see_block_pages words (page + 1) n)

-- A block is ready unless a page is pending, or it is incomplete and pinned.
unfoldable pub block_ready : Entry → ℕ → BlockSeen → Bool
block_ready e block block_pending = false
block_ready e block block_incomplete = not (ltb block e.regions && not (e.pins block == 0))
block_ready e block block_clean = true

unfoldable pub blocks_ready : Entry → ℕ → ℕ → Bool
blocks_ready e block zero = true
blocks_ready e block (suc n) =
    let offset = mul64 block e.block_size in
    let first = block_first_page e offset in
    block_ready e block (see_block_pages e.words first (block_last_page e offset - first))
    && blocks_ready e (block + 1) n

unfoldable pub pages_ready : Entry → ℕ → ℕ → Seen → Bool
pages_ready e offset length is_bad = true
pages_ready e offset length has_pending = false
pages_ready e offset length none_pending =
    let first = offset / e.block_size in
    let last = sub64 (add64 offset length) 1 / e.block_size in
    blocks_ready e first (last + 1 - first)

unfoldable pub checksum_ready : Entry → ℕ → ℕ → PartState → Bool
checksum_ready e offset length part_bad = true
checksum_ready e offset length retrying = false
checksum_ready e offset length unverified =
    pages_ready e offset length
      (see_pages e.words (first_page offset) (last_page offset length + 1 - first_page offset))
checksum_ready e offset length verifying =
    pages_ready e offset length
      (see_pages e.words (first_page offset) (last_page offset length + 1 - first_page offset))
checksum_ready e offset length verified =
    pages_ready e offset length
      (see_pages e.words (first_page offset) (last_page offset length + 1 - first_page offset))

-- `range_ready_locked`
unfoldable pub range_ready : Entry → ℕ → ℕ → Bool
range_ready e offset length =
    if e.stale || length == 0
    then true
    else checksum_ready e offset length (checksum_blocked e offset length)

-- `wait_fd_ = eventfd(...)` if there is none, `++waiters_`, and the descriptor is returned.
unfoldable pub register_waiter : Entry → Bool × Entry
register_waiter e = (true, record e { wait_fd = true; waiters = e.waiters + 1 })

-- `true` for the descriptor, `false` for -1.
unfoldable pub begin_async_wait : Entry → ℕ → ℕ → Bool × Entry
begin_async_wait e offset length =
    if range_ready e offset length then (false, e) else register_waiter e

unfoldable pub is_retrying : PartState → Bool
is_retrying retrying = true
is_retrying unverified = false
is_retrying verifying = false
is_retrying verified = false
is_retrying part_bad = false

unfoldable pub begin_checksum_wait : Entry → ℕ → ℕ → Bool × Entry
begin_checksum_wait e offset length =
    if is_retrying (checksum_blocked e offset length) then register_waiter e else (false, e)

unfoldable pub is_loading : Manifest → Bool
is_loading loading = true
is_loading unknown = false
is_loading available = false
is_loading unavailable = false

unfoldable pub begin_manifest_wait : Entry → Bool × Entry
begin_manifest_wait e =
    if e.stale || not (is_loading e.manifest) then (false, e) else register_waiter e

-- `none` is the call of `abort`.
unfoldable pub end_async_wait : Entry → Option Entry
end_async_wait e = if e.waiters == 0 then none else some (record e { waiters = e.waiters - 1 })

unfoldable pub no_active : List ActiveFetch → Bool
no_active [] = true
no_active (a ∷ rest) = false

-- `active_claims_.empty() && checksum_ops_ == 0 && pinned_regions_ == 0`
unfoldable pub is_quiet : Entry → Bool
is_quiet e = no_active e.active && (e.checksum_ops == 0 && e.pinned_regions == 0)

-- `retire_generation(false)`, which does not wait.
unfoldable pub retire_generation : Entry → Outcome (Unit {0})
retire_generation e =
    let e' = (if e.stale then e else notify_waiters (record e { stale = true })) in
    if is_quiet e' then done tt e' else thrown retirement_pending e'

unfoldable pub begin_retire_wait : Entry → Outcome Bool
begin_retire_wait e =
    if not e.stale
    then thrown logic_error e
    else if is_quiet e
    then done false e
    else done true (record e { wait_fd = true; waiters = e.waiters + 1 })
