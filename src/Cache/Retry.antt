-- ===== src/Cache/Retry.antt =====
-- Whole-object verification and its retry (src/cache.cpp, `pin_fetch_verification` to
-- `finish_retry`, and `retry_pins_ready_locked`).
use ngs3fs.Prelude.{
  ℕ, zero, suc, ◌+◌, ◌-◌, ◌/◌, min, Bool, true, false, ◌||◌, ◌&&◌, ltb, leb, ◌==◌, not,
  if◌then◌else◌, Option, none, some, List, [], ◌∷◌, get_or, add64, mul64,
}
use ngs3fs.Cache.Bitmap.{page_size, range_all_state, read_pending, clean}
use ngs3fs.Cache.Entry.{
  Entry, Outcome, done, thrown, estale, logic_error, overflow_error, FetchClaim, ActiveFetch, Part,
  PartState, unverified, verifying, retrying, verified, part_bad, Manifest, available, unknown,
  loading, unavailable, set_pages, find_claim, is_claimed, replace_claim, notify_waiters,
  end_region,
}
use ngs3fs.Cache.Region.{any_full}
use ngs3fs.Cache.Pins.{add_pins}
use ngs3fs.Cache.Fetch.{claim_end_page, publish_clean, mark_bad, finish_fetch}
use ngs3fs.Cache.Wait.{register_waiter}

unfoldable pub is_available : Manifest → Bool
is_available available = true
is_available unknown = false
is_available loading = false
is_available unavailable = false

-- Another active fetch than the claim's own reaches into the claim.
unfoldable pub others_overlap : List ActiveFetch → FetchClaim → Bool
others_overlap [] claim = false
others_overlap (a ∷ rest) claim =
    not (is_claimed claim a)
      && (ltb a.offset (claim.offset + claim.length) && ltb claim.offset (a.offset + a.length))
    || others_overlap rest claim

-- The test of `pin_fetch_verification` that a fetch may not be pinned.
unfoldable pub cannot_verify : Entry → FetchClaim → ActiveFetch → Bool
cannot_verify e claim active =
    not (active.published == claim.length)
    || (not (e.checksum_ops == 0)
        || (is_available e.manifest
            || (not (range_all_state e.words claim.offset claim.length clean)
                || others_overlap e.active claim)))

unfoldable pub verify_found : Entry → FetchClaim → Option ActiveFetch → Outcome Bool
verify_found e claim none = done false e
verify_found e claim (some active) =
    if e.stale
    then done false e
    else if active.verifying
    then done true e
    else if cannot_verify e claim active
    then done false e
    else let first = claim.offset / e.block_size in
      let last = end_region e.block_size claim.offset claim.length in
      if any_full e.pins first (last - first)
      then thrown overflow_error e
      else done true (record (add_pins e first last) {
        active = replace_claim e.active claim (record active { verifying = true });
      })

unfoldable pub pin_fetch_verification : Entry → FetchClaim → Outcome Bool
pin_fetch_verification e claim = verify_found e claim (find_claim e.active claim)

-- The verifications that hold a pin of the bytes from `begin` to `end`.
unfoldable pub in_progress : PartState → Bool
in_progress verifying = true
in_progress retrying = true
in_progress unverified = false
in_progress verified = false
in_progress part_bad = false

unfoldable pub count_parts : ℕ → List Part → List PartState → ℕ → ℕ → ℕ
count_parts i [] states begin end = 0
count_parts i (p ∷ ps) states begin end =
    (if in_progress (get_or states i unverified)
        && (ltb p.offset end && ltb begin (add64 p.offset p.size))
      then 1
      else 0)
    + count_parts (suc i) ps states begin end

unfoldable pub count_fetches : List ActiveFetch → ℕ → ℕ → ℕ
count_fetches [] begin end = 0
count_fetches (a ∷ rest) begin end =
    (if a.verifying && (ltb a.offset end && ltb begin (add64 a.offset a.length)) then 1 else 0)
    + count_fetches rest begin end

-- No region of the range has more pins than verifications.
unfoldable pub pins_ready_loop : Entry → ℕ → ℕ → Bool
pins_ready_loop e region zero = true
pins_ready_loop e region (suc n) =
    let begin = mul64 region e.block_size in
    let end = min e.size (add64 begin e.block_size) in
    leb (e.pins region)
      (count_parts 0 e.parts e.part_states begin end + count_fetches e.active begin end)
    && pins_ready_loop e (region + 1) n

unfoldable pub retry_pins_ready : Entry → ℕ → ℕ → Bool
retry_pins_ready e offset length =
    let first = offset / e.block_size in
    pins_ready_loop e first (end_region e.block_size offset length - first)

-- The pages of the claim become pending again, and nothing of it is published.
unfoldable pub start_retry : Entry → FetchClaim → ActiveFetch → Entry
start_retry e claim active =
    let first = claim.offset / page_size in
    notify_waiters (record e {
      words = set_pages e.words first (claim_end_page e claim - first) read_pending;
      active = replace_claim e.active claim (record active { published = 0; retrying = true });
    })

unfoldable pub retry_found : Entry → FetchClaim → Option ActiveFetch → Outcome Bool
retry_found e claim none = thrown estale e
retry_found e claim (some active) =
    if e.stale
    then thrown estale e
    else if not active.verifying
    then thrown logic_error e
    else let e' = (if active.retrying then e else start_retry e claim active) in
      done (retry_pins_ready e' claim.offset claim.length) e'

-- `begin_retry_locked`; `begin_retry` repeats it after each wait until it returns true.
unfoldable pub begin_retry : Entry → FetchClaim → Outcome Bool
begin_retry e claim = retry_found e claim (find_claim e.active claim)

-- A wait registers unless the state is ready: `true` for the descriptor, `false` for -1.
unfoldable pub wait_unless : Outcome Bool → Outcome Bool
wait_unless (done true e) = done false e
wait_unless (done false e) = let (fd, e') = register_waiter e in done fd e'
wait_unless (thrown x e) = thrown x e

unfoldable pub begin_retry_wait : Entry → FetchClaim → Outcome Bool
begin_retry_wait e claim = wait_unless (begin_retry e claim)

unfoldable pub finish_retry : Entry → FetchClaim → Bool → Entry
finish_retry e claim valid =
    finish_fetch (if valid then publish_clean e claim 0 claim.length true else mark_bad e claim)
      claim
