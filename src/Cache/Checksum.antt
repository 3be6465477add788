-- ===== src/Cache/Checksum.antt =====
-- Verification of the object's checksum parts (src/cache.cpp, `begin_checksum_manifest` to
-- `abandon_checksum`): the manifest is loaded once, then each part is claimed, verified, retried
-- or abandoned.
use ngs3fs.Prelude.{
  ℕ, suc, ◌+◌, ◌-◌, ◌/◌, min, Bool, true, false, ◌||◌, ◌&&◌, ltb, leb, ◌==◌, not, if◌then◌else◌,
  Option, none, some, List, [], ◌∷◌, get_or, set, length, replicate, add64, sub64,
}
use ngs3fs.Cache.Bitmap.{page_size, range_all_state, clean, missing}
use ngs3fs.Cache.Entry.{
  Entry, Outcome, done, thrown, estale, overflow_error, ActiveFetch, Part, PartState, unverified,
  verifying, retrying, verified, part_bad, Manifest, unknown, loading, available, unavailable,
  change_pages, notify_waiters,
}
use ngs3fs.Cache.Region.{any_full}
use ngs3fs.Cache.Pins.{add_pins, drop_pins, store_pins}
use ngs3fs.Cache.Wait.{is_loading}
use ngs3fs.Cache.Retry.{is_available, in_progress, retry_pins_ready, wait_unless}

-- `CacheChecksumAction`
pub data Action : Type 0 where
  none_left wait verify report_bad : Action

-- `CacheChecksumClaim`
pub record ChecksumClaim : Type 0 where
  pub action : Action
  pub offset : ℕ
  pub size : ℕ
  pub epoch : ℕ
  pub part : ℕ
  pub algorithm : ℕ
  pub value : List ℕ

abbrev pub bare_claim : Action → ChecksumClaim
bare_claim a = record {
  action = a;
  offset = 0;
  size = 0;
  epoch = 0;
  part = 0;
  algorithm = 0;
  value = [];
}

-- The manifest can be read: `ready`, someone else reads it: `busy`.
pub data Begin : Type 0 where
  ready busy : Begin

unfoldable pub is_unknown : Manifest → Bool
is_unknown unknown = true
is_unknown loading = false
is_unknown available = false
is_unknown unavailable = false

unfoldable pub any_verifying : List ActiveFetch → Bool
any_verifying [] = false
any_verifying (a ∷ rest) = a.verifying || any_verifying rest

-- `begin_checksum_manifest(false)`, which does not wait: a stale entry throws at once.
unfoldable pub begin_checksum_manifest : Entry → Outcome Bool
begin_checksum_manifest e =
    if not e.stale && is_loading e.manifest
    then done false e
    else if e.stale
    then thrown estale e
    else if e.header.exported
    then done false (if is_unknown e.manifest then record e { manifest = unavailable } else e)
    else if not (is_unknown e.manifest)
    then done false e
    else if any_verifying e.active
    then done false e
    else done true (record e { manifest = loading; checksum_ops = add64 e.checksum_ops 1 })

unfoldable pub is_empty : List ℕ → Bool
is_empty [] = true
is_empty (c ∷ rest) = false

-- The loop over the parts: the offset behind them, or `none` at a part that does not fit.
unfoldable pub check_parts : ℕ → ℕ → List Part → Option ℕ
check_parts size offset [] = some offset
check_parts size offset (p ∷ ps) =
    let rest = check_parts size (add64 offset p.size) ps in
    if not (p.offset == offset)
      || (p.size == 0 || (ltb size offset || (ltb (size - offset) p.size || is_empty p.value)))
    then none
    else rest

unfoldable pub ends_at : Option ℕ → ℕ → Bool
ends_at none size = false
ends_at (some offset) size = offset == size

unfoldable pub no_parts : List Part → Bool
no_parts [] = true
no_parts (p ∷ ps) = false

unfoldable pub valid_parts : Entry → List Part → Bool
valid_parts e parts =
    not e.stale && (not (no_parts parts) && ends_at (check_parts e.size 0 parts) e.size)

-- `if (checksum_ops_ != 0) --checksum_ops_;`
abbrev pub less_op : ℕ → ℕ
less_op ops = if ops == 0 then ops else ops - 1

unfoldable pub finish_checksum_manifest : Entry → List Part → Entry
finish_checksum_manifest e parts =
    if valid_parts e parts
    then notify_waiters (record e {
      parts = parts;
      part_states = replicate (length parts) unverified;
      manifest = available;
      checksum_ops = less_op e.checksum_ops;
    })
    else notify_waiters (record e {
      parts = [];
      part_states = [];
      manifest = unavailable;
      checksum_ops = less_op e.checksum_ops;
    })

unfoldable pub checksum_manifest_unavailable : Entry → Entry
checksum_manifest_unavailable e = notify_waiters (record e {
  parts = [];
  part_states = [];
  manifest = unavailable;
  checksum_ops = less_op e.checksum_ops;
})

unfoldable pub checksum_manifest_available : Entry → Bool
checksum_manifest_available e = not e.stale && is_available e.manifest

-- What the loop of `claim_checksum` does at a part.
pub data Visit : Type 0 where
  go_on : Visit
  stop_bad : Visit
  stop_wait : Visit
  stop_verify : Visit

unfoldable pub visit_state : Entry → Part → PartState → Bool → Visit
visit_state e p part_bad skip = stop_bad
visit_state e p verifying skip = if skip then go_on else stop_wait
visit_state e p retrying skip = if skip then go_on else stop_wait
visit_state e p verified skip = go_on
visit_state e p unverified skip =
    if range_all_state e.words p.offset p.size clean then stop_verify else go_on

unfoldable pub visit : Entry → Part → PartState → ℕ → ℕ → Bool → Visit
visit e p state begin end skip =
    if leb end p.offset || leb (add64 p.offset p.size) begin
    then go_on
    else visit_state e p state skip

-- A part is claimed: its regions are pinned, and it is being verified.
unfoldable pub claim_part : Entry → ℕ → Part → Outcome ChecksumClaim
claim_part e i p =
    let first = p.offset / e.block_size in
    let last = min e.regions (sub64 (add64 p.offset p.size) 1 / e.block_size + 1) in
    if any_full e.pins first (last - first)
    then thrown overflow_error e
    else done
        (record {
          action = verify;
          offset = p.offset;
          size = p.size;
          epoch = e.epoch;
          part = i;
          algorithm = p.algorithm;
          value = p.value;
        })
        (record (add_pins e first last) {
          part_states = set e.part_states i verifying;
          checksum_ops = add64 e.checksum_ops 1;
        })

unfoldable pub at_visit : Visit → Entry → ℕ → Part → Outcome ChecksumClaim → Outcome ChecksumClaim
at_visit go_on e i p rest = rest
at_visit stop_bad e i p rest = done (bare_claim report_bad) e
at_visit stop_wait e i p rest = done (bare_claim wait) e
at_visit stop_verify e i p rest = claim_part e i p

unfoldable pub claim_loop : Entry → ℕ → List Part → ℕ → ℕ → Bool → Outcome ChecksumClaim
claim_loop e i [] begin end skip = done (bare_claim none_left) e
claim_loop e i (p ∷ ps) begin end skip =
    at_visit (visit e p (get_or e.part_states i unverified) begin end skip) e i p
      (claim_loop e (suc i) ps begin end skip)

unfoldable pub claim_checksum : Entry → ℕ → ℕ → Bool → Outcome ChecksumClaim
claim_checksum e offset length skip =
    if e.stale
    then thrown estale e
    else if not (is_available e.manifest) || length == 0
    then done (bare_claim none_left) e
    else if e.header.exported
    then done (bare_claim none_left) e
    else if leb e.size offset
    then done (bare_claim none_left) e
    else claim_loop e 0 e.parts offset (add64 offset (min length (e.size - offset))) skip

-- `checksum_states_[claim.part] == kPartVerifying`
unfoldable pub is_verifying : PartState → Bool
is_verifying verifying = true
is_verifying unverified = false
is_verifying retrying = false
is_verifying verified = false
is_verifying part_bad = false

abbrev pub claimed_state : Entry → ChecksumClaim → PartState
claimed_state e claim = get_or e.part_states claim.part unverified

-- The claim is of this generation and of a part of its manifest.
abbrev pub is_current : Entry → ChecksumClaim → Bool
is_current e claim = ltb claim.part (length e.part_states) && claim.epoch == e.epoch

unfoldable pub checksum_mismatch : Entry → ChecksumClaim → Entry
checksum_mismatch e claim =
    if not e.stale && (is_current e claim && is_verifying (claimed_state e claim))
    then notify_waiters (record e { part_states = set e.part_states claim.part retrying })
    else notify_waiters e

-- `begin_checksum_retry_locked`
unfoldable pub begin_checksum_retry : Entry → ChecksumClaim → Outcome Bool
begin_checksum_retry e claim =
    if e.stale || (not (is_current e claim) || not (in_progress (claimed_state e claim)))
    then thrown estale e
    else let e' =
        (if is_verifying (claimed_state e claim)
          then notify_waiters (record e { part_states = set e.part_states claim.part retrying })
          else e) in
      done (retry_pins_ready e' claim.offset claim.size) e'

unfoldable pub begin_checksum_retry_wait : Entry → ChecksumClaim → Outcome Bool
begin_checksum_retry_wait e claim = wait_unless (begin_checksum_retry e claim)

-- The regions of a claim's bytes up to `end`, bounded by those of the entry.
abbrev pub claim_last_region : Entry → ℕ → ℕ
claim_last_region e end = min e.regions (sub64 end 1 / e.block_size + 1)

-- The part takes its new state, its pins are dropped, and one operation less is counted.
unfoldable pub release_part : Entry → ChecksumClaim → PartState → ℕ → Entry
release_part e claim state end =
    let u = drop_pins e (claim.offset / e.block_size) (claim_last_region e end) in
    notify_waiters (record (store_pins e u) {
      part_states = set e.part_states claim.part state;
      checksum_ops = less_op e.checksum_ops;
    })

unfoldable pub finish_checksum : Entry → ChecksumClaim → Bool → Entry
finish_checksum e claim valid =
    if not (is_current e claim) || not (in_progress (claimed_state e claim))
    then e
    else release_part e claim (if valid then verified else part_bad) (add64 claim.offset claim.size)

unfoldable pub abandon_checksum : Entry → ChecksumClaim → Entry
abandon_checksum e claim =
    if not (is_current e claim) || not (in_progress (claimed_state e claim))
    then e
    else let end = min e.size (add64 claim.offset claim.size) in
      let first = claim.offset / page_size in
      let last = min e.page_count (sub64 end 1 / page_size + 1) in
      release_part (record e { words = change_pages e.words first (last - first) clean missing })
        claim unverified end
