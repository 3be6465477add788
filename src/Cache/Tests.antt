-- ===== src/Cache/Tests.antt =====
-- An entry of 200000 bytes in blocks of two pages, runs of the operations on it, and the theorems
-- of the cache at concrete inputs.
use ngs3fs.Prelude.{
  ◌+◌, ◌-◌, ◌/◌, ◌≡◌, ◌↔◌, refl, true, false, ◌==◌, if◌then◌else◌, [], ◌∷◌, ◌++◌, ◌⊎◌, some, arith,
}
use ngs3fs.Cache.Bitmap.{Words, clean, bad, page_state, set_page_state, range_all_state, page_size}
use ngs3fs.Cache.Bitmap.Update.{page_state-set_page_state}
use ngs3fs.Cache.Bitmap.Range.{AllState, range_all_state_iff}
use ngs3fs.Cache.Entry.{Entry, Header, Part, available, done, after, verified, retrying}
use ngs3fs.Cache.Region.{sum_pins, any_full}
use ngs3fs.Cache.Entry.{FetchClaim, no_claim, block_first_page, block_last_page}
use ngs3fs.Cache.Entry.Geometry.{Geometry}
use ngs3fs.Cache.Claim.{
  claim_fetch, first_missing, seek_step, claim_missing, claim_from, wanted_end, round_to_block,
  cut_end, stops_at, scan_block, scan_pages, is_busy, make_claim, claim_pages, take_id,
}
use ngs3fs.Cache.Claim.Result.{Claimed, claim_fetch-Claimed}
use ngs3fs.Cache.Claim.Exclusive.{IsExclusive}
use ngs3fs.Cache.Fetch.{publish_clean, rollback_fetch}
use ngs3fs.Cache.Fetch.Sound.{IsSound}
use ngs3fs.Cache.Fetch.Reach.{Reach, here, next, claim, publish, rollback, evict, Reach-Downloads}
use ngs3fs.Cache.Evict.{Punch, evict_one_region}
use ngs3fs.Cache.Evict.Safe.{SafeEviction, evict_one_region-SafeEviction}
use ngs3fs.S3.Text.{Text}
use ngs3fs.S3.Path.Encode.{IsBytes}
use ngs3fs.Cache.Name.{
  escape_prefix, encode_component, needs_escape, is_dot_name, has_prefix, has_control,
  cache_base64url, base64_digit,
}
use ngs3fs.Cache.Name.Base64.{read_base64, read_base64-cache_base64url}
use ngs3fs.Cache.Name.Distinct.{encode_component-distinct}
use ngs3fs.Cache.Parts.{checksum_blocked}
use ngs3fs.Cache.Parts.Blocked.{scan, checksum_blocked-eq-scan}
use ngs3fs.Cache.Pins.{pin, pin_clean, unpin, add_pins}
use ngs3fs.Cache.Pins.Balance.{IsBalanced, InEntry, pin-IsBalanced}
use ngs3fs.Cache.Pins.Undo.{unpin-pin}
use ngs3fs.Cache.Capacity.{Limits, Statvfs, Account, try_reserve_capacity, cancel_reservation}
use ngs3fs.Cache.Capacity.{reserve_floor, available_bytes, unit_bytes, within_maximum, within_free}
use ngs3fs.Cache.Capacity.Reserve.{Reserved, try_reserve_outcome, cancel-try_reserve}

abbrev idle : Header
idle = record {
  dirty = false;
  exported = false;
  object_size = 200000;
  written_end = 0;
  mtime = 0;
  write_phase = 0;
  upload_part_size = 8388608;
  upload_id = [];
  etag = [];
  version_id = [];
}

-- Pages 0 and 1 are clean, the others are missing.
abbrev two_clean : Words
two_clean word_index = if word_index == 0 then 0b1010 else 0

abbrev first_part : Part
first_part = record { offset = 0; size = 100000; algorithm = 3; value = 1 ∷ [] }

abbrev second_part : Part
second_part = record { offset = 100000; size = 100000; algorithm = 3; value = 2 ∷ [] }

abbrev sample : Entry
sample = record {
  key = 97 ∷ [];
  header = idle;
  words = two_clean;
  size = 200000;
  epoch = 1;
  block_size = 65536;
  page_count = 7;
  regions = 4;
  referenced = λ r. false;
  pins = λ r. 0;
  pinned_regions = 0;
  active = [];
  parts = first_part ∷ second_part ∷ [];
  part_states = verified ∷ retrying ∷ [];
  manifest = available;
  next_claim_id = 1;
  clock_hand = 0;
  checksum_ops = 0;
  eviction_disabled = false;
  detached = false;
  stale = false;
  dirty_fd = false;
  wait_fd = false;
  waiters = 0;
  signals = [];
  punched = [];
}

-- Page 1 shares the word of page 2.
page_state-set_page_state_example :
    page_state (set_page_state two_clean 2 bad) 1 ≡ (if 2 == 1 then bad else page_state two_clean 1)
page_state-set_page_state_example = page_state-set_page_state two_clean 2 1 bad

range_all_state_iff_example :
    (range_all_state two_clean 100 65000 clean ≡ true)
    ↔ AllState two_clean (100 / page_size) ((100 + 65000 - 1) / page_size + 1) clean
range_all_state_iff_example =
    range_all_state_iff two_clean 100 65000 clean (omega arith) (omega arith)

checksum_blocked_run : checksum_blocked sample 99999 2 ≡ retrying
unfolding checksum_blocked ngs3fs.Cache.Parts.blocked_from ngs3fs.Cache.Parts.lower_bound
    ngs3fs.Cache.Parts.blocked_loop ngs3fs.Cache.Parts.blocked_step ngs3fs.Cache.Parts.remember
checksum_blocked_run = refl

checksum_blocked-eq-scan_example :
    checksum_blocked sample 99999 2
    ≡ scan 0 (first_part ∷ second_part ∷ []) (verified ∷ retrying ∷ []) 99999 100001
checksum_blocked-eq-scan_example =
    checksum_blocked-eq-scan sample 99999 2 (omega arith) (omega arith)

sample-IsBalanced : IsBalanced sample
unfolding sum_pins
sample-IsBalanced = record { counted = refl; few = omega arith; bounded = λ r. omega arith }

sample_range : InEntry sample 70000 100000
sample_range = record { block_pos = omega arith; starts = omega arith; ends = omega arith }

pin-IsBalanced_example :
    IsBalanced (after (pin sample 70000 100000))
    × IsBalanced (after (pin_clean sample 70000 100000))
    × IsBalanced (unpin sample 70000 100000)
pin-IsBalanced_example = pin-IsBalanced 70000 100000 sample_range sample-IsBalanced

pinned : Entry
pinned = add_pins sample 1 3

pin_run : pin sample 70000 100000 ≡ done tt pinned
unfolding pin any_full pinned
pin_run = refl

unpin-pin_example :
    ((unpin pinned 70000 100000).pins ≡ sample.pins)
    × ((unpin pinned 70000 100000).pinned_regions ≡ 0)
unpin-pin_example = unpin-pin 70000 100000 sample_range sample-IsBalanced pin_run

abbrev limits : Limits
limits = record {
  maximum_bytes = 1000;
  reserve_bytes = 0;
  reserve_percent = 5;
  reserve_is_percent = true;
  unlimited = false;
}

abbrev disk : Statvfs
disk = record { frsize = 10; bsize = 10; blocks = 1000; bavail = 100 }

abbrev account : Account
account = record { allocated = 300; pending = 100 }

try_reserve_outcome_example :
    Reserved limits disk account 400 (try_reserve_capacity limits disk account 400)
try_reserve_outcome_example = try_reserve_outcome limits disk account 400 refl

reserve_run : (try_reserve_capacity limits disk account 400).0 ≡ true
unfolding try_reserve_capacity within_maximum within_free available_bytes reserve_floor unit_bytes
reserve_run = refl

cancel-try_reserve_example :
    cancel_reservation (try_reserve_capacity limits disk account 400).1 400 ≡ account
cancel-try_reserve_example = cancel-try_reserve limits disk account 400 refl reserve_run

sample-Geometry : Geometry sample
sample-Geometry = record {
  block_pos = omega arith;
  block_pages = refl;
  block_max = omega arith;
  size_max = omega arith;
  pages = refl;
}

-- Page 1 is clean, so the claim begins with page 2.
abbrev some_claim : FetchClaim
some_claim = record { offset = 65536; epoch = 1; id = 1; length = 131072 }

claim_run :
    claim_fetch sample 60000 100000 0 ≡ done some_claim (after (claim_fetch sample 60000 100000 0))
unfolding claim_fetch first_missing seek_step claim_missing claim_from wanted_end round_to_block
    cut_end stops_at scan_block scan_pages is_busy make_claim claim_pages take_id block_first_page
    block_last_page page_state ngs3fs.Cache.Bitmap.from_bits ngs3fs.Cache.Bitmap.same_state
claim_run = refl

claim_fetch-Claimed_example :
    ((some_claim ≡ no_claim) × (after (claim_fetch sample 60000 100000 0) ≡ sample))
    ⊎ Claimed sample 60000 160000 some_claim (after (claim_fetch sample 60000 100000 0))
claim_fetch-Claimed_example =
    claim_fetch-Claimed sample 60000 100000 0 some_claim _ sample-Geometry (omega arith) claim_run

sample-IsExclusive : IsExclusive sample
sample-IsExclusive = record { disjoint = tt; busy = tt }

abbrev punch : Punch
punch = record {
  stat_before = true;
  punches = true;
  stat_after = true;
  blocks_before = 256;
  blocks_after = 128;
}

sample-IsSound : IsSound sample
sample-IsSound = record {
  geometry = sample-Geometry;
  covered = refl;
  downloads = tt;
  exclusive = sample-IsExclusive;
}

-- Pages 2 to 5 are downloading, then published up to page 4.
once : Entry
once = after (claim_fetch sample 60000 100000 0)

half : Entry
half = publish_clean once some_claim 65536 131072 false

sample-Reach : Reach sample (
    rollback_fetch
      (after (claim_fetch (evict_one_region false half punch).1 0 200000 0))
      some_claim)
unfolding half once
sample-Reach =
    next
      (next
        (next
          (next (next here (claim 60000 100000 0 (omega arith)))
            (publish some_claim 65536 131072 false))
          (evict false punch))
        (claim 0 200000 0 (omega arith)))
      (rollback some_claim)

Reach-Downloads_example : IsSound (
    rollback_fetch
      (after (claim_fetch (evict_one_region false half punch).1 0 200000 0))
      some_claim)
Reach-Downloads_example = Reach-Downloads sample-IsSound sample-Reach

evict_one_region-SafeEviction_example :
    SafeEviction sample (evict_one_region false sample punch).1.words
evict_one_region-SafeEviction_example =
    evict_one_region-SafeEviction false sample punch sample-Geometry refl

-- A file name with a control byte, and another.
abbrev tab : Text
tab = b'a' ∷ 0x09 ∷ []

abbrev no_hash : Text → Text
no_hash t = []

tab-IsBytes : IsBytes tab
tab-IsBytes = (omega arith, (omega arith, tt))

abbrev tab_name : Text
tab_name = escape_prefix ++ b'b' ∷ b'Y' ∷ b'Q' ∷ b'k' ∷ []

tab_run : encode_component no_hash tab 255 ≡ some tab_name
unfolding encode_component needs_escape is_dot_name has_prefix has_control cache_base64url
    base64_digit ngs3fs.S3.Text.same_text ngs3fs.S3.Text.strip_prefix
tab_run = refl

read_base64-cache_base64url_example : read_base64 (cache_base64url tab) ≡ tab
read_base64-cache_base64url_example = read_base64-cache_base64url tab tab-IsBytes

encode_component-distinct_example : (tab ≡ tab) ⊎ (no_hash tab ≡ no_hash tab)
encode_component-distinct_example =
    encode_component-distinct no_hash tab tab tab_name 255 tab-IsBytes tab-IsBytes tt tt tab_run
      tab_run
