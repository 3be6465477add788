-- ===== src/Cache/Pins.antt =====
-- Pinning the regions of a range against eviction (src/cache.cpp, `pin_clean`, `pin`, `unpin`,
-- `touch`, `disable_eviction`).
pub mod Balance
pub mod Undo
use Prim.Native.Nat.{ℕ, ◌-◌, ◌/◌, min}
use ngs3fs.Prelude.{Bool, true, false, ◌||◌, not, ◌==◌, if◌then◌else◌, add64, sub64, zero}
use ngs3fs.Cache.Bitmap.{clean, range_all_state}
use ngs3fs.Cache.Entry.{
  Entry, Outcome, done, thrown, estale, overflow_error, end_region, notify_waiters, PartState,
  unverified, retrying, verifying, verified, part_bad,
}
use ngs3fs.Cache.Region.{any_full, pin_loop, Unpinned, unpin_loop, reference_loop}
use ngs3fs.Cache.Parts.{checksum_blocked}

-- The regions of a range, bounded by the regions of the entry: the first, and one behind the last.
abbrev pub first_region : Entry → ℕ → ℕ
first_region e offset = offset / e.block_size

abbrev pub last_region : Entry → ℕ → ℕ → ℕ
last_region e offset length = min e.regions (end_region e.block_size offset length)

-- The `for` loops run from `first` to `last`, and not at all if `last <= first`; the sum takes the
-- difference of the two as a `size_t`.
unfoldable pub add_pins : Entry → ℕ → ℕ → Entry
add_pins e first last = record e {
  pins = pin_loop e.pins first (last - first);
  pinned_regions = add64 e.pinned_regions (sub64 last first);
}

unfoldable pub drop_pins : Entry → ℕ → ℕ → Unpinned
drop_pins e first last =
    unpin_loop (record { pins = e.pins; pinned = e.pinned_regions; released = false }) first
      (last - first)

unfoldable pub store_pins : Entry → Unpinned → Entry
store_pins e u = record e { pins = u.pins; pinned_regions = u.pinned }

-- `checksum_blocked_locked(offset, length) != 0`
unfoldable pub is_blocked : PartState → Bool
is_blocked unverified = false
is_blocked retrying = true
is_blocked verifying = true
is_blocked verified = true
is_blocked part_bad = true

-- The range is not wholly clean, or a checksum part blocks it.
abbrev pub refused : Entry → ℕ → ℕ → Bool
refused e offset length =
    not (range_all_state e.words offset length clean)
    || is_blocked (checksum_blocked e offset length)

unfoldable pub pin_clean : Entry → ℕ → ℕ → Outcome Bool
pin_clean e offset length =
    if e.stale
    then done false e
    else if length == 0
    then done true e
    else if refused e offset length
    then done false e
    else let first = first_region e offset in
      let last = last_region e offset length in
      if any_full e.pins first (last - first)
      then thrown overflow_error e
      else done true (record (add_pins e first last) {
        referenced = reference_loop e.referenced first (last - first);
      })

unfoldable pub pin : Entry → ℕ → ℕ → Outcome (Unit {0})
pin e offset length =
    if e.stale
    then thrown estale e
    else if length == 0
    then done tt e
    else let first = first_region e offset in
      let last = last_region e offset length in
      if any_full e.pins first (last - first)
      then thrown overflow_error e
      else done tt (add_pins e first last)

unfoldable pub unpin : Entry → ℕ → ℕ → Entry
unpin e offset length =
    if length == 0
    then e
    else let u = drop_pins e (first_region e offset) (last_region e offset length) in
      if u.released then notify_waiters (store_pins e u) else store_pins e u

unfoldable pub touch : Entry → ℕ → ℕ → Entry
touch e offset length = if length == 0 || e.regions == 0 then e else record e {
  referenced =
      reference_loop e.referenced (first_region e offset)
        (last_region e offset length - first_region e offset);
}

unfoldable pub disable_eviction : Entry → Entry
disable_eviction e = record e { eviction_disabled = true }
