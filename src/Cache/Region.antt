-- ===== src/Cache/Region.antt =====
-- The loops of src/cache.cpp over the eviction regions of an entry: `region_pins_` counts the
-- users of each region, and `pinned_regions_` is to be their sum.
pub mod Sum
use ngs3fs.Prelude.{
  ℕ, zero, suc, ◌+◌, ◌-◌, ◌%◌, ◌^◌, ◌≤◌, ◌<◌, Bool, true, false, ◌||◌, ◌≡◌, ◌==◌, if◌then◌else◌,
  word, sub64,
}
use ngs3fs.Cache.Entry.{update}

-- UINT32_MAX, the greatest pin count.
abbrev pub max_pins : ℕ
max_pins = 2 ^ 32 - 1

-- `for (region = first; ...; ++region) if (region_pins_[region] == UINT32_MAX) throw ...`
unfoldable pub any_full : (ℕ → ℕ) → ℕ → ℕ → Bool
any_full pins region zero = false
any_full pins region (suc n) = pins region == max_pins || any_full pins (region + 1) n

-- `++region_pins_[region]` for `n` regions; the count has 32 bits.
unfoldable pub pin_loop : (ℕ → ℕ) → ℕ → ℕ → ℕ → ℕ
pin_loop pins region zero = pins
pin_loop pins region (suc n) =
    pin_loop (update pins region ((pins region + 1) % 2 ^ 32)) (region + 1) n

-- What the loops that drop pins change: the counts, their sum, and whether a pin was dropped.
pub record Unpinned : Type 0 where
  pub pins : ℕ → ℕ
  pub pinned : ℕ
  pub released : Bool

unfoldable pub unpin_one : Unpinned → ℕ → Unpinned
unpin_one u region = if u.pins region == 0 then u else record {
  pins = update u.pins region (u.pins region - 1);
  pinned = sub64 u.pinned 1;
  released = true;
}

-- `if (region_pins_[region] != 0) { --region_pins_[region]; --pinned_regions_; }`, `n` times.
unfoldable pub unpin_loop : Unpinned → ℕ → ℕ → Unpinned
unpin_loop u region zero = u
unpin_loop u region (suc n) = unpin_loop (unpin_one u region) (region + 1) n

-- `referenced_[region] = 1` for `n` regions.
unfoldable pub reference_loop : (ℕ → Bool) → ℕ → ℕ → ℕ → Bool
reference_loop referenced region zero = referenced
reference_loop referenced region (suc n) =
    reference_loop (update referenced region true) (region + 1) n

-- The sum of the first `n` counts.
unfoldable pub sum_pins : (ℕ → ℕ) → ℕ → ℕ
sum_pins pins zero = 0
sum_pins pins (suc n) = sum_pins pins n + pins n

-- `pinned` is the sum of the counts of `regions` regions, each of 32 bits. At 2 ^ 32 regions (an
-- object of 128 TiB in blocks of 32 KiB) the sum still fits 64 bits.
pub record Counted (pins : ℕ → ℕ) (regions pinned : ℕ) : Type 0 where
  pub counted : pinned ≡ sum_pins pins regions
  pub few : regions ≤ 2 ^ 32
  pub bounded : (r : ℕ) → pins r ≤ max_pins
