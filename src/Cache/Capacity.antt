-- ===== src/Cache/Capacity.antt =====
-- The space that the cache may take (src/cache.cpp, `add_allocated` to `finish_reservation`). The
-- file system's numbers, `fstatvfs`, are an argument.
pub mod Reserve
use ngs3fs.Prelude.{
  ℕ, zero, suc, ◌+◌, ◌-◌, ◌*◌, ◌/◌, ◌%◌, ◌^◌, min, Bool, true, false, ◌||◌, ◌&&◌, ltb, leb, ◌==◌,
  not, if◌then◌else◌, word,
}

-- The fields of `CacheConfig` that bound the cache.
pub record Limits : Type 0 where
  pub maximum_bytes : ℕ
  pub reserve_bytes : ℕ
  pub reserve_percent : ℕ
  pub reserve_is_percent : Bool
  pub unlimited : Bool

-- `struct statvfs`
pub record Statvfs : Type 0 where
  pub frsize : ℕ
  pub bsize : ℕ
  pub blocks : ℕ
  pub bavail : ℕ

-- `header.allocated_bytes` and `pending_reservations_`
pub record Account : Type 0 where
  pub allocated : ℕ
  pub pending : ℕ

-- INT64_MAX
abbrev pub max_delta : ℕ
max_delta = 2 ^ 63 - 1

-- `add_allocated(delta)` of a positive delta and of a negative one: both saturate.
unfoldable pub add_allocated : ℕ → ℕ → ℕ
add_allocated current increase =
    if ltb (word - 1 - increase) current then word - 1 else current + increase

unfoldable pub remove_allocated : ℕ → ℕ → ℕ
remove_allocated current decrease = if ltb decrease current then current - decrease else 0

unfoldable pub unit_bytes : Statvfs → ℕ
unit_bytes fs = if fs.frsize == 0 then fs.bsize else fs.frsize

-- `reserve_floor_bytes`; the product has 128 bits, and the result is cut to 64.
unfoldable pub reserve_floor : Limits → Statvfs → ℕ
reserve_floor l fs =
    if not l.reserve_is_percent
    then l.reserve_bytes
    else fs.blocks * unit_bytes fs % 2 ^ 128 * l.reserve_percent % 2 ^ 128 / 100 % word

unfoldable pub available_bytes : Statvfs → ℕ
available_bytes fs = min (word - 1) (fs.bavail * unit_bytes fs % 2 ^ 128)

-- `maximum_ok`
unfoldable pub within_maximum : Limits → Account → ℕ → Bool
within_maximum l a bytes =
    l.maximum_bytes == 0
    || (leb a.allocated l.maximum_bytes
        && (leb a.pending (l.maximum_bytes - a.allocated)
            && leb bytes (l.maximum_bytes - a.allocated - a.pending)))

-- `free_ok`
unfoldable pub within_free : Limits → Statvfs → Account → ℕ → Bool
within_free l fs a bytes =
    let available = available_bytes fs in
    let floor = reserve_floor l fs in
    leb floor available
    && (leb a.pending (available - floor) && leb bytes (available - floor - a.pending))

unfoldable pub try_reserve_capacity : Limits → Statvfs → Account → ℕ → Bool × Account
try_reserve_capacity l fs a bytes =
    if l.unlimited
    then (
      true,
      record a {
        pending = if ltb (word - 1 - bytes) a.pending then word - 1 else a.pending + bytes;
      },
    )
    else if not (within_maximum l a bytes) || not (within_free l fs a bytes)
    then (false, a)
    else (true, record a { pending = (a.pending + bytes) % word })

unfoldable pub cancel_reservation : Account → ℕ → Account
cancel_reservation a bytes = record a {
  pending = if ltb bytes a.pending then a.pending - bytes else 0;
}

unfoldable pub finish_reservation : Account → ℕ → ℕ → Account
finish_reservation a reserved allocated = record {
  pending = if ltb reserved a.pending then a.pending - reserved else 0;
  allocated = add_allocated a.allocated (min allocated max_delta);
}
