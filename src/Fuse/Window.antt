-- ===== src/Fuse/Window.antt =====
-- How much is fetched into the cache for a read (src/fuse.cpp, `cache_fetch_expansion`).
pub mod Bounds
mod Tests
use ngs3fs.Prelude.{
  ℕ, ◌+◌, ◌-◌, ◌*◌, ◌/◌, ◌%◌, min, max, Bool, true, false, ◌==◌, not, if◌then◌else◌, add64, sub64,
}

-- The members of `OpenHandle` that the function uses.
pub record OpenHandle : Type 0 where
  pub cache_read_seen : Bool
  pub cache_read_window : ℕ
  pub cache_last_read_end : ℕ

unfoldable pub maximum_window : ℕ → ℕ → ℕ
maximum_window block limit = max block (limit / block * block)

unfoldable pub initial_window : ℕ → ℕ → ℕ
initial_window block limit =
    min (maximum_window block limit) (sub64 (add64 8388608 block) 1 / block * block)

-- The window, doubled up to the maximum.
unfoldable pub grown : ℕ → ℕ → ℕ
grown window maximum = add64 window (min window (sub64 maximum window))

-- `covered`: what `range_available_or_pending` says of the range.
unfoldable pub next_window : OpenHandle → ℕ → ℕ → Bool → ℕ → ℕ
next_window handle block limit covered offset =
    let maximum = maximum_window block limit in
    let initial = initial_window block limit in
    if not handle.cache_read_seen
    then (if offset == 0 then initial else block)
    else if covered
    then handle.cache_read_window
    else if offset == handle.cache_last_read_end
    then max initial (grown handle.cache_read_window maximum)
    else block

-- The bytes to fetch, and the handle.
unfoldable pub cache_fetch_expansion : OpenHandle → ℕ → ℕ → Bool → ℕ → ℕ → ℕ × OpenHandle
cache_fetch_expansion handle block limit covered offset wanted =
    let window = next_window handle block limit covered offset in
    (
      max wanted window,
      record {
        cache_read_seen = true;
        cache_read_window = window;
        cache_last_read_end = add64 offset wanted;
      },
    )
