-- ===== src/Fuse/Window/Tests.antt =====
-- The bounds of the fetch window for a concrete read.
use ngs3fs.Prelude.{◌≤◌, max, true, false, arith}
use ngs3fs.Fuse.Window.{OpenHandle, cache_fetch_expansion, maximum_window}
use ngs3fs.Fuse.Window.Bounds.{IsWindow, cache_fetch_expansion-IsWindow}

-- A handle that was read up to 4 MiB, with a window of 8 MiB.
abbrev handle : OpenHandle
handle = record {
  cache_read_seen = true;
  cache_read_window = 8388608;
  cache_last_read_end = 4194304;
}

handle-IsWindow : IsWindow handle 1048576 67108864
unfolding maximum_window
handle-IsWindow = record { above = λ _. omega arith; below = λ _. omega arith }

cache_fetch_expansion-IsWindow_example :
    IsWindow (cache_fetch_expansion handle 1048576 67108864 false 4194304 131072).1 1048576 67108864
    × (131072 ≤ (cache_fetch_expansion handle 1048576 67108864 false 4194304 131072).0)
    × ((cache_fetch_expansion handle 1048576 67108864 false 4194304 131072).0
        ≤ max 131072 (maximum_window 1048576 67108864))
cache_fetch_expansion-IsWindow_example =
    cache_fetch_expansion-IsWindow handle 1048576 67108864 4194304 131072 false (omega arith)
      (omega arith) (omega arith) handle-IsWindow
