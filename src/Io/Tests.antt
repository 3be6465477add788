-- ===== src/Io/Tests.antt =====
-- The theorem of the prefetch budget at a concrete run.
use ngs3fs.Prelude.{ℕ, ◌≡◌, refl, false, List, [], ◌∷◌, arith, some}
use ngs3fs.Io.Prefetch.{Usage, Budget, Reservation, new_budget, try_reserve, reserved, reset}
use ngs3fs.Io.Prefetch.Sound.{IsSound}
use ngs3fs.Io.Prefetch.Reach.{Reach, start, next, reserve, Reach-IsSound}

abbrev budget : List (ℕ × Usage) → ℕ → ℕ → ℕ → Budget
budget files ahead demand peak = record {
  event_waiters = 0;
  files = files;
  capacity = 16;
  demand_reserve = 4;
  page_size = 4;
  used = record { speculative = ahead; demand = demand };
  peak = peak;
  file_peak = peak;
  revision = 0;
  stopped = false;
  waiters = [];
}

-- Of 16 bytes that are asked for ahead, 8 are granted, below the limit of 12 and the reserve of 4.
abbrev ahead : Reservation
ahead = record { file = 7; bytes = 8; demand = false }

abbrev one_file : List (ℕ × Usage)
one_file = (7, record { speculative = 8; demand = 0 }) ∷ []

granted : try_reserve (budget [] 0 0 0) 7 12 16 4 false ≡ reserved ahead (budget one_file 8 0 8)
unfolding try_reserve ngs3fs.Io.Prefetch.reserve_checked ngs3fs.Io.Prefetch.reserve_speculative
    ngs3fs.Io.Prefetch.grant ngs3fs.Io.Prefetch.commit_reserve ngs3fs.Io.Prefetch.charge
    ngs3fs.Io.Prefetch.usage ngs3fs.Io.Prefetch.put_usage ngs3fs.Io.Prefetch.both
granted = refl

begun : new_budget 16 4 4 ≡ some (budget [] 0 0 0)
unfolding new_budget
begun = refl

reached : Reach (budget one_file 8 0 8) (ahead ∷ [])
reached = next (start 16 4 4 (omega arith) begun) (reserve ahead 7 12 16 4 false granted)

Reach-IsSound_example : IsSound (budget one_file 8 0 8) (ahead ∷ [])
Reach-IsSound_example = Reach-IsSound reached
