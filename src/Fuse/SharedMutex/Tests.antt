-- ===== src/Fuse/SharedMutex/Tests.antt =====
-- The theorems of the shared lock at a concrete run.
use ngs3fs.Prelude.{ℕ, ◌≡◌, refl, false, some}
use ngs3fs.Fuse.SharedMutex.{Mutex, share, unlock_shared, try_lock}
use ngs3fs.Fuse.SharedMutex.Exclusive.{
  system, Reach, start, next, lock_shared, IsExclusive, Reach-IsExclusive, unlock_shared_runs,
}

abbrev mutex : ℕ → Mutex
mutex state = record {
  state = state;
  wake_generation = 0;
  waiting_writers = 0;
  reactor_waiters = 0;
}

first_reader : share (mutex 0) 0 ≡ some (mutex 1)
unfolding share ngs3fs.Fuse.SharedMutex.refuses_reader ngs3fs.Fuse.SharedMutex.exchange
    ngs3fs.Fuse.SharedMutex.has_writer ngs3fs.Fuse.SharedMutex.readers_of
first_reader = refl

second_reader : share (mutex 1) 1 ≡ some (mutex 2)
unfolding share ngs3fs.Fuse.SharedMutex.refuses_reader ngs3fs.Fuse.SharedMutex.exchange
    ngs3fs.Fuse.SharedMutex.has_writer ngs3fs.Fuse.SharedMutex.readers_of
second_reader = refl

two_readers : Reach (system (mutex 2) 0 2)
two_readers = next (next start (lock_shared 0 first_reader)) (lock_shared 1 second_reader)

Reach-IsExclusive_example : IsExclusive 2 0 2
Reach-IsExclusive_example = Reach-IsExclusive (system (mutex 2) 0 2) two_readers

unlock_shared_runs_example : unlock_shared (mutex 2) ≡ some (false, mutex 1)
unlock_shared_runs_example = unlock_shared_runs (mutex 2) 0 1 two_readers
