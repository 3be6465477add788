-- ===== src/Fuse/SharedMutex.antt =====
-- The lock that reactors and threads share (src/fuse.cpp, `ReactorSharedMutex`): one atomic access
-- for each function.
pub mod Exclusive
mod Tests
use ngs3fs.Prelude.{
  ℕ, ◌+◌, ◌-◌, ◌*◌, ◌/◌, ◌%◌, ◌^◌, Bool, true, false, ◌||◌, ◌==◌, not, if◌then◌else◌, Option, none,
  some,
}

-- The atomic members, of 32 bits each.
pub record Mutex : Type 0 where
  pub state : ℕ
  pub wake_generation : ℕ
  pub waiting_writers : ℕ
  pub reactor_waiters : ℕ

-- The range of the members.
abbrev pub word32 : ℕ
word32 = 4294967296

-- `kWriter`
abbrev pub writer_bit : ℕ
writer_bit = 2147483648

-- `kReaders`
abbrev pub all_readers : ℕ
all_readers = writer_bit - 1

-- `state & kWriter` is not 0.
unfoldable pub has_writer : ℕ → Bool
has_writer state = not (state / writer_bit % 2 == 0)

-- `state & kReaders`
unfoldable pub readers_of : ℕ → ℕ
readers_of state = state % writer_bit

abbrev pub increment : ℕ → ℕ
increment n = (n + 1) % word32

abbrev pub decrement : ℕ → ℕ
decrement n = (n + word32 - 1) % word32

-- `compare_exchange` of `state_`. `none`: it has another value than expected.
unfoldable pub exchange : Mutex → ℕ → ℕ → Option Mutex
exchange m expected desired =
    if m.state == expected then some (record m { state = desired }) else none

-- `try_lock`, and the exchange of `lock`.
unfoldable pub try_lock : Mutex → Option Mutex
try_lock m = exchange m 0 writer_bit

unfoldable pub announce_writer : Mutex → Mutex
announce_writer m = record m { waiting_writers = increment m.waiting_writers }

unfoldable pub withdraw_writer : Mutex → Mutex
withdraw_writer m = record m { waiting_writers = decrement m.waiting_writers }

-- The store of `unlock`, which then notifies.
unfoldable pub unlock : Mutex → Mutex
unlock m = record m { state = 0 }

-- `notify`: the mutex, and the value that is written to the event where it is not 0.
unfoldable pub notify : Mutex → ℕ × Mutex
notify m = (m.reactor_waiters, record m { wake_generation = increment m.wake_generation })

-- The first test of `try_lock_shared`.
unfoldable pub yields_to_writer : Mutex → Bool
yields_to_writer m = not (m.waiting_writers == 0)

-- The test of its loop, of the state that was read.
unfoldable pub refuses_reader : ℕ → Bool
refuses_reader state = has_writer state || readers_of state == all_readers

-- A round of the loop, which read this state before. `none`: it returns false or goes on.
unfoldable pub share : Mutex → ℕ → Option Mutex
share m observed =
    if refuses_reader observed then none else exchange m observed (increment observed)

-- `unlock_shared`: whether it notifies, and the mutex. `none`: it aborts.
unfoldable pub unlock_shared : Mutex → Option (Bool × Mutex)
unlock_shared m =
    if readers_of m.state == 0 || has_writer m.state
    then none
    else some (m.state == 1, record m { state = decrement m.state })

unfoldable pub begin_async_wait : Mutex → Mutex
begin_async_wait m = record m { reactor_waiters = increment m.reactor_waiters }

unfoldable pub end_async_wait : Mutex → Mutex
end_async_wait m = record m { reactor_waiters = decrement m.reactor_waiters }
