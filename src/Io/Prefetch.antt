-- ===== src/Io/Prefetch.antt =====
-- The budget of prefetch memory (src/io.cpp, `PrefetchBudget`): bytes are reserved for files, for
-- reads that wait for them (demand) or ahead of them (speculative), and given back.
pub mod Files
pub mod Ledger
pub mod Sound
pub mod Release
pub mod Reach
use ngs3fs.Prelude.{
  ℕ, ◌+◌, ◌-◌, ◌*◌, ◌/◌, ◌%◌, ◌^◌, min, max, Bool, true, false, ◌||◌, ◌&&◌, ltb, leb, ◌==◌, not,
  if◌then◌else◌, List, [], ◌∷◌, Option, none, some, word, add64, sub64,
}

pub record Usage : Type 0 where
  pub speculative : ℕ
  pub demand : ℕ

abbrev pub unused : Usage
unused = record { speculative = 0; demand = 0 }

-- The members of `PrefetchBudget::State`; a waiter and an event are their numbers.
pub record Budget : Type 0 where
  pub event_waiters : ℕ
  pub files : List (ℕ × Usage)
  pub capacity : ℕ
  pub demand_reserve : ℕ
  pub page_size : ℕ
  pub used : Usage
  pub peak : ℕ
  pub file_peak : ℕ
  pub revision : ℕ
  pub stopped : Bool
  pub waiters : List ℕ

pub record Reservation : Type 0 where
  pub file : ℕ
  pub bytes : ℕ
  pub demand : Bool

-- `none`: the constructor throws.
unfoldable pub new_budget : ℕ → ℕ → ℕ → Option Budget
new_budget capacity reserve page =
    if page == 0
      || (reserve == 0
          || (ltb capacity reserve || (not (capacity % page == 0) || not (reserve % page == 0))))
    then none
    else some (record {
      event_waiters = 0;
      files = [];
      capacity = capacity;
      demand_reserve = reserve;
      page_size = page;
      used = unused;
      peak = 0;
      file_peak = 0;
      revision = 0;
      stopped = false;
      waiters = [];
    })

-- `files.find(file)`, and an unused entry where there is none.
unfoldable pub usage : List (ℕ × Usage) → ℕ → Usage
usage [] file = unused
usage ((f, u) ∷ rest) file = if f == file then u else usage rest file

-- A write to the entry of a file, which is made if there is none.
unfoldable pub put_usage : List (ℕ × Usage) → ℕ → Usage → List (ℕ × Usage)
put_usage [] file u = (file, u) ∷ []
put_usage ((f, v) ∷ rest) file u =
    if f == file then (f, u) ∷ rest else (f, v) ∷ put_usage rest file u

-- `files.erase(found)`; a file has one entry at most.
unfoldable pub erase_usage : List (ℕ × Usage) → ℕ → List (ℕ × Usage)
erase_usage [] file = []
erase_usage ((f, v) ∷ rest) file =
    if f == file then erase_usage rest file else (f, v) ∷ erase_usage rest file

-- `(demand ? u.demand : u.speculative) += bytes`, and the same with `-=`.
unfoldable pub charge : Bool → ℕ → Usage → Usage
charge true bytes u = record u { demand = add64 u.demand bytes }
charge false bytes u = record u { speculative = add64 u.speculative bytes }

unfoldable pub discharge : Bool → ℕ → Usage → Usage
discharge true bytes u = record u { demand = sub64 u.demand bytes }
discharge false bytes u = record u { speculative = sub64 u.speculative bytes }

unfoldable pub both : Usage → ℕ
both u = add64 u.demand u.speculative

-- A reservation throws, gets nothing, or gets bytes.
pub data Attempt : Type 0 where
  invalid : Attempt
  refused : Attempt
  reserved : Reservation → Budget → Attempt

-- The counters after a reservation.
unfoldable pub commit_reserve : Budget → ℕ → ℕ → Bool → Attempt
commit_reserve s file bytes demand =
    let entry = charge demand bytes (usage s.files file) in
    let used = charge demand bytes s.used in
    reserved (record { file = file; bytes = bytes; demand = demand })
      (record s {
        files = put_usage s.files file entry;
        used = used;
        peak = max s.peak (both used);
        file_peak = max s.file_peak (both entry);
      })

-- The last test, on the bytes that are left.
unfoldable pub grant : Budget → ℕ → ℕ → ℕ → Bool → Attempt
grant s file bytes minimum demand =
    if ltb bytes minimum then refused else commit_reserve s file bytes demand

-- The bounds on speculation.
unfoldable pub reserve_speculative : Budget → ℕ → ℕ → ℕ → ℕ → Attempt
reserve_speculative s file limit bytes minimum =
    let cap = s.capacity - s.demand_reserve in
    let file_cap = limit - min limit s.demand_reserve in
    let u = usage s.files file in
    if ltb cap s.used.speculative || ltb file_cap u.speculative
    then refused
    else grant s file (min bytes (min (cap - s.used.speculative) (file_cap - u.speculative)))
        minimum false

unfoldable pub reserve_checked : Budget → ℕ → ℕ → ℕ → ℕ → Bool → Attempt
reserve_checked s file limit preferred minimum demand =
    let total = both (usage s.files file) in
    let global = both s.used in
    let bytes = min preferred (min (s.capacity - global) (limit - total)) in
    if s.stopped
    then refused
    else if ltb s.capacity global || ltb limit total
    then refused
    else if demand
    then grant s file bytes minimum true
    else reserve_speculative s file limit bytes minimum

unfoldable pub try_reserve : Budget → ℕ → ℕ → ℕ → ℕ → Bool → Attempt
try_reserve s file limit preferred minimum demand =
    if (minimum == 0 || ltb preferred minimum)
      || (limit == 0
          || (not (limit % s.page_size == 0)
              || (not (preferred % s.page_size == 0) || not (minimum % s.page_size == 0))))
    then invalid
    else reserve_checked s file limit preferred minimum demand

-- What is left of the reservation, and the part that is split off. `none`: the call throws.
unfoldable pub split : Budget → Reservation → ℕ → Option (Reservation × Reservation)
split s r bytes =
    if bytes == 0 || (ltb r.bytes bytes || not (bytes % s.page_size == 0))
    then none
    else some (record r { bytes = r.bytes - bytes }, record r { bytes = bytes })

unfoldable pub is_unused : Usage → Bool
is_unused u = u.demand == 0 && u.speculative == 0

-- `detach_waiters` and the end of the lock: the waiters that are called, and the state.
unfoldable pub detach_waiters : Budget → List ℕ × Budget
detach_waiters s = (s.waiters, record s { waiters = [] })

unfoldable pub reset : Budget → Reservation → List ℕ × Budget
reset s r =
    let entry = discharge r.demand r.bytes (usage s.files r.file) in
    if r.bytes == 0
    then ([], s)
    else detach_waiters (record s {
      files =
          if is_unused entry then erase_usage s.files r.file else put_usage s.files r.file entry;
      used = discharge r.demand r.bytes s.used;
      revision = add64 s.revision 1;
    })

-- Whether the waiter is linked. `subscribe` throws on a waiter that is linked already.
unfoldable pub subscribe : Budget → ℕ → ℕ → Bool × Budget
subscribe s waiter revision =
    if s.stopped || not (s.revision == revision)
    then (false, s)
    else (true, record s { waiters = waiter ∷ s.waiters })

unfoldable pub notify_reclaimable : Budget → List ℕ × Budget
notify_reclaimable s =
    if s.stopped then ([], s) else detach_waiters (record s { revision = add64 s.revision 1 })

unfoldable pub stop : Budget → List ℕ × Budget
stop s =
    if s.stopped
    then ([], s)
    else detach_waiters (record s { stopped = true; revision = add64 s.revision 1 })

-- The list without the waiter. A waiter is linked once at most.
unfoldable pub without : ℕ → List ℕ → List ℕ
without waiter [] = []
without waiter (w ∷ ws) = if w == waiter then ws else w ∷ without waiter ws

unfoldable pub is_linked : ℕ → List ℕ → Bool
is_linked waiter [] = false
is_linked waiter (w ∷ ws) = w == waiter || is_linked waiter ws

unfoldable pub unsubscribe : Budget → ℕ → Bool × Budget
unsubscribe s waiter = (is_linked waiter s.waiters, record s { waiters = without waiter s.waiters })

-- Whether the wait is counted; the descriptor of the event is the kernel's. `unsigned` has 32 bits.
unfoldable pub begin_async_wait : Budget → ℕ → Bool × Budget
begin_async_wait s revision =
    if s.stopped || not (s.revision == revision)
    then (false, s)
    else (true, record s { event_waiters = (s.event_waiters + 1) % 2 ^ 32 })

unfoldable pub end_async_wait : Budget → Budget
end_async_wait s = record s { event_waiters = (s.event_waiters + 2 ^ 32 - 1) % 2 ^ 32 }

-- The condition of `wait`, and its result.
unfoldable pub wait_over : Budget → ℕ → Bool
wait_over s revision = s.stopped || not (s.revision == revision)

unfoldable pub wait_result : Budget → Bool
wait_result s = not s.stopped

unfoldable pub file_used : Budget → ℕ → ℕ
file_used s file = both (usage s.files file)

-- The size, rounded down to pages. `none`: the call throws.
unfoldable pub default_capacity : ℕ → ℕ → Option ℕ
default_capacity physical_bytes page =
    let limit = physical_bytes / 10 in if page == 0 then none else some (limit - limit % page)

unfoldable pub round_up : ℕ → ℕ → ℕ
round_up page limit =
    let remainder = limit % page in add64 limit (if remainder == 0 then 0 else page - remainder)

unfoldable pub file_limit : ℕ → ℕ → ℕ → ℕ → Option ℕ
file_limit size window configured page =
    let maximum = word - 1 - (word - 1) % page in
    let adaptive = (if ltb (maximum / 2) window then maximum else window * 2) in
    let limit = (if not (configured == 0) then configured else min size adaptive) in
    if page == 0 || (window == 0 || (not (window % page == 0) || not (configured % page == 0)))
    then none
    else if ltb maximum limit
    then none
    else some (round_up page limit)
