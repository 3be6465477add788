-- ===== src/Fuse/Budget.antt =====
-- The budget of pinned memory that the writers share (src/fuse.cpp, `reserve_part_budget`,
-- `release_part_budget`): a part of memory each, by tickets where the budget is used up.
pub mod System
pub mod Fair
pub mod Live
use ngs3fs.Prelude.{
  ℕ, ◌+◌, ◌-◌, ◌*◌, ◌^◌, ◌%◌, Bool, true, false, ◌||◌, ◌&&◌, ltb, leb, ◌==◌, not, if◌then◌else◌,
  word, add64, sub64,
}

-- The members of `State` and the two of its configuration that the functions use.
pub record Budget : Type 0 where
  pub max_pinned_memory : ℕ
  pub part_size : ℕ
  pub pinned_bytes : ℕ
  pub waiting_writers : ℕ
  pub budget_exhausted : Bool
  pub next_budget_ticket : ℕ
  pub serving_budget_ticket : ℕ

-- `unsigned` has 32 bits.
abbrev pub unsigned_word : ℕ
unsigned_word = 2 ^ 32

unfoldable pub available : Budget → Bool
available state = leb state.pinned_bytes (sub64 state.max_pinned_memory state.part_size)

-- `state.pinned_bytes += state.config.part_size`
unfoldable pub take_part : Budget → Budget
take_part state = record state { pinned_bytes = add64 state.pinned_bytes state.part_size }

-- How the call goes on behind its first test: it returns true or false, or waits with a ticket.
pub data Entered : Type 0 where
  reserved refused : Entered
  ticket : ℕ → Entered

-- `reserve_part_budget`, up to the wait.
unfoldable pub enter : Budget → Bool → Entered × Budget
enter state wait =
    let warned : Budget = record state { budget_exhausted = true } in
    if not (available state) || not (state.waiting_writers == 0)
    then (if not wait then (refused, warned) else (
      ticket state.next_budget_ticket,
      record warned {
        next_budget_ticket = add64 state.next_budget_ticket 1;
        waiting_writers = (state.waiting_writers + 1) % unsigned_word;
      },
    ))
    else (reserved, take_part state)

-- The condition of the wait.
unfoldable pub can_resume : Budget → ℕ → Bool
can_resume state n = n == state.serving_budget_ticket && available state

-- `reserve_part_budget`, from the wait on.
unfoldable pub resume : Budget → Budget
resume state = take_part (record state {
  waiting_writers = (state.waiting_writers + unsigned_word - 1) % unsigned_word;
  serving_budget_ticket = add64 state.serving_budget_ticket 1;
})

unfoldable pub recovered : Budget → Budget
recovered state =
    if state.budget_exhausted && available state
    then record state { budget_exhausted = false }
    else state

unfoldable pub release_part_budget : Budget → Budget
release_part_budget state =
    if ltb state.pinned_bytes state.part_size
    then recovered (record state { pinned_bytes = 0 })
    else recovered (record state { pinned_bytes = sub64 state.pinned_bytes state.part_size })
