-- ===== src/Cache/Bitmap.antt =====
-- The page-state bitmap of a cache entry (src/cache.cpp, `page_state` to `range_all_state`): two
-- bits for each page of 32 KiB, 32 pages to a 64-bit word, in the metadata mapping behind the
-- header. The mapping is a memory of words, as a function from the word's index. The words are
-- atomics: a compare-exchange that fails is retried with the value it read, so the loop of
-- `set_page_state` is one update of the word.
pub mod Field
pub mod Update
pub mod Mask
pub mod Range
use Prim.Native.Nat.{bit_and, bit_or}
use ngs3fs.Prelude.{
  ℕ, zero, suc, ◌+◌, ◌-◌, ◌*◌, ◌/◌, ◌%◌, ◌^◌, min, Bool, true, false, ◌||◌, ltb, ◌==◌,
  if◌then◌else◌, word, add64, sub64,
}

-- `CachePageState`
pub data PageState : Type 0 where
  missing read_pending clean bad : PageState

-- The two bits of a state, `uint64_t(state)`.
unfoldable pub bits : PageState → ℕ
bits missing = 0b00
bits read_pending = 0b01
bits clean = 0b10
bits bad = 0b11

-- `CachePageState(value)`, of a value below 4.
unfoldable pub from_bits : ℕ → PageState
from_bits zero = missing
from_bits (suc zero) = read_pending
from_bits (suc (suc zero)) = clean
from_bits (suc (suc (suc n))) = bad

-- `state == other` on the enumeration.
unfoldable pub same_state : PageState → PageState → Bool
same_state missing missing = true
same_state read_pending read_pending = true
same_state clean clean = true
same_state bad bad = true
same_state _ _ = false

-- `kCacheBitmapUnit`, the `page_size_` of every entry.
abbrev pub page_size : ℕ
page_size = 32 * 1024

abbrev pub Words : Type 0
Words = ℕ → ℕ

-- `words[i] = v`
unfoldable pub store_word : Words → ℕ → ℕ → Words
store_word words i v j = if i == j then v else words j

-- `x >> k` and `x << k` on 64-bit words, and `~x`.
abbrev pub shr : ℕ → ℕ → ℕ
shr x k = x / 2 ^ k

abbrev pub shl : ℕ → ℕ → ℕ
shl x k = x * 2 ^ k % word

abbrev pub not64 : ℕ → ℕ
not64 x = word - 1 - x

-- The word with the two bits at `shift` replaced.
unfoldable pub put_bits : ℕ → ℕ → ℕ → ℕ
put_bits current shift state = bit_or (bit_and current (not64 (shl 3 shift))) (shl state shift)

unfoldable pub page_state : Words → ℕ → PageState
page_state words page = from_bits (bit_and (shr (words (page / 32)) (page % 32 * 2)) 3)

unfoldable pub set_page_state : Words → ℕ → PageState → Words
set_page_state words page state =
    store_word words (page / 32) (put_bits (words (page / 32)) (page % 32 * 2) (bits state))

-- `for (page = first; page < first + n; ++page) if (page_state(page) == state) return true;`
unfoldable pub any_state : Words → ℕ → ℕ → PageState → Bool
any_state words page zero state = false
any_state words page (suc n) state =
    same_state (page_state words page) state || any_state words (page + 1) n state

-- The page of the first byte of a range, and that of its last one.
abbrev pub first_page : ℕ → ℕ
first_page offset = offset / page_size

abbrev pub last_page : ℕ → ℕ → ℕ
last_page offset length = sub64 (add64 offset length) 1 / page_size

unfoldable pub range_has_state : Words → ℕ → ℕ → PageState → Bool
range_has_state words offset length state =
    if length == 0
    then false
    else any_state words (first_page offset) (last_page offset length + 1 - first_page offset) state

-- `uint64_t(state) * 0x5555555555555555ULL`
unfoldable pub pattern_of : PageState → ℕ
pattern_of state = bits state * 0x5555555555555555

-- The bits of `count` pages from the page at `bit / 2` on.
unfoldable pub field_mask : ℕ → ℕ → ℕ
field_mask bit count = shl (shr (word - 1) ((32 - count) * 2)) bit

unfoldable pub same_field : ℕ → ℕ → ℕ → Bool
same_field value pattern mask = bit_and value mask == bit_and pattern mask

-- The loop of `range_all_state`, a word at a time; at most `last - page` rounds.
unfoldable pub all_state_loop : ℕ → Words → ℕ → ℕ → PageState → Bool
all_state_loop zero words page last state = false
all_state_loop (suc fuel) words page last state =
    let count = min (32 - page % 32) (last - page) in
    let rest = all_state_loop fuel words (page + count) last state in
    if ltb page last
    then (if same_field (words (page / 32)) (pattern_of state) (field_mask (page % 32 * 2) count)
        then rest
        else false)
    else true

unfoldable pub range_all_state : Words → ℕ → ℕ → PageState → Bool
range_all_state words offset length state =
    if length == 0
    then true
    else let first = first_page offset in
      let last = last_page offset length + 1 in
      all_state_loop (last - first + 1) words first last state
