-- ===== src/S3/Decimal.antt =====
-- `std::from_chars` on an unsigned 64-bit number, and `std::to_string`.
pub mod Numeral
pub mod Round
use ngs3fs.Prelude.{
  ℕ, zero, suc, ◌+◌, ◌-◌, ◌*◌, ◌/◌, ◌%◌, Bool, true, false, ◌&&◌, ltb, leb, if◌then◌else◌, [], ◌∷◌,
  ◌++◌, Option, none, some, word,
}
use ngs3fs.S3.Text.{Text}

abbrev pub in_base : ℕ → ℕ → Bool
in_base base c = leb b'0' c && ltb c (b'0' + base)

-- The value of the leading digits, in a base up to ten, and the text behind them.
unfoldable pub read_digits : ℕ → ℕ → Text → ℕ × Text
read_digits base acc [] = (acc, [])
read_digits base acc (c ∷ cs) =
    let more = read_digits base (acc * base + (c - b'0')) cs in
    if in_base base c then more else (acc, c ∷ cs)

unfoldable pub starts_with_digit : ℕ → Text → Bool
starts_with_digit base [] = false
starts_with_digit base (c ∷ cs) = in_base base c

-- The value and the text from `ptr` on. `none`: no digit, or a value that does not fit.
unfoldable pub from_chars : ℕ → Text → Option (ℕ × Text)
from_chars base text =
    if starts_with_digit base text
    then (if ltb (read_digits base 0 text).0 word then some (read_digits base 0 text) else none)
    else none

-- The value, if `ptr` is the end of the text.
unfoldable pub at_end : Option (ℕ × Text) → Option ℕ
at_end none = none
at_end (some (value, [])) = some value
at_end (some (value, c ∷ cs)) = none

-- `parse_unsigned`, and `parse` in `s3_content_range_matches`, which refuses an empty text first.
unfoldable pub parse_unsigned : Text → Option ℕ
parse_unsigned text = at_end (from_chars 10 text)

-- A digit for each round; a number has no more digits than its value and one.
unfoldable pub print_digits : ℕ → ℕ → Text
print_digits zero n = []
print_digits (suc fuel) n =
    let more = print_digits fuel (n / 10) ++ (b'0' + n % 10) ∷ [] in
    if ltb n 10 then (b'0' + n) ∷ [] else more

-- `std::to_string(n)`
unfoldable pub decimal : ℕ → Text
decimal n = print_digits (suc n) n
