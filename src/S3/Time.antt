-- ===== src/S3/Time.antt =====
-- Modification times (src/s3.cpp, `fixed_decimal` to `parse_http_mtime`). `none` is an exception.
-- `time_t` is a signed number of 64 bits.
pub mod Days
pub mod Calendar
mod Tests
use ngs3fs.Prelude.{
  ℕ, zero, suc, ◌+◌, ◌-◌, ◌*◌, ◌/◌, ◌%◌, ◌^◌, Bool, true, false, ◌||◌, ◌&&◌, ltb, leb, ◌==◌, not,
  if◌then◌else◌, List, [], ◌∷◌, Option, none, some, get_or, length,
}
use ngs3fs.Prelude.Int.{ℤ, pos, negsuc, ◌+ℤ◌, scale}
use ngs3fs.S3.Text.{Text, bytes, is_digit, same_text, last_byte}

-- The loop over the `n` characters from position `p` on.
unfoldable pub decimal_loop : Text → ℕ → ℕ → ℕ → Option ℕ
decimal_loop s p zero value = some value
decimal_loop s p (suc n) value =
    let rest = decimal_loop s (p + 1) n (value * 10 + (get_or s p 0 - b'0')) in
    if is_digit (get_or s p 0) then rest else none

unfoldable pub fixed_decimal : Text → ℕ → ℕ → Option ℕ
fixed_decimal s p n = if ltb (length s) (p + n) then none else decimal_loop s p n 0

unfoldable pub leap_year : ℕ → Bool
leap_year y = y % 4 == 0 && (not (y % 100 == 0) || y % 400 == 0)

abbrev pub month_days : List ℕ
month_days = 31 ∷ 28 ∷ 31 ∷ 30 ∷ 31 ∷ 30 ∷ 31 ∷ 31 ∷ 30 ∷ 31 ∷ 30 ∷ 31 ∷ []

-- The days of a month of the year.
unfoldable pub days_in_month : ℕ → ℕ → ℕ
days_in_month y m = get_or month_days (m - 1) 0 + (if m == 2 && leap_year y then 1 else 0)

unfoldable pub out_of_range : ℕ → ℕ → ℕ → ℕ → ℕ → ℕ → Bool
out_of_range y m d h n z =
    m == 0
    || (ltb 12 m || (d == 0 || (ltb (days_in_month y m) d || (ltb 23 h || (ltb 59 n || ltb 59 z)))))

-- `(adjusted_year >= 0 ? adjusted_year : adjusted_year - 399) / 400`; a quotient of `int64_t` is
-- cut towards 0.
unfoldable pub era_of : ℤ → ℤ
era_of (pos a) = pos (a / 400)
era_of (negsuc a) = negsuc ((suc a + 399) / 400 - 1)

-- `unsigned(adjusted_year - era * 400)`
unfoldable pub year_of_era : ℤ → ℕ
year_of_era (pos a) = a - a / 400 * 400
year_of_era (negsuc a) = (suc a + 399) / 400 * 400 - suc a

unfoldable pub adjusted_month : ℕ → ℕ
adjusted_month m = if ltb 2 m then m - 3 else m + 9

-- `days`, of a year that may be negative.
unfoldable pub civil_days : ℤ → ℕ → ℕ → ℤ
civil_days year m d =
    let adjusted_year = year +ℤ (if leb m 2 then negsuc 0 else pos 0) in
    let year_of_era = year_of_era adjusted_year in
    let day_of_year = (153 * adjusted_month m + 2) / 5 + d - 1 in
    let day_of_era = year_of_era * 365 + year_of_era / 4 - year_of_era / 100 + day_of_year in
    scale (era_of adjusted_year) 146097 +ℤ pos day_of_era +ℤ negsuc 719467

-- The seconds are a `time_t`.
unfoldable pub fits_time : ℤ → Bool
fits_time (pos n) = ltb n (2 ^ 63)
fits_time (negsuc n) = ltb n (2 ^ 63)

unfoldable pub utc_time : ℕ → ℕ → ℕ → ℕ → ℕ → ℕ → Option ℤ
utc_time y m d h n z =
    if out_of_range y m d h n z
    then none
    else (let seconds = scale (civil_days (pos y) m d) 86400 +ℤ pos (h * 3600 + n * 60 + z) in
        if fits_time seconds then some seconds else none)
