-- ===== src/Credentials/Expiration.antt =====
-- The time when credentials expire (src/credentials.cpp, `leap_year` to `parse_expiration`).
pub mod Digits
pub mod Agree
use ngs3fs.Prelude.{
  ℕ, zero, suc, ◌+◌, ◌-◌, ◌*◌, ◌/◌, ◌%◌, Bool, ◌||◌, ◌&&◌, ltb, leb, ◌==◌, not, if◌then◌else◌, List,
  [], ◌∷◌, Option, none, some, get_or, length,
}
use ngs3fs.Prelude.Int.{ℤ, pos, negsuc, ◌+ℤ◌, scale}
use ngs3fs.S3.Text.{Text, is_digit, ◌>>=◌}
use ngs3fs.S3.Decimal.{parse_unsigned}
use ngs3fs.S3.Mtime.{substr}

unfoldable pub leap_year : ℕ → Bool
leap_year year = year % 4 == 0 && (not (year % 100 == 0) || year % 400 == 0)

-- `(year >= 0 ? year : year - 399) / 400`
unfoldable pub era_of : ℤ → ℤ
era_of (pos a) = pos (a / 400)
era_of (negsuc a) = negsuc ((suc a + 399) / 400 - 1)

-- `yoe`
unfoldable pub year_of_era : ℤ → ℕ
year_of_era (pos a) = a - a / 400 * 400
year_of_era (negsuc a) = (suc a + 399) / 400 * 400 - suc a

unfoldable pub days_from_civil : ℤ → ℕ → ℕ → ℤ
days_from_civil year month day =
    let year' = year +ℤ (if leb month 2 then negsuc 0 else pos 0) in
    let yoe = year_of_era year' in
    let shifted_month = (if ltb 2 month then month - 3 else month + 9) in
    let doy = (153 * shifted_month + 2) / 5 + day - 1 in
    let doe = yoe * 365 + yoe / 4 - yoe / 100 + doy in
    scale (era_of year') 146097 +ℤ pos doe +ℤ negsuc 719467

abbrev pub days_per_month : List ℕ
days_per_month = 0 ∷ 31 ∷ 28 ∷ 31 ∷ 30 ∷ 31 ∷ 30 ∷ 31 ∷ 31 ∷ 30 ∷ 31 ∷ 30 ∷ 31 ∷ []

-- The bytes where a time has no digits.
unfoldable pub is_expiration_format : Text → Bool
is_expiration_format s =
    not (ltb (length s) 20)
    && (get_or s 4 0 == b'-'
        && (get_or s 7 0 == b'-'
            && ((get_or s 10 0 == b'T' || get_or s 10 0 == b't')
                && (get_or s 13 0 == b':' && get_or s 16 0 == b':'))))

-- `number`: at most four digits, so the value fits as in `parse_unsigned`.
unfoldable pub number : Text → ℕ → ℕ → Option ℕ
number s begin length = parse_unsigned (substr s begin length)

unfoldable pub is_out : ℕ → ℕ → ℕ → ℕ → ℕ → ℕ → Bool
is_out year month day hour minute second =
    ltb year 1970
    || (month == 0
        || (ltb 12 month
            || (day == 0
                || (ltb
                      (get_or days_per_month month 0
                        + (if month == 2 && leap_year year then 1 else 0))
                      day
                    || (ltb 23 hour || (ltb 59 minute || ltb 60 second))))))

-- `while (end < s.size() && isdigit(s[end])) ++end;`
unfoldable pub skip_digits : ℕ → Text → ℕ → ℕ
skip_digits zero s end = end
skip_digits (suc fuel) s end =
    let rest = skip_digits fuel s (end + 1) in
    if ltb end (length s) && is_digit (get_or s end 0) then rest else end

-- Where the fraction ends.
unfoldable pub fraction_end : Text → Option ℕ
fraction_end s =
    if ltb 19 (length s) && get_or s 19 0 == b'.'
    then (let end = skip_digits (length s) s 20 in if end == 20 then none else some end)
    else some 19

unfoldable pub is_utc : Text → ℕ → Bool
is_utc s end = end + 1 == length s && (get_or s end 0 == b'Z' || get_or s end 0 == b'z')

unfoldable pub checked_time : Text → ℕ → ℕ → ℕ → ℕ → ℕ → ℕ → Option ℤ
checked_time s year month day hour minute second =
    if is_out year month day hour minute second then none else (do
      end ← fraction_end s
      (if is_utc s end
          then some (
              scale (days_from_civil (pos year) month day) 86400
              +ℤ pos (hour * 3600)
              +ℤ pos (minute * 60)
              +ℤ pos second)
          else none))

unfoldable pub expiration_fields : Text → Option ℤ
expiration_fields s = do
  year ← number s 0 4
  month ← number s 5 2
  day ← number s 8 2
  hour ← number s 11 2
  minute ← number s 14 2
  second ← number s 17 2
  checked_time s year month day hour minute second

unfoldable pub parse_expiration : Text → Option ℤ
parse_expiration s = if is_expiration_format s then expiration_fields s else none
