-- ===== src/S3/Mtime.antt =====
-- The texts of modification times (src/s3.cpp, `parse_s3_mtime` and `parse_http_mtime`).
mod Tests
use mathlib.Core.Option
use ngs3fs.Prelude.{
  ℕ, zero, suc, ◌+◌, ◌-◌, Bool, true, ◌||◌, ◌&&◌, ltb, ◌==◌, not, if◌then◌else◌, List, [], ◌∷◌,
  Option, none, some, get_or, length, drop,
}
use ngs3fs.Prelude.Slices.{take}
use ngs3fs.Prelude.Int.{ℤ}
use ngs3fs.S3.Text.{Text, bytes, is_digit, same_text, last_byte, ◌>>=◌}
use ngs3fs.S3.Time.{fixed_decimal, utc_time}

-- The bytes where a time has no digits.
unfoldable pub is_s3_format : Text → Bool
is_s3_format s =
    not (ltb (length s) 20)
    && (get_or s 4 0 == b'-'
        && (get_or s 7 0 == b'-'
            && (get_or s 10 0 == b'T' && (get_or s 13 0 == b':' && get_or s 16 0 == b':'))))

-- `n` digits from position `i` on.
unfoldable pub digits_from : Text → ℕ → ℕ → Bool
digits_from s i zero = true
digits_from s i (suc n) = is_digit (get_or s i 0) && digits_from s (i + 1) n

-- What is behind the seconds: a fraction and a Z, or a Z.
unfoldable pub is_s3_zone : Text → Bool
is_s3_zone s =
    if get_or s 19 0 == b'.'
    then last_byte s == b'Z' && (not (length s == 21) && digits_from s 20 (length s - 21))
    else length s == 20 && get_or s 19 0 == b'Z'

unfoldable pub s3_fields : Text → Option ℤ
s3_fields s = do
  y ← fixed_decimal s 0 4
  m ← fixed_decimal s 5 2
  d ← fixed_decimal s 8 2
  h ← fixed_decimal s 11 2
  n ← fixed_decimal s 14 2
  z ← fixed_decimal s 17 2
  utc_time y m d h n z

unfoldable pub parse_s3_mtime : Text → Option ℤ
parse_s3_mtime s = if not (is_s3_format s) then none else if is_s3_zone s then s3_fields s else none

-- `substr(p, n)`
abbrev pub substr : Text → ℕ → ℕ → Text
substr s p n = take n (drop p s)

-- `std::find`: the position of the first text that is the same.
unfoldable pub find_text : List Text → Text → Option ℕ
find_text [] t = none
find_text (x ∷ xs) t = if same_text x t then some 0 else Option.map suc (find_text xs t)

abbrev pub weekdays : List Text
weekdays =
    bytes "Mon"
    ∷ bytes "Tue"
    ∷ bytes "Wed"
    ∷ bytes "Thu"
    ∷ bytes "Fri"
    ∷ bytes "Sat"
    ∷ bytes "Sun"
    ∷ []

abbrev pub months : List Text
months =
    bytes "Jan"
    ∷ bytes "Feb"
    ∷ bytes "Mar"
    ∷ bytes "Apr"
    ∷ bytes "May"
    ∷ bytes "Jun"
    ∷ bytes "Jul"
    ∷ bytes "Aug"
    ∷ bytes "Sep"
    ∷ bytes "Oct"
    ∷ bytes "Nov"
    ∷ bytes "Dec"
    ∷ []

unfoldable pub is_http_format : Text → Bool
is_http_format s =
    length s == 29
    && (get_or s 3 0 == b','
        && (get_or s 4 0 == b' '
            && (get_or s 7 0 == b' '
                && (get_or s 11 0 == b' '
                    && (get_or s 16 0 == b' '
                        && (get_or s 19 0 == b':'
                            && (get_or s 22 0 == b':'
                                && (get_or s 25 0 == b' '
                                    && same_text (drop 26 s) (bytes "GMT")))))))))

unfoldable pub http_fields : Text → ℕ → Option ℤ
http_fields s month = do
  y ← fixed_decimal s 12 4
  d ← fixed_decimal s 5 2
  h ← fixed_decimal s 17 2
  n ← fixed_decimal s 20 2
  z ← fixed_decimal s 23 2
  utc_time y (month + 1) d h n z

unfoldable pub parse_http_mtime : Text → Option ℤ
parse_http_mtime s = if not (is_http_format s) then none else (do
  weekday ← find_text weekdays (substr s 0 3)
  month ← find_text months (substr s 8 3)
  http_fields s month)
