-- ===== src/S3/Time/Calendar.antt =====
-- The time of a date is the number of its days and seconds, counted from 1970.
use ngs3fs.Prelude.{
  ℕ, zero, suc, ◌+◌, ◌-◌, ◌*◌, ◌/◌, ◌^◌, ◌≤◌, ◌<◌, true, false, ltb, leb, if◌then◌else◌, ◌≡◌, refl,
  arith, ap, sym, ◌∙◌, get_or, inl, inr, Bool-cases, some, none,
}
use ngs3fs.Prelude.Int.{
  ℤ, pos, negsuc, ◌+ℤ◌, ◌⊖◌, scale, Is, Is-diff, Is-unique, Is-move, Is-add, Is-scale,
}
use ngs3fs.S3.Time.{
  month_days, days_in_month, out_of_range, era_of, year_of_era, adjusted_month, civil_days,
  fits_time, utc_time,
}
use ngs3fs.S3.Time.Days.{
  days_of_years, days_of_months, day_number, days_of_years_lem, months_from_march,
}

-- The days of an era of 400 years and of the years in it.
era_days :
    (a doy : ℕ)
    → a / 400 * 146097
        + ((a - a / 400 * 400) * 365 + (a - a / 400 * 400) / 4 - (a - a / 400 * 400) / 100 + doy)
        + a / 100
      ≡ 365 * a + a / 4 + a / 400 + doy
era_days a doy = omega arith

-- From March on, in a year that is not negative.
from_march :
    (a doy n : ℕ)
    → n + a / 100 ≡ 365 * a + a / 4 + a / 400 + doy + 60
    → Is
        (scale (era_of (pos a)) 146097
          +ℤ pos (
              year_of_era (pos a) * 365 + year_of_era (pos a) / 4 - year_of_era (pos a) / 100 + doy)
          +ℤ negsuc 719467)
        n
        719528
unfolding era_of year_of_era
from_march a doy n h =
    Is-move _ _ 719468 n 719528 (omega (arith, h, era_days a doy)) (Is-diff _ 719468)

march_count :
    (y m d : ℕ)
    → 2 < m
    → m ≤ 12
    → 1 ≤ d
    → day_number y m d + y / 100
      ≡ 365 * y + y / 4 + y / 400 + ((153 * (m - 3) + 2) / 5 + d - 1) + 60
unfolding day_number days_of_years
march_count y m d lo hi some_day =
    let same : m - 3 + 2 ≡ m - 1 = omega arith in
    let months = ap (days_of_months y) (sym same) ∙ months_from_march y (m - 3) (omega arith) in
    ground (arith, months, days_of_years_lem y)

march : (y m d : ℕ) → 2 < m → m ≤ 12 → 1 ≤ d → Is (civil_days (pos y) m d) (day_number y m d) 719528
unfolding civil_days adjusted_month
march y m d lo hi some_day =
    let month : (if ltb 2 m then m - 3 else m + 9) ≡ m - 3 = ground arith in
    let late : leb m 2 ≡ false = ground arith in
    let year : y + 0 ≡ y = omega arith in
    rw (late, month, year)
      (from_march y ((153 * (m - 3) + 2) / 5 + d - 1) (day_number y m d)
        (march_count y m d lo hi some_day))

january_count :
    (y m d : ℕ)
    → 0 < m
    → m ≤ 2
    → 1 ≤ d
    → day_number (suc y) m d + y / 100
      ≡ 365 * y + y / 4 + y / 400 + ((153 * (m + 9) + 2) / 5 + d - 1) + 60
unfolding day_number days_of_months days_in_month
january_count y zero d lo hi some_day = absurd (omega arith)
january_count y (suc zero) d lo hi some_day = omega (arith, days_of_years_lem y)
january_count y (suc (suc zero)) d lo hi some_day = omega (arith, days_of_years_lem y)
january_count y (suc (suc (suc m))) d lo hi some_day = absurd (omega arith)

-- What the year 0 has before its March belongs to the era before.
before_zero :
    (doe n : ℕ) → n + 146037 ≡ doe + 0 + 0 → Is ((0 ⊖ 146097) +ℤ pos doe +ℤ negsuc 719467) n 719528
before_zero doe n h =
    Is-move ((0 ⊖ 146097) +ℤ pos doe +ℤ negsuc 719467) (0 + doe + 0) (146097 + 0 + 719468) n 719528
      (omega (arith, h))
      (Is-add ((0 ⊖ 146097) +ℤ pos doe) (negsuc 719467) (0 + doe) (146097 + 0) 0 719468
        (Is-add (0 ⊖ 146097) (pos doe) 0 146097 doe 0 (Is-diff 0 146097) (omega arith)) refl)

year_zero :
    (m d : ℕ) → 0 < m → m ≤ 2 → 1 ≤ d → Is (civil_days (pos 0) m d) (day_number 0 m d) 719528
unfolding civil_days adjusted_month era_of year_of_era day_number days_of_years days_of_months
    days_in_month
year_zero zero d lo hi some_day = absurd (omega arith)
year_zero (suc zero) d lo hi some_day =
    before_zero (145731 + ((153 * 10 + 2) / 5 + d - 1)) (day_number 0 1 d) (omega arith)
year_zero (suc (suc zero)) d lo hi some_day =
    before_zero (145731 + ((153 * 11 + 2) / 5 + d - 1)) (day_number 0 2 d) (omega arith)
year_zero (suc (suc (suc m))) d lo hi some_day = absurd (omega arith)

-- January and February are of the year before.
january :
    (y m d : ℕ) → 0 < m → m ≤ 2 → 1 ≤ d → Is (civil_days (pos y) m d) (day_number y m d) 719528
unfolding civil_days adjusted_month
january zero m d lo hi some_day = year_zero m d lo hi some_day
january (suc y) m d lo hi some_day =
    let month : (if ltb 2 m then m - 3 else m + 9) ≡ m + 9 = ground arith in
    let early : leb m 2 ≡ true = ground arith in
    let year : (suc y ⊖ 1) ≡ pos y = ground arith in
    rw (early, month, year)
      (from_march y ((153 * (m + 9) + 2) / 5 + d - 1) (day_number (suc y) m d)
        (january_count y m d lo hi some_day))

civil_days_lem :
    (y m d : ℕ) → 0 < m → m ≤ 12 → 1 ≤ d → Is (civil_days (pos y) m d) (day_number y m d) 719528
civil_days_lem y m d lo hi some_day = elim (Bool-cases (leb m 2)) [
  | inl early ↦ january y m d lo (ground (arith, early)) some_day
  | inr late ↦ march y m d (ground (arith, late)) hi some_day
]

days_in_month_max : (y m : ℕ) → days_in_month y m ≤ 32
unfolding days_in_month
days_in_month_max y m = ground (arith, longest (m - 1))
  where
    longest : (i : ℕ) → get_or month_days i 0 ≤ 31
    longest zero = omega arith
    longest (suc zero) = omega arith
    longest (suc (suc zero)) = omega arith
    longest (suc (suc (suc zero))) = omega arith
    longest (suc (suc (suc (suc zero)))) = omega arith
    longest (suc (suc (suc (suc (suc zero))))) = omega arith
    longest (suc (suc (suc (suc (suc (suc zero)))))) = omega arith
    longest (suc (suc (suc (suc (suc (suc (suc zero))))))) = omega arith
    longest (suc (suc (suc (suc (suc (suc (suc (suc zero)))))))) = omega arith
    longest (suc (suc (suc (suc (suc (suc (suc (suc (suc zero))))))))) = omega arith
    longest (suc (suc (suc (suc (suc (suc (suc (suc (suc (suc zero)))))))))) = omega arith
    longest (suc (suc (suc (suc (suc (suc (suc (suc (suc (suc (suc zero))))))))))) = omega arith
    longest (suc (suc (suc (suc (suc (suc (suc (suc (suc (suc (suc (suc i)))))))))))) = omega arith

days_of_months_max : (y m : ℕ) → days_of_months y m ≤ 32 * m
unfolding days_of_months
days_of_months_max y zero = omega arith
days_of_months_max y (suc m) = omega (arith, days_of_months_max y m, days_in_month_max y (suc m))

days_of_years_max : (y : ℕ) → days_of_years y ≤ 366 * y
unfolding days_of_years
days_of_years_max zero = omega arith
days_of_years_max (suc y) = ground (arith, days_of_years_max y)

day_number_max : (y m d : ℕ) → m ≤ 12 → d ≤ days_in_month y m → day_number y m d ≤ 366 * y + 400
unfolding day_number
day_number_max y m d hi last =
    omega
      (arith, days_of_years_max y, days_of_months_max y (m - 1), days_in_month_max y m, hi, last)

-- A time is a `time_t` as long as the year fits 32 bits.
fits_time_lem :
    (t : ℤ) (days seconds : ℕ)
    → Is t (days * 86400 + seconds) 62167219200
    → days ≤ 2 ^ 42
    → seconds < 86400
    → fits_time t ≡ true
unfolding fits_time
fits_time_lem (pos n) days seconds h small part = ground (arith, h)
fits_time_lem (negsuc n) days seconds h small part = ground (arith, h)

-- The seconds of a date and a time of day, counted from 1970 by the years and months before it.
abbrev pub seconds_from_1970 : ℕ → ℕ → ℕ → ℕ → ℕ → ℕ → ℤ
seconds_from_1970 y m d h n z = (day_number y m d * 86400 + (h * 3600 + n * 60 + z)) ⊖ 62167219200

record Valid (y m d h n z : ℕ) : Type 0 where
  month_low : 0 < m
  month_high : m ≤ 12
  day_low : 1 ≤ d
  day_high : d ≤ days_in_month y m
  hour : h ≤ 23
  minute : n ≤ 59
  second : z ≤ 59

in_range : (y m d h n z : ℕ) → out_of_range y m d h n z ≡ false → Valid y m d h n z
unfolding out_of_range
in_range y m d h n z f = record {
  month_low = ground (arith, f);
  month_high = ground (arith, f);
  day_low = ground (arith, f);
  day_high = ground (arith, f);
  hour = ground (arith, f);
  minute = ground (arith, f);
  second = ground (arith, f);
}

-- The seconds that `utc_time` computes for a date and a time of day.
seconds_Is :
    (y m d h n z : ℕ)
    → Valid y m d h n z
    → Is
        (scale (civil_days (pos y) m d) 86400 +ℤ pos (h * 3600 + n * 60 + z))
        (day_number y m d * 86400 + (h * 3600 + n * 60 + z))
        62167219200
seconds_Is y m d h n z v =
    Is-add (scale (civil_days (pos y) m d) 86400) (pos (h * 3600 + n * 60 + z))
      (day_number y m d * 86400) 62167219200 (h * 3600 + n * 60 + z) 0
      (Is-scale (civil_days (pos y) m d) (day_number y m d) 719528 86400
        (civil_days_lem y m d v.month_low v.month_high v.day_low))
      (omega arith)

-- Of a year that fits 32 bits: `utc_time` throws for what is not a date and a time of day, and
-- returns the seconds from the beginning of 1970 to any other, as many as the years and months
-- before it have, one by one.
pub utc_time-seconds_from_1970 :
    (y m d h n z : ℕ)
    → y < 2 ^ 32
    → utc_time y m d h n z
      ≡ (if out_of_range y m d h n z then none else some (seconds_from_1970 y m d h n z))
unfolding utc_time
utc_time-seconds_from_1970 y m d h n z small = elim (Bool-cases (out_of_range y m d h n z)) [
  | inl t ↦ rw t refl
  | inr f ↦
      let v = in_range y m d h n z f in
      let is = seconds_Is y m d h n z v in
      let fits =
        fits_time_lem _ (day_number y m d) (h * 3600 + n * 60 + z) is
          (omega (arith, day_number_max y m d v.month_high v.day_high))
          (omega (arith, v.hour, v.minute, v.second)) in
      rw (f, fits)
        (ap some (
          Is-unique _ (seconds_from_1970 y m d h n z)
            (day_number y m d * 86400 + (h * 3600 + n * 60 + z)) 62167219200 is
            (Is-diff (day_number y m d * 86400 + (h * 3600 + n * 60 + z)) 62167219200)))
]
