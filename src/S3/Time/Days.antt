-- ===== src/S3/Time/Days.antt =====
-- The calendar by counting: the days of the years and the months before a date.
use ngs3fs.Prelude.{ℕ, zero, suc, ◌+◌, ◌-◌, ◌*◌, ◌/◌, ◌<◌, if◌then◌else◌, ◌≡◌, refl, arith}
use ngs3fs.S3.Time.{leap_year, days_in_month}

unfoldable pub days_of_years : ℕ → ℕ
days_of_years zero = 0
days_of_years (suc y) = days_of_years y + (if leap_year y then 366 else 365)

-- The days of the first `m` months.
unfoldable pub days_of_months : ℕ → ℕ → ℕ
days_of_months y zero = 0
days_of_months y (suc m) = days_of_months y m + days_in_month y (suc m)

-- The days before a date, since the first of January of the year 0.
unfoldable pub day_number : ℕ → ℕ → ℕ → ℕ
day_number y m d = days_of_years y + days_of_months y (m - 1) + (d - 1)

-- The leap years among the first.
pub days_of_years_lem :
    (y : ℕ) → days_of_years (suc y) + y / 100 ≡ 365 * suc y + y / 4 + y / 400 + 1
unfolding days_of_years leap_year
days_of_years_lem zero = refl
days_of_years_lem (suc y) = ground (arith, days_of_years_lem y)

-- A month of the year, counted from March, and the days before it.
pub months_from_march :
    (y k : ℕ)
    → k < 10
    → days_of_months y (k + 2) ≡ (153 * k + 2) / 5 + 59 + (if leap_year y then 1 else 0)
unfolding days_of_months days_in_month
months_from_march y zero h = ground arith
months_from_march y (suc zero) h = ground arith
months_from_march y (suc (suc zero)) h = ground arith
months_from_march y (suc (suc (suc zero))) h = ground arith
months_from_march y (suc (suc (suc (suc zero)))) h = ground arith
months_from_march y (suc (suc (suc (suc (suc zero))))) h = ground arith
months_from_march y (suc (suc (suc (suc (suc (suc zero)))))) h = ground arith
months_from_march y (suc (suc (suc (suc (suc (suc (suc zero))))))) h = ground arith
months_from_march y (suc (suc (suc (suc (suc (suc (suc (suc zero)))))))) h = ground arith
months_from_march y (suc (suc (suc (suc (suc (suc (suc (suc (suc zero))))))))) h = ground arith
months_from_march y (suc (suc (suc (suc (suc (suc (suc (suc (suc (suc k)))))))))) h =
    absurd (omega arith)
