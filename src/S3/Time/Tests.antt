-- ===== src/S3/Time/Tests.antt =====
-- A leap day, the year 0, and the theorems at them.
use ngs3fs.Prelude.{◌≡◌, refl, arith, if◌then◌else◌, some, none}
use ngs3fs.Prelude.Int.{negsuc, pos}
use ngs3fs.S3.Time.{
  utc_time, out_of_range, days_in_month, leap_year, civil_days, era_of, year_of_era, adjusted_month,
  fits_time,
}
use ngs3fs.S3.Time.Calendar.{seconds_from_1970, utc_time-seconds_from_1970}

leap_day_run : utc_time 2000 2 29 12 0 0 ≡ some (pos 951825600)
unfolding utc_time out_of_range days_in_month leap_year civil_days era_of year_of_era adjusted_month
    fits_time
leap_day_run = refl

year_zero_run : utc_time 0 1 1 0 0 0 ≡ some (negsuc 62167219199)
unfolding utc_time out_of_range days_in_month leap_year civil_days era_of year_of_era adjusted_month
    fits_time
year_zero_run = refl

utc_time-seconds_from_1970_example :
    utc_time 2000 2 29 12 0 0
    ≡ (if out_of_range 2000 2 29 12 0 0 then none else some (seconds_from_1970 2000 2 29 12 0 0))
utc_time-seconds_from_1970_example = utc_time-seconds_from_1970 2000 2 29 12 0 0 (omega arith)
