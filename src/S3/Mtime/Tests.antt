-- ===== src/S3/Mtime/Tests.antt =====
-- One time in the two formats.
use ngs3fs.Prelude.{◌≡◌, refl, some}
use ngs3fs.Prelude.Int.{pos}
use ngs3fs.S3.Text.{bytes, same_text, last_byte}
use ngs3fs.S3.Time.{
  fixed_decimal, decimal_loop, utc_time, out_of_range, days_in_month, leap_year, civil_days, era_of,
  year_of_era, adjusted_month, fits_time,
}
use ngs3fs.S3.Mtime.{
  is_s3_format, is_s3_zone, digits_from, s3_fields, parse_s3_mtime, find_text, is_http_format,
  http_fields, parse_http_mtime,
}

s3_run : parse_s3_mtime (bytes "2000-02-29T12:00:00.250Z") ≡ some (pos 951825600)
unfolding parse_s3_mtime is_s3_format is_s3_zone digits_from s3_fields last_byte fixed_decimal
    decimal_loop utc_time out_of_range days_in_month leap_year civil_days era_of year_of_era
    adjusted_month fits_time
s3_run = refl

http_run : parse_http_mtime (bytes "Tue, 29 Feb 2000 12:00:00 GMT") ≡ some (pos 951825600)
unfolding parse_http_mtime is_http_format find_text http_fields same_text fixed_decimal decimal_loop
    utc_time out_of_range days_in_month leap_year civil_days era_of year_of_era adjusted_month
    fits_time
http_run = refl
