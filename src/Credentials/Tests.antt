-- ===== src/Credentials/Tests.antt =====
-- Runs of the parsers, and the theorem on the two parsers of times at a leap day.
use ngs3fs.Prelude.{◌++◌, true, ◌≡◌, refl, arith, some, false, [], ◌∷◌, Bool, List, inl, inr}
use ngs3fs.Prelude.Int.{pos}
use ngs3fs.S3.Text.{Text, bytes, last_byte, same_text, strip_prefix, contains, before, split_at}
use ngs3fs.S3.Decimal.{parse_unsigned, from_chars, at_end, read_digits, starts_with_digit}
use ngs3fs.S3.Time.{
  fixed_decimal, decimal_loop, utc_time, out_of_range, days_in_month, leap_year, civil_days, era_of,
  year_of_era, adjusted_month, fits_time,
}
use ngs3fs.S3.Mtime.{is_s3_format, is_s3_zone, digits_from, s3_fields, parse_s3_mtime}
use ngs3fs.Credentials.{
  credential_trim, trim_leading, trim_trailing, validate_credentials, unsafe_text,
}
use ngs3fs.Credentials.Endpoint.{
  parse_credential_endpoint, scheme_of, https_scheme, http_scheme, endpoint_of, path_of, split_last,
  split_step, split_authority, bracket_host, bracket_port, plain_host, port_of, checked_port,
  is_invalid,
}
use ngs3fs.Credentials.Profile.{
  no_keys, load_profile, parse_profile_file, lines_of, parse_lines, assign_line, assign,
  section_name, without_prefix,
}
use ngs3fs.Credentials.Profile.Written.{
  Item, blank, comment, entry, Section, Written, written_text, given, IsWord, IsItem, AreItems,
  IsSection, IsWritten, Unmarked,
}
use ngs3fs.Credentials.Profile.Last.{last_keys, load_profile-keys}
use ngs3fs.Credentials.Expiration.{parse_expiration}
use ngs3fs.Credentials.Expiration.Agree.{parse_expiration-parse_s3_mtime}

trim_run : credential_trim (bytes " a b ") ≡ bytes "a b"
unfolding credential_trim trim_leading trim_trailing
trim_run = refl

unsafe_run :
    validate_credentials (record {
      access_key_id = bytes "key";
      secret_access_key = bytes "secret";
      session_token = 13 ∷ [];
    })
    ≡ unsafe_text
unfolding validate_credentials contains
unsafe_run = refl

endpoint_run :
    parse_credential_endpoint (bytes "http://[fd00:ec2::23]:8080/role")
    ≡ some (record {
      host = bytes "fd00:ec2::23";
      authority = bytes "[fd00:ec2::23]:8080";
      path = bytes "/role";
      port = 8080;
      tls = false;
    })
unfolding parse_credential_endpoint scheme_of https_scheme http_scheme endpoint_of path_of
    split_last split_step split_authority bracket_host bracket_port plain_host port_of checked_port
    is_invalid strip_prefix contains before split_at parse_unsigned from_chars at_end read_digits
    starts_with_digit
endpoint_run = refl

year_run : fixed_decimal (bytes "2000-02-29T12:00:00.250Z") 0 4 ≡ some 2000
unfolding fixed_decimal decimal_loop
year_run = refl

leap_day_run : parse_s3_mtime (bytes "2000-02-29T12:00:00.250Z") ≡ some (pos 951825600)
unfolding parse_s3_mtime is_s3_format is_s3_zone digits_from s3_fields last_byte fixed_decimal
    decimal_loop utc_time out_of_range days_in_month leap_year civil_days era_of year_of_era
    adjusted_month fits_time
leap_day_run = refl

parse_expiration-parse_s3_mtime_example :
    parse_expiration (bytes "2000-02-29T12:00:00.250Z") ≡ some (pos 951825600)
parse_expiration-parse_s3_mtime_example =
    parse_expiration-parse_s3_mtime (bytes "2000-02-29T12:00:00.250Z") (pos 951825600) 2000 year_run
      (omega arith) leap_day_run

-- Two files; the second has one of the keys again.
abbrev config_text : Text
config_text =
    bytes "[profile p]"
    ++ 10 ∷ bytes "aws_access_key_id = old"
    ++ 10 ∷ bytes "aws_secret_access_key = s"
    ++ 10 ∷ []

abbrev shared_text : Text
shared_text = bytes "# keys" ++ 10 ∷ bytes "[p]" ++ 10 ∷ bytes "aws_access_key_id=new" ++ 10 ∷ []

profile_run :
    (load_profile config_text shared_text (bytes "p")).credentials
    ≡ record { access_key_id = bytes "new"; secret_access_key = bytes "s"; session_token = [] }
unfolding load_profile parse_profile_file lines_of parse_lines assign_line assign section_name
    without_prefix credential_trim trim_leading trim_trailing same_text strip_prefix split_at
    last_byte
profile_run = refl

-- The same files, with another section each.
abbrev space : Text
space = 32 ∷ []

abbrev section : Bool → Text → List Item → Section
section marked name items = record {
  before = [];
  inside = [];
  marked = marked;
  gap = [];
  name = name;
  after = [];
  behind = 13 ∷ [];
  items = items;
}

abbrev config : Written
config = record {
  preamble = [];
  sections =
      section true (bytes "p") (
        entry space (bytes "aws_access_key_id") space space (bytes "old") []
        ∷ entry [] (bytes "aws_secret_access_key") [] [] (bytes "s") space
        ∷ [])
      ∷ section false (bytes "q") (entry [] (bytes "aws_session_token") [] [] (bytes "t") [] ∷ [])
      ∷ [];
}

abbrev shared : Written
shared = record {
  preamble = entry [] (bytes "aws_session_token") [] [] (bytes "t") [] ∷ [];
  sections =
      section false (bytes "p") (
        comment space b'#' (bytes "aws_session_token=t")
        ∷ entry [] (bytes "aws_access_key_id") [] [] (bytes "new") []
        ∷ blank space
        ∷ [])
      ∷ section false (bytes "profile p")
          (entry [] (bytes "aws_session_token") [] [] (bytes "t") [] ∷ [])
      ∷ [];
}

token-IsItem : IsItem (entry [] (bytes "aws_session_token") [] [] (bytes "t") [])
token-IsItem = (
  omega arith,
  (
    record { starts = omega arith; ends = omega arith; one_line = omega arith },
    omega arith,
    omega arith,
  ),
  inr (record { starts = omega arith; ends = omega arith; one_line = omega arith }),
)

section-IsSection :
    (config_file marked : Bool) (name : Text) (items : List Item)
    → IsWord name
    → (config_file ≡ false → marked ≡ false)
    → (config_file ≡ true → Unmarked name)
    → AreItems items
    → IsSection config_file (section marked name items)
section-IsSection config_file marked name items word only unmarked is = record {
  before = tt;
  inside = tt;
  gap = tt;
  after = tt;
  behind = (refl, tt);
  name = word;
  shared = only;
  config = λ c m. unmarked c;
  items = is;
}

config-IsWritten : IsWritten true config
config-IsWritten = (
  tt,
  (
    section-IsSection true true (bytes "p") _
        (record { starts = omega arith; ends = omega arith; one_line = omega arith })
        (λ no. absurd (cc)) (λ c rest e. absurd (cc))
        (
          (
            ((refl, tt), (refl, tt), (refl, tt), tt),
            (
              record { starts = omega arith; ends = omega arith; one_line = omega arith },
              omega arith,
              omega arith,
            ),
            inr (record { starts = omega arith; ends = omega arith; one_line = omega arith }),
          ),
          (
            (
              (tt, tt, tt, (refl, tt)),
              (
                record { starts = omega arith; ends = omega arith; one_line = omega arith },
                omega arith,
                omega arith,
              ),
              inr (record { starts = omega arith; ends = omega arith; one_line = omega arith }),
            ),
            tt,
          ),
        ),
    (
      section-IsSection true false (bytes "q") _
          (record { starts = omega arith; ends = omega arith; one_line = omega arith }) (λ no. refl)
          (λ c rest e. absurd (cc)) (token-IsItem, tt),
      tt,
    ),
  ),
)

shared-IsWritten : IsWritten false shared
shared-IsWritten = (
  (token-IsItem, tt),
  (
    section-IsSection false false (bytes "p") _
        (record { starts = omega arith; ends = omega arith; one_line = omega arith }) (λ no. refl)
        (λ c. absurd (cc))
        (
          ((refl, tt), inl refl, omega arith),
          (
            (
              (tt, tt, tt, tt),
              (
                record { starts = omega arith; ends = omega arith; one_line = omega arith },
                omega arith,
                omega arith,
              ),
              inr (record { starts = omega arith; ends = omega arith; one_line = omega arith }),
            ),
            ((refl, tt), tt),
          ),
        ),
    (
      section-IsSection false false (bytes "profile p") _
          (record { starts = omega arith; ends = omega arith; one_line = omega arith }) (λ no. refl)
          (λ c. absurd (cc)) (token-IsItem, tt),
      tt,
    ),
  ),
)

-- What the files give for the profile.
keys_run :
    last_keys (given (bytes "p") config.sections ++ given (bytes "p") shared.sections) no_keys
    ≡ record { access_key_id = bytes "new"; secret_access_key = bytes "s"; session_token = [] }
unfolding given ngs3fs.Credentials.Profile.Written.entries same_text
keys_run = refl

load_profile-keys_example :
    (load_profile (written_text config) (written_text shared) (bytes "p")).credentials
    ≡ last_keys (given (bytes "p") config.sections ++ given (bytes "p") shared.sections) no_keys
load_profile-keys_example =
    load_profile-keys config shared (bytes "p") config-IsWritten shared-IsWritten
