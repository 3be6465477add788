-- ===== src/Credentials.antt =====
-- The parsers of the credentials (src/credentials.cpp, `environment_true` to
-- `parse_credential_endpoint`). `none` is an exception.
pub mod Expiration
pub mod Endpoint
pub mod Profile
mod Tests
use ngs3fs.Prelude.{
  ℕ, Bool, true, false, ◌||◌, ◌&&◌, leb, ◌==◌, if◌then◌else◌, List, [], ◌∷◌, Option, none, some,
}
use ngs3fs.S3.Text.{Text, bytes, same_text, contains}
use ngs3fs.S3.Checksum.{ascii_equal_ignore_case}

-- Of the value of the variable, if it is set.
unfoldable pub environment_true : Option Text → Bool
environment_true none = false
environment_true (some s) = ascii_equal_ignore_case s (bytes "true") || same_text s (bytes "1")

-- `isspace` in the C locale
abbrev pub is_space : ℕ → Bool
is_space c = c == 32 || leb 9 c && leb c 13

unfoldable pub trim_leading : Text → Text
trim_leading [] = []
trim_leading (c ∷ cs) = let rest = trim_leading cs in if is_space c then rest else c ∷ cs

abbrev pub is_empty : Text → Bool
is_empty [] = true
is_empty (c ∷ cs) = false

unfoldable pub trim_trailing : Text → Text
trim_trailing [] = []
trim_trailing (c ∷ cs) =
    let rest = trim_trailing cs in if is_space c && is_empty rest then [] else c ∷ rest

unfoldable pub credential_trim : Text → Text
credential_trim s = trim_trailing (trim_leading s)

-- The fields that are checked.
pub record Keys : Type 0 where
  pub access_key_id : Text
  pub secret_access_key : Text
  pub session_token : Text

-- The check passes, or one of its two exceptions.
pub data Verdict : Type 0 where
  accepted incomplete unsafe_text : Verdict

-- `find_first_of("\r\n") != npos`
abbrev pub has_line_end : Text → Bool
has_line_end s = contains 13 s || contains 10 s

unfoldable pub validate_credentials : Keys → Verdict
validate_credentials k =
    if is_empty k.access_key_id || is_empty k.secret_access_key
    then incomplete
    else if has_line_end k.access_key_id || has_line_end k.session_token
    then unsafe_text
    else accepted
