-- ===== src/S3/Path.antt =====
-- Request paths and copy sources (src/s3.cpp, `is_encoded_request_path` to
-- `authority_uses_virtual_bucket`, and `uri_encode`).
pub mod Encode
use ngs3fs.Prelude.{
  ℕ, zero, suc, ◌+◌, ◌-◌, ◌*◌, ◌/◌, ◌%◌, Bool, true, false, ◌||◌, ◌&&◌, ltb, leb, ◌==◌, not,
  if◌then◌else◌, List, [], ◌∷◌, ◌++◌, Option, none, some, length,
}
use ngs3fs.S3.Text.{
  Text, is_alnum, is_xdigit, to_lower, same_text, strip_prefix, contains, before, last_byte,
}

-- `digits[n]` of "0123456789ABCDEF"
unfoldable pub hex_digit : ℕ → ℕ
hex_digit n = if ltb n 10 then b'0' + n else b'A' + (n - 10)

unfoldable pub is_unreserved : Bool → ℕ → Bool
is_unreserved preserve_slashes c =
    is_alnum c
    || (c == b'-' || (c == b'.' || (c == b'_' || (c == b'~' || preserve_slashes && c == b'/'))))

-- The value is a text of bytes.
unfoldable pub uri_encode : Text → Bool → Text
uri_encode [] preserve_slashes = []
uri_encode (c ∷ cs) preserve_slashes =
    let rest = uri_encode cs preserve_slashes in
    if is_unreserved preserve_slashes c
    then c ∷ rest
    else b'%' ∷ hex_digit (c / 16) ∷ hex_digit (c % 16) ∷ rest

-- `c <= 0x20U || c == 0x7fU`
unfoldable pub is_control : ℕ → Bool
is_control c = leb c 0x20 || c == 0x7f

-- A byte that the loop of `is_encoded_request_path` passes alone.
unfoldable pub is_plain : ℕ → Bool
is_plain c = not (is_control c) && not (c == b'%')

unfoldable pub scan_path : Text → Bool
scan_path [] = true
scan_path (c ∷ []) = is_plain c
scan_path (c ∷ a ∷ []) = is_plain c && is_plain a
scan_path (c ∷ a ∷ b ∷ rest) =
    let escaped = is_xdigit a && (is_xdigit b && scan_path rest) in
    let plain = is_plain c && scan_path (a ∷ b ∷ rest) in if c == b'%' then escaped else plain

unfoldable pub starts_with_slash : Text → Bool
starts_with_slash [] = false
starts_with_slash (c ∷ cs) = c == b'/'

unfoldable pub is_encoded_request_path : Text → Bool
is_encoded_request_path p =
    if not (starts_with_slash p) || contains b'?' p then false else scan_path p

-- The text ends with `%2f`, in either case.
unfoldable pub ends_with_escaped_slash : Text → Bool
ends_with_escaped_slash [] = false
ends_with_escaped_slash (a ∷ []) = false
ends_with_escaped_slash (a ∷ b ∷ []) = false
ends_with_escaped_slash (a ∷ b ∷ c ∷ []) = a == b'%' && (b == b'2' && to_lower c == b'f')
ends_with_escaped_slash (a ∷ b ∷ c ∷ d ∷ ds) = ends_with_escaped_slash (b ∷ c ∷ d ∷ ds)

unfoldable pub request_path_without_query : Text → Text
request_path_without_query p = before b'?' p

unfoldable pub request_path_is_directory_marker : Text → Bool
request_path_is_directory_marker p =
    let path = request_path_without_query p in
    if last_byte path == b'/' then true else ends_with_escaped_slash path

unfoldable pub is_empty : Text → Bool
is_empty [] = true
is_empty (c ∷ cs) = false

-- `source == prefix`, or `source` starts with `prefix` and a slash behind it.
unfoldable pub within : Option Text → Bool
within none = false
within (some rest) = is_empty rest || starts_with_slash rest

-- `none`: the bucket is empty, and the code throws.
unfoldable pub make_copy_source : Text → Text → Text → Bool → Option Text
make_copy_source bucket source_path version_id virtual_hosted =
    if is_empty bucket
    then none
    else let source = request_path_without_query source_path in
      let prefix = b'/' ∷ uri_encode bucket false in
      let result =
        (if not virtual_hosted && within (strip_prefix prefix source)
          then source
          else prefix ++ source) in
      some (
        if is_empty version_id
        then result
        else result ++ version_query ++ uri_encode version_id false)
  where
    -- "?versionId="
    version_query : Text
    version_query = b'?' ∷ b'v' ∷ b'e' ∷ b'r' ∷ b's' ∷ b'i' ∷ b'o' ∷ b'n' ∷ b'I' ∷ b'd' ∷ b'=' ∷ []

-- The host's leading bytes are the bucket's, without regard to case: what is left of the host.
unfoldable pub strip_bucket : Text → Text → Option Text
strip_bucket [] host = some host
strip_bucket (c ∷ cs) [] = none
strip_bucket (c ∷ cs) (d ∷ ds) = if to_lower d == to_lower c then strip_bucket cs ds else none

unfoldable pub count_byte : ℕ → Text → ℕ
count_byte c [] = 0
count_byte c (d ∷ ds) = (if d == c then 1 else 0) + count_byte c ds

-- The host of an authority: inside brackets, or before its only colon. `none`: no closing bracket.
unfoldable pub host_of : Text → Option Text
host_of [] = some []
host_of (c ∷ cs) =
    if c == b'['
    then (if contains b']' cs then some (before b']' cs) else none)
    else some (if count_byte b':' (c ∷ cs) == 1 then before b':' (c ∷ cs) else c ∷ cs)

unfoldable pub at_end_or_dot : Option Text → Bool
at_end_or_dot none = false
at_end_or_dot (some []) = true
at_end_or_dot (some (c ∷ cs)) = c == b'.'

unfoldable pub uses_bucket : Text → Option Text → Bool
uses_bucket bucket none = false
uses_bucket bucket (some host) = at_end_or_dot (strip_bucket bucket host)

unfoldable pub authority_uses_virtual_bucket : Text → Text → Bool
authority_uses_virtual_bucket authority bucket =
    if is_empty bucket then false else uses_bucket bucket (host_of authority)
