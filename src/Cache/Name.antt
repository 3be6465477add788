-- ===== src/Cache/Name.antt =====
-- The file names of cached objects (src/cache.cpp, `cache_hex` to `cache_encode_component`). A
-- component of a key is its own name unless it could not be one; then it is escaped, and hashed
-- where the escape is too long. SHA-256 is an argument.
pub mod Base64
pub mod Distinct
use ngs3fs.Prelude.{
  ℕ, zero, suc, ◌+◌, ◌-◌, ◌*◌, ◌/◌, ◌%◌, Bool, true, false, ◌||◌, ◌&&◌, ltb, leb, ◌==◌, not,
  if◌then◌else◌, List, [], ◌∷◌, ◌++◌, Option, none, some, length,
}
use ngs3fs.S3.Text.{Text, same_text, strip_prefix}

-- `digits[n]` of "0123456789abcdef"
unfoldable pub lower_hex : ℕ → ℕ
lower_hex n = if ltb n 10 then b'0' + n else b'a' + (n - 10)

unfoldable pub cache_hex : Text → Text
cache_hex [] = []
cache_hex (c ∷ cs) = lower_hex (c / 16) ∷ lower_hex (c % 16) ∷ cache_hex cs

-- `alphabet[n]`
unfoldable pub base64_digit : ℕ → ℕ
base64_digit n =
    if ltb n 26
    then b'A' + n
    else if ltb n 52
    then b'a' + (n - 26)
    else if ltb n 62
    then b'0' + (n - 52)
    else if n == 62
    then b'-'
    else b'_'

-- The fields that the code joins by `|` have no bit in common, so the sum is written.
unfoldable pub cache_base64url : Text → Text
cache_base64url [] = []
cache_base64url (a ∷ []) = base64_digit (a / 4) ∷ base64_digit (a % 4 * 16) ∷ []
cache_base64url (a ∷ b ∷ []) =
    base64_digit (a / 4) ∷ base64_digit (a % 4 * 16 + b / 16) ∷ base64_digit (b % 16 * 4) ∷ []
cache_base64url (a ∷ b ∷ c ∷ rest) =
    base64_digit (a / 4)
    ∷ base64_digit (a % 4 * 16 + b / 16)
    ∷ base64_digit (b % 16 * 4 + c / 64)
    ∷ base64_digit (c % 64)
    ∷ cache_base64url rest

-- `kCacheEscapePrefix`, ".~ngs3fs~."
abbrev pub escape_prefix : Text
escape_prefix = b'.' ∷ b'~' ∷ b'n' ∷ b'g' ∷ b's' ∷ b'3' ∷ b'f' ∷ b's' ∷ b'~' ∷ b'.' ∷ []

unfoldable pub has_prefix : Option Text → Bool
has_prefix none = false
has_prefix (some rest) = true

unfoldable pub has_control : Text → Bool
has_control [] = false
has_control (c ∷ cs) = (ltb c 0x20 || c == 0x7f) || has_control cs

unfoldable pub is_dot_name : Text → Bool
is_dot_name value =
    same_text value [] || (same_text value (b'.' ∷ []) || same_text value (b'.' ∷ b'.' ∷ []))

unfoldable pub needs_escape : Text → Bool
needs_escape value =
    if is_dot_name value || has_prefix (strip_prefix escape_prefix value)
    then true
    else has_control value

-- `none`: the names of the file system are too short, and the code throws.
unfoldable pub encode_component : (Text → Text) → Text → ℕ → Option Text
encode_component sha256 component name_max =
    let escaped = escape_prefix ++ b'b' ∷ cache_base64url component in
    let hashed = escape_prefix ++ b'h' ∷ cache_hex (sha256 component) in
    if not (needs_escape component) && leb (length component) name_max
    then some component
    else if leb (length escaped) name_max
    then some escaped
    else if ltb name_max (length hashed)
    then none
    else some hashed
