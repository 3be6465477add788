-- ===== src/Cache/Name/Base64.antt =====
-- The encodings of bytes as hexadecimal digits and as base64url can be read back.
use ngs3fs.Prelude.{
  ℕ, ◌+◌, ◌-◌, ◌*◌, ◌/◌, ◌%◌, ◌<◌, leb, ◌==◌, if◌then◌else◌, [], ◌∷◌, ◌≡◌, refl, arith,
}
use ngs3fs.S3.Text.{Text}
use ngs3fs.S3.Path.Encode.{IsBytes}
use ngs3fs.Cache.Name.{lower_hex, cache_hex, base64_digit, cache_base64url}

-- The references: the value of a digit, and the bytes of a text of digits.
unfoldable pub hex_value : ℕ → ℕ
hex_value c = if leb c b'9' then c - b'0' else c - b'a' + 10

unfoldable pub read_hex : Text → Text
read_hex [] = []
read_hex (c ∷ []) = []
read_hex (c ∷ d ∷ rest) = (hex_value c * 16 + hex_value d) ∷ read_hex rest

unfoldable pub base64_value : ℕ → ℕ
base64_value c =
    if c == b'-'
    then 62
    else if c == b'_'
    then 63
    else if leb c b'9'
    then c - b'0' + 52
    else if leb c b'Z'
    then c - b'A'
    else c - b'a' + 26

unfoldable pub read_base64 : Text → Text
read_base64 [] = []
read_base64 (p ∷ []) = []
read_base64 (p ∷ q ∷ []) = (base64_value p * 4 + base64_value q / 16) ∷ []
read_base64 (p ∷ q ∷ r ∷ []) =
    (base64_value p * 4 + base64_value q / 16)
    ∷ (base64_value q % 16 * 16 + base64_value r / 4)
    ∷ []
read_base64 (p ∷ q ∷ r ∷ s ∷ rest) =
    (base64_value p * 4 + base64_value q / 16)
    ∷ (base64_value q % 16 * 16 + base64_value r / 4)
    ∷ (base64_value r % 4 * 64 + base64_value s)
    ∷ read_base64 rest

hex_value-lower_hex : (n : ℕ) → n < 16 → hex_value (lower_hex n) ≡ n
unfolding hex_value lower_hex
hex_value-lower_hex n h = ground arith

base64_value-base64_digit : (n : ℕ) → n < 64 → base64_value (base64_digit n) ≡ n
unfolding base64_value base64_digit
base64_value-base64_digit n h = ground arith

pub read_hex-cache_hex : (cs : Text) → IsBytes cs → read_hex (cache_hex cs) ≡ cs
unfolding read_hex cache_hex
read_hex-cache_hex [] h = refl
read_hex-cache_hex (c ∷ cs) h =
    ground
      (arith, hex_value-lower_hex (c / 16), hex_value-lower_hex (c % 16), read_hex-cache_hex cs h.1)

-- Reading the base64url text of any bytes gives the bytes back.
pub read_base64-cache_base64url : (cs : Text) → IsBytes cs → read_base64 (cache_base64url cs) ≡ cs
unfolding read_base64 cache_base64url
read_base64-cache_base64url [] h = refl
read_base64-cache_base64url (a ∷ []) h =
    ground (arith, base64_value-base64_digit (a / 4), base64_value-base64_digit (a % 4 * 16))
read_base64-cache_base64url (a ∷ b ∷ []) h = ground (
  arith,
  base64_value-base64_digit (a / 4),
  base64_value-base64_digit (a % 4 * 16 + b / 16),
  base64_value-base64_digit (b % 16 * 4),
)
read_base64-cache_base64url (a ∷ b ∷ c ∷ rest) h = ground (
  arith,
  base64_value-base64_digit (a / 4),
  base64_value-base64_digit (a % 4 * 16 + b / 16),
  base64_value-base64_digit (b % 16 * 4 + c / 64),
  base64_value-base64_digit (c % 64),
  read_base64-cache_base64url rest h.1.1.1,
)
