-- ===== src/Credentials/Endpoint.antt =====
-- The address of a credential service (src/credentials.cpp, `parse_credential_endpoint`).
use ngs3fs.Prelude.{
  ℕ, Bool, true, false, ◌||◌, ltb, ◌==◌, if◌then◌else◌, [], ◌∷◌, Option, none, some,
}
use ngs3fs.S3.Text.{Text, bytes, strip_prefix, contains, before, split_at, ◌>>=◌}
use ngs3fs.S3.Decimal.{parse_unsigned}
use ngs3fs.Credentials.{is_empty}

pub record CredentialEndpoint : Type 0 where
  pub host : Text
  pub authority : Text
  pub path : Text
  pub port : ℕ
  pub tls : Bool

-- `tls`, the port, and the text behind the scheme.
pub record Scheme : Type 0 where
  pub tls : Bool
  pub port : ℕ
  pub rest : Text

unfoldable pub http_scheme : Option Text → Option Scheme
http_scheme none = none
http_scheme (some rest) = some (record { tls = false; port = 80; rest = rest })

unfoldable pub https_scheme : Option Text → Text → Option Scheme
https_scheme (some rest) url = some (record { tls = true; port = 443; rest = rest })
https_scheme none url = http_scheme (strip_prefix (bytes "http://") url)

unfoldable pub scheme_of : Text → Option Scheme
scheme_of url = https_scheme (strip_prefix (bytes "https://") url) url

-- The text from the first slash on, or a slash.
unfoldable pub path_of : Option (Text × Text) → Text
path_of none = b'/' ∷ []
path_of (some (a, b)) = b'/' ∷ b

-- `find_last_of(c)` and the two `substr` round it.
unfoldable pub split_step : ℕ → ℕ → Text → Option (Text × Text) → Option (Text × Text)
split_step c d ds (some (a, b)) = some (d ∷ a, b)
split_step c d ds none = if d == c then some ([], ds) else none

unfoldable pub split_last : ℕ → Text → Option (Text × Text)
split_last c [] = none
split_last c (d ∷ ds) = split_step c d ds (split_last c ds)

-- What stands behind the bracket of an IPv6 address: nothing, or a colon and the port.
unfoldable pub bracket_port : Text → Text → Option (Text × Text)
bracket_port host [] = some (host, [])
bracket_port host (c ∷ port) = if c == b':' then some (host, port) else none

unfoldable pub bracket_host : Option (Text × Text) → Option (Text × Text)
bracket_host none = none
bracket_host (some (host, rest)) = bracket_port host rest

unfoldable pub plain_host : Text → Option (Text × Text) → Text × Text
plain_host authority none = (authority, [])
plain_host authority (some (host, port)) = (host, port)

-- The host and the port of the authority.
unfoldable pub split_authority : Text → Option (Text × Text)
split_authority [] = none
split_authority (c ∷ cs) =
    if c == b'['
    then bracket_host (split_at b']' cs)
    else some (plain_host (c ∷ cs) (split_last b':' (c ∷ cs)))

unfoldable pub checked_port : Option ℕ → Option ℕ
checked_port none = none
checked_port (some value) = if value == 0 || ltb 65535 value then none else some value

-- A value beyond 32 bits is refused either way.
unfoldable pub port_of : ℕ → Text → Option ℕ
port_of default [] = some default
port_of default (c ∷ cs) = checked_port (parse_unsigned (c ∷ cs))

unfoldable pub is_invalid : Text → Text → Bool
is_invalid authority path =
    is_empty authority
    || (contains b'@' authority
        || (contains b'?' authority || (contains b'#' authority || contains b'#' path)))

unfoldable pub endpoint_of : Scheme → Option CredentialEndpoint
endpoint_of scheme =
    let authority = before b'/' scheme.rest in
    let path = path_of (split_at b'/' scheme.rest) in
    if is_invalid authority path then none else (do
      (host, port) ← split_authority authority
      (if is_empty host then none else (do
        number ← port_of scheme.port port
        some (record {
          host = host;
          authority = authority;
          path = path;
          port = number;
          tls = scheme.tls;
        }))))

unfoldable pub parse_credential_endpoint : Text → Option CredentialEndpoint
parse_credential_endpoint url = do scheme ← scheme_of url; endpoint_of scheme
