-- ===== src/Fuse/Names.antt =====
-- Names and request paths (src/fuse.cpp, `query_path`, `hex_value`, `valid_fuse_component`,
-- `percent_decode`, `trim_xml_space`, `destination_path`).
pub mod Decode
use ngs3fs.Prelude.{
  ℕ, zero, suc, ◌+◌, ◌-◌, ◌*◌, Bool, true, false, ◌||◌, ◌&&◌, ltb, leb, ◌==◌, not, if◌then◌else◌,
  [], ◌∷◌, ◌++◌, Option, none, some, length,
}
use mathlib.Core.Option
use Prim.Native.Nat.{bit_or}
use ngs3fs.S3.Text.{Text, bytes, is_digit, is_xdigit, same_text, contains}
use ngs3fs.S3.Path.{uri_encode, request_path_without_query}

unfoldable pub query_path : Text → Text → Text
query_path path query = path ++ ((if contains b'?' path then b'&' else b'?') ∷ query)

-- The value of a hexadecimal digit.
unfoldable pub hex_value : ℕ → ℕ
hex_value ch = if is_digit ch then ch - b'0' else bit_or ch 0x20 - b'a' + 10

-- `kInternalDeleteDirectory`
abbrev pub internal_delete_directory : Text
internal_delete_directory = bytes ".~ngs3fs~.pending-delete"

unfoldable pub valid_fuse_component : Text → Bool
valid_fuse_component name =
    not (same_text name [])
    && (leb (length name) 255
        && (not (same_text name (bytes "."))
            && (not (same_text name (bytes ".."))
                && (not (same_text name internal_delete_directory)
                    && (not (contains 0 name) && not (contains b'/' name))))))

unfoldable pub put_byte : ℕ → Option Text → Option Text
put_byte c rest = Option.map (λ (t : Text). c ∷ t) rest

-- `none`: the code throws. The halves that it joins by `|` have no bit in common.
unfoldable pub percent_decode : Text → Option Text
percent_decode [] = some []
percent_decode (c ∷ []) = if not (c == b'%') then some (c ∷ []) else none
percent_decode (c ∷ a ∷ []) =
    if not (c == b'%') then put_byte c (if not (a == b'%') then some (a ∷ []) else none) else none
percent_decode (c ∷ a ∷ b ∷ rest) =
    let escaped = put_byte (hex_value a * 16 + hex_value b) (percent_decode rest) in
    let plain = put_byte c (percent_decode (a ∷ b ∷ rest)) in
    if not (c == b'%')
    then plain
    else (if not (is_xdigit a) || not (is_xdigit b) then none else escaped)

-- `isspace`
abbrev pub is_space : ℕ → Bool
is_space c = c == 0x20 || (leb 0x09 c && leb c 0x0d)

unfoldable pub trim_front : Text → Text
trim_front [] = []
trim_front (c ∷ cs) = if is_space c then trim_front cs else c ∷ cs

unfoldable pub keep_byte : ℕ → Text → Text
keep_byte c [] = if is_space c then [] else c ∷ []
keep_byte c (d ∷ ds) = c ∷ d ∷ ds

unfoldable pub trim_back : Text → Text
trim_back [] = []
trim_back (c ∷ cs) = keep_byte c (trim_back cs)

unfoldable pub trim_xml_space : Text → Text
trim_xml_space value = trim_back (trim_front value)

unfoldable pub keep_slash : ℕ → Option Text → Option Text
keep_slash c none = if c == b'/' then some (c ∷ []) else none
keep_slash c (some t) = some (c ∷ t)

-- The text up to its last slash, which is kept. `none`: there is no slash.
unfoldable pub up_to_slash : Text → Option Text
up_to_slash [] = none
up_to_slash (c ∷ cs) = keep_slash c (up_to_slash cs)

unfoldable pub or_root : Option Text → Text
or_root none = b'/' ∷ []
or_root (some directory) = directory

unfoldable pub destination_path : Text → Text → Text
destination_path source_path new_name =
    or_root (up_to_slash (request_path_without_query source_path)) ++ uri_encode new_name false
