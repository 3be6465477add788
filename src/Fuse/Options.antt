-- ===== src/Fuse/Options.antt =====
-- Values of mount options (src/fuse.cpp, `parse_byte_size`, `parse_mode`, `decode_mountinfo_path`,
-- `format_authority`).
pub mod Sizes
use ngs3fs.Prelude.{
  ℕ, zero, suc, ◌+◌, ◌-◌, ◌*◌, ◌/◌, ◌%◌, Bool, true, false, ◌||◌, ◌&&◌, ltb, leb, ◌==◌, not,
  if◌then◌else◌, List, [], ◌∷◌, ◌++◌, Option, none, some, word,
}
use ngs3fs.S3.Text.{Text, bytes, same_text, strip_prefix, strip_suffix, split_at, contains, before}
use ngs3fs.S3.Decimal.{from_chars, at_end, parse_unsigned, decimal}

-- `units`
abbrev pub units : List (Text × ℕ)
units =
    (bytes "KiB", 1024)
    ∷ (bytes "MiB", 1048576)
    ∷ (bytes "GiB", 1073741824)
    ∷ (bytes "KB", 1024)
    ∷ (bytes "MB", 1048576)
    ∷ (bytes "GB", 1073741824)
    ∷ (bytes "K", 1024)
    ∷ (bytes "M", 1048576)
    ∷ (bytes "G", 1073741824)
    ∷ []

unfoldable pub first_some : Option Text → ℕ → Text × ℕ → Text × ℕ
first_some none multiplier rest = rest
first_some (some number) multiplier rest = (number, multiplier)

-- The loop over the units: the text without its unit, and the multiplier.
unfoldable pub strip_unit : List (Text × ℕ) → Text → Text × ℕ
strip_unit [] text = (text, 1)
strip_unit ((suffix, multiplier) ∷ rest) text =
    first_some (strip_suffix suffix text) multiplier (strip_unit rest text)

unfoldable pub scaled : ℕ → Option ℕ → Option ℕ
scaled multiplier none = none
scaled multiplier (some number) =
    if ltb ((word - 1) / multiplier) number then none else some (number * multiplier)

-- `none`: the function returns false. An empty text has no digit.
unfoldable pub parse_byte_size : Text → Option ℕ
parse_byte_size text =
    let (number, multiplier) = strip_unit units text in scaled multiplier (parse_unsigned number)

unfoldable pub at_most : ℕ → Option ℕ → Option ℕ
at_most bound none = none
at_most bound (some value) = if ltb bound value then none else some value

-- 07777 is 4095.
unfoldable pub parse_mode : Text → Option ℕ
parse_mode text = at_most 4095 (at_end (from_chars 8 text))

abbrev pub is_octal : ℕ → Bool
is_octal c = leb b'0' c && leb c b'7'

-- The path up to its NUL; `char` keeps the low byte of the octal number.
unfoldable pub decode_mountinfo_path : Text → Text
decode_mountinfo_path [] = []
decode_mountinfo_path (c ∷ []) = c ∷ []
decode_mountinfo_path (c ∷ x ∷ []) = c ∷ x ∷ []
decode_mountinfo_path (c ∷ x ∷ y ∷ []) = c ∷ x ∷ y ∷ []
decode_mountinfo_path (c ∷ x ∷ y ∷ z ∷ rest) =
    let escaped =
      ((x - b'0') * 64 + (y - b'0') * 8 + (z - b'0')) % 256 ∷ decode_mountinfo_path rest in
    let plain = c ∷ decode_mountinfo_path (x ∷ y ∷ z ∷ rest) in
    if (c == b'\\') && (is_octal x && (is_octal y && is_octal z)) then escaped else plain

unfoldable pub starts_with_bracket : Text → Bool
starts_with_bracket [] = false
starts_with_bracket (c ∷ cs) = c == b'['

unfoldable pub format_authority : Text → ℕ → Text
format_authority host port =
    (if contains b':' host && not (starts_with_bracket host)
      then b'[' ∷ (host ++ b']' ∷ [])
      else host)
    ++ b':' ∷ decimal port
