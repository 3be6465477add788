-- ===== src/S3/Range.antt =====
-- The `Content-Range` of a response (src/s3.cpp, `s3_content_range_matches`; src/fuse.cpp,
-- `content_range_matches`, `cache_response_matches`).
pub mod Exact
use ngs3fs.Prelude.{
  ℕ, ◌+◌, ◌-◌, Bool, true, false, ◌&&◌, leb, ◌==◌, not, if◌then◌else◌, [], ◌∷◌, Option, none, some,
}
use ngs3fs.S3.Text.{Text, bytes, strip_prefix, split_at, contains}
use ngs3fs.S3.Decimal.{parse_unsigned}

-- The tests on the three numbers; `last - first` does not wrap, since it is read behind the test.
unfoldable pub is_range : ℕ → ℕ → ℕ → Option ℕ → Option ℕ → Option ℕ → Bool
is_range offset length object_size none last total = false
is_range offset length object_size (some first) none total = false
is_range offset length object_size (some first) (some last) none = false
is_range offset length object_size (some first) (some last) (some total) =
    (first == offset)
    && ((total == object_size) && (leb first last && (last - first == length - 1)))

-- Behind the dash: the last byte, a slash and the total, with no other slash.
unfoldable pub is_rest : ℕ → ℕ → ℕ → Text → Option (Text × Text) → Bool
is_rest offset length object_size first none = false
is_rest offset length object_size first (some (last, total)) =
    if contains b'/' total
    then false
    else is_range offset length object_size (parse_unsigned first) (parse_unsigned last)
        (parse_unsigned total)

unfoldable pub is_numbers : ℕ → ℕ → ℕ → Option (Text × Text) → Bool
is_numbers offset length object_size none = false
is_numbers offset length object_size (some (first, rest)) =
    is_rest offset length object_size first (split_at b'/' rest)

unfoldable pub behind_bytes : ℕ → ℕ → ℕ → Option Text → Bool
behind_bytes offset length object_size none = false
behind_bytes offset length object_size (some value) =
    is_numbers offset length object_size (split_at b'-' value)

unfoldable pub s3_content_range_matches : Text → ℕ → ℕ → ℕ → Bool
s3_content_range_matches value offset length object_size =
    if length == 0
    then false
    else behind_bytes offset length object_size (strip_prefix (bytes "bytes ") value)

-- The fields of `Response` that are read; `content_range` is empty where there is no header.
pub record Response : Type 0 where
  pub status : ℕ
  pub content_range : Text
  pub body_bytes : ℕ

unfoldable pub no_text : Text → Bool
no_text [] = true
no_text (c ∷ cs) = false

unfoldable pub content_range_matches : Response → ℕ → ℕ → ℕ → Bool
content_range_matches response offset length object_size =
    if not (response.status == 206)
    then (response.status == 200) && ((offset == 0) && (length == object_size))
    else if no_text response.content_range
    then false
    else s3_content_range_matches response.content_range offset length object_size

unfoldable pub cache_response_matches : Response → ℕ → ℕ → ℕ → Bool
cache_response_matches response offset length object_size =
    content_range_matches response offset length object_size && (response.body_bytes == length)
