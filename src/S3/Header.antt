-- ===== src/S3/Header.antt =====
-- Canonical header values of SigV4 (src/s3.cpp, `lowercase`, `has_header_whitespace`,
-- `normalize_header_value`).
pub mod Normal
use ngs3fs.Prelude.{
  ℕ, ◌+◌, Bool, true, false, ◌||◌, ◌&&◌, ◌==◌, not, if◌then◌else◌, List, [], ◌∷◌, ◌++◌,
}
use ngs3fs.S3.Text.{Text, is_upper}

unfoldable pub lowercase : Text → Text
lowercase [] = []
lowercase (c ∷ cs) = (if is_upper c then c + 32 else c) ∷ lowercase cs

unfoldable pub is_space : ℕ → Bool
is_space c = c == 0x20 || (c == 0x09 || (c == 0x0d || c == 0x0a))

unfoldable pub has_header_whitespace : Text → Bool
has_header_whitespace [] = false
has_header_whitespace (c ∷ cs) = is_space c || has_header_whitespace cs

unfoldable pub is_empty : Text → Bool
is_empty [] = true
is_empty (c ∷ cs) = false

-- The loop of `normalize_header_value`, over its output and `pending_space`.
unfoldable pub normalize_loop : Text → Bool → Text → Text
normalize_loop output pending [] = output
normalize_loop output pending (c ∷ cs) =
    let skip = normalize_loop output (pending || not (is_empty output)) cs in
    let put =
      normalize_loop ((if pending then output ++ 0x20 ∷ [] else output) ++ c ∷ []) false cs in
    if is_space c then skip else put

unfoldable pub normalize_header_value : Text → Text
normalize_header_value value =
    if not (has_header_whitespace value) then value else normalize_loop [] false value
