-- ===== src/S3/Text.antt =====
-- Bytes and texts: the functions of <cctype> in the C locale, and those of `std::string_view`.
pub mod Prefix
pub mod Same
use Prim.Native.Char.{code}
use Prim.Native.String.{String}
use mathlib.Core.Option
use ngs3fs.Prelude.{
  ℕ, ◌+◌, Bool, true, false, ◌||◌, ◌&&◌, leb, ◌==◌, if◌then◌else◌, List, [], ◌∷◌, Option, none,
  some,
}

abbrev pub Text : Type 0
Text = List ℕ

-- An exception ends a `do` block.
infixl 5 ◌>>=◌
abbrev pub ◌>>=◌ {ℓ κ} : {A : Type ℓ} {B : Type κ} → Option A → (A → Option B) → Option B
none >>= f = none
some a >>= f = f a

-- The bytes of an ASCII literal.
abbrev pub bytes : String → Text
bytes String.[] = []
bytes (String.◌∷◌ c s) = code c ∷ bytes s

abbrev pub is_upper : ℕ → Bool
is_upper c = leb b'A' c && leb c b'Z'

abbrev pub is_lower : ℕ → Bool
is_lower c = leb b'a' c && leb c b'z'

abbrev pub is_digit : ℕ → Bool
is_digit c = leb b'0' c && leb c b'9'

abbrev pub is_alnum : ℕ → Bool
is_alnum c = is_digit c || (is_upper c || is_lower c)

abbrev pub is_xdigit : ℕ → Bool
is_xdigit c = is_digit c || (leb b'A' c && leb c b'F' || leb b'a' c && leb c b'f')

unfoldable pub to_lower : ℕ → ℕ
to_lower c = if is_upper c then c + 32 else c

unfoldable pub same_text : Text → Text → Bool
same_text [] [] = true
same_text [] (d ∷ ds) = false
same_text (c ∷ cs) [] = false
same_text (c ∷ cs) (d ∷ ds) = c == d && same_text cs ds

-- `starts_with`, and what is left behind the prefix.
unfoldable pub strip_prefix : Text → Text → Option Text
strip_prefix [] s = some s
strip_prefix (c ∷ cs) [] = none
strip_prefix (c ∷ cs) (d ∷ ds) = if c == d then strip_prefix cs ds else none

unfoldable pub contains : ℕ → Text → Bool
contains c [] = false
contains c (d ∷ ds) = d == c || contains c ds

-- `substr(0, find(c))`
unfoldable pub before : ℕ → Text → Text
before c [] = []
before c (d ∷ ds) = if d == c then [] else d ∷ before c ds

-- `back()` and the byte in front of it; 0 where there is none.
unfoldable pub last_byte : Text → ℕ
last_byte [] = 0
last_byte (c ∷ []) = c
last_byte (c ∷ d ∷ ds) = last_byte (d ∷ ds)

-- `find(c)` and the two `substr` round it: what is before the first `c`, and what is behind it.
unfoldable pub split_at : ℕ → Text → Option (Text × Text)
split_at c [] = none
split_at c (d ∷ ds) =
    if d == c then some ([], ds) else Option.map (λ (a, b). (d ∷ a, b)) (split_at c ds)

-- `ends_with`, and what is left in front of the suffix.
unfoldable pub strip_suffix : Text → Text → Option Text
strip_suffix suffix [] = if same_text [] suffix then some [] else none
strip_suffix suffix (c ∷ cs) =
    if same_text (c ∷ cs) suffix
    then some []
    else Option.map (λ (t : Text). c ∷ t) (strip_suffix suffix cs)
