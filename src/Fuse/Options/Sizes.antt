-- ===== src/Fuse/Options/Sizes.antt =====
-- A number with a unit is read as their product, unless that does not fit 64 bits.
use mathlib.Core.Option
use mathlib.Core.List.{append-nil}
use native.Mathlib.Nat.{div-lt_iff_lt-mul}
use ngs3fs.Prelude.{
  ℕ, ◌-◌, ◌*◌, ◌/◌, ◌<◌, false, ltb, if◌then◌else◌, List, [], ◌∷◌, ◌++◌, Option, none, some, word,
  ◌≡◌, refl, arith, if_elim, ltb→lt,
}
use ngs3fs.S3.Text.{Text, same_text, strip_suffix}
use ngs3fs.S3.Decimal.{in_base, decimal}
use ngs3fs.S3.Decimal.Round.{
  IsDigits, decimal-IsDigits, parse_unsigned-decimal, strip_suffix-digits,
}
use ngs3fs.Fuse.Options.{units, first_some, strip_unit, scaled, parse_byte_size}

-- The number, if it fits 64 bits.
pub fitting : ℕ → Option ℕ
fitting n = if ltb n word then some n else none

scaled-fitting : (n m : ℕ) → 0 < m → scaled m (some n) ≡ fitting (n * m)
unfolding scaled fitting
scaled-fitting n m h =
    let (small, large) = div-lt_iff_lt-mul {k = m} {x = word - 1} {y = n} h in
    if_elim (λ (o : Option ℕ). o ≡ (if ltb (n * m) word then some (n * m) else none))
      (ltb ((word - 1) / m) n) (λ l. let big = small (ltb→lt _ _ l) in ground (arith, big))
      (λ l. ground (arith, l, large))

-- The unit's suffix does not begin with a digit.
abbrev IsLetters : List (Text × ℕ) → Type 0
IsLetters [] = Unit {0}
IsLetters (([], m) ∷ rest) = ⊥
IsLetters ((c ∷ cs, m) ∷ rest) = (in_base 10 c ≡ false) × IsLetters rest

abbrev in_front : Text → Text × ℕ → Text × ℕ
in_front s (t, m) = (s ++ t, m)

first_some-front :
    (s : Text) (o : Option Text) (m : ℕ) (r : Text × ℕ)
    → first_some (Option.map (λ (t : Text). s ++ t) o) m (in_front s r)
      ≡ in_front s (first_some o m r)
unfolding first_some
first_some-front s none m r = refl
first_some-front s (some t) m r = refl

strip_unit-front :
    (us : List (Text × ℕ)) (s suffix : Text)
    → IsLetters us
    → IsDigits s
    → strip_unit us (s ++ suffix) ≡ in_front s (strip_unit us suffix)
unfolding strip_unit
strip_unit-front [] s suffix l h = refl
strip_unit-front (([], m) ∷ rest) s suffix l h = elim l [ ]
strip_unit-front ((c ∷ cs, m) ∷ rest) s suffix l h =
    rw (strip_suffix-digits c cs s suffix (l.0) h, strip_unit-front rest s suffix l.1 h)
      (first_some-front s (strip_suffix (c ∷ cs) suffix) m (strip_unit rest suffix))

units-IsLetters : IsLetters units
units-IsLetters = ground arith

-- A suffix that is wholly a unit.
abbrev IsUnit : Text × ℕ → Type 0
IsUnit (suffix, m) = (0 < m) × (strip_unit units suffix ≡ ([], m))

unit_size :
    (n : ℕ) (u : Text × ℕ)
    → n < word
    → IsUnit u
    → parse_byte_size (decimal n ++ u.0) ≡ fitting (n * u.1)
unfolding parse_byte_size
unit_size n (suffix, m) h (pos, whole) =
    rw
      (
        strip_unit-front units (decimal n) suffix units-IsLetters (decimal-IsDigits n),
        whole,
        append-nil (decimal n),
        parse_unsigned-decimal n h,
      )
      (scaled-fitting n m pos)

-- What holds of every unit, and of none.
abbrev pub EachUnit : (Text × ℕ → Type 0) → List (Text × ℕ) → Type 0
EachUnit P [] = Unit {0}
EachUnit P (u ∷ rest) = P u × EachUnit P rest

EachUnit-map :
    (P Q : Text × ℕ → Type 0) (us : List (Text × ℕ))
    → ((u : Text × ℕ) → P u → Q u)
    → EachUnit P us
    → EachUnit Q us
EachUnit-map P Q [] f h = tt
EachUnit-map P Q (u ∷ rest) f h = (f u h.0, EachUnit-map P Q rest f h.1)

all_units : EachUnit IsUnit (([], 1) ∷ units)
unfolding strip_unit first_some strip_suffix same_text
all_units = ground arith

-- A decimal number below 2 ^ 64, with one of the units or with none, is read as the number times
-- the unit's factor if that is below 2 ^ 64, and is refused otherwise.
pub parse_byte_size-decimal :
    (n : ℕ)
    → n < word
    → EachUnit (λ u. parse_byte_size (decimal n ++ u.0) ≡ fitting (n * u.1)) (([], 1) ∷ units)
parse_byte_size-decimal n h =
    EachUnit-map IsUnit _ (([], 1) ∷ units) (λ u. unit_size n u h) all_units
