-- ===== src/S3/Decimal/Round.antt =====
-- A number that is printed is read back.
use mathlib.Core.Option
use mathlib.Core.List.{append_assoc, append-nil}
use ngs3fs.Prelude.{
  ℕ, zero, suc, ◌+◌, ◌-◌, ◌*◌, ◌/◌, ◌%◌, ◌<◌, true, false, ltb, ◌==◌, [], ◌∷◌, ◌++◌, Option, none,
  some, word, ◌≡◌, refl, ap, sym, ◌∙◌, arith, if_elim, lt→ltb,
}
use ngs3fs.S3.Text.{Text, split_at, same_text, strip_suffix, contains}
use ngs3fs.S3.Decimal.{
  in_base, read_digits, starts_with_digit, from_chars, at_end, parse_unsigned, print_digits,
  decimal,
}

-- Every byte is a decimal digit.
abbrev pub IsDigits : Text → Type 0
IsDigits [] = Unit {0}
IsDigits (c ∷ cs) = (in_base 10 c ≡ true) × IsDigits cs

IsDigits-append : (s t : Text) → IsDigits s → IsDigits t → IsDigits (s ++ t)
IsDigits-append [] t h k = k
IsDigits-append (c ∷ cs) t h k = (h.0, IsDigits-append cs t h.1 k)

-- The value of a text of digits, behind a value that is read already.
value : ℕ → Text → ℕ
value acc [] = acc
value acc (c ∷ cs) = value (acc * 10 + (c - b'0')) cs

value-append : (acc : ℕ) (s t : Text) → value acc (s ++ t) ≡ value (value acc s) t
unfolding value
value-append acc [] t = refl
value-append acc (c ∷ cs) t = value-append (acc * 10 + (c - b'0')) cs t

read_digits-value :
    (acc : ℕ) (s rest : Text)
    → IsDigits s
    → starts_with_digit 10 rest ≡ false
    → read_digits 10 acc (s ++ rest) ≡ (value acc s, rest)
unfolding value read_digits starts_with_digit
read_digits-value acc [] [] h k = refl
read_digits-value acc [] (c ∷ cs) h k = rw k refl
read_digits-value acc (c ∷ cs) rest h k =
    rw (h.0) (read_digits-value (acc * 10 + (c - b'0')) cs rest h.1 k)

print_digits-IsDigits : (fuel n : ℕ) → IsDigits (print_digits fuel n)
unfolding print_digits
print_digits-IsDigits zero n = tt
print_digits-IsDigits (suc fuel) n =
    if_elim IsDigits (ltb n 10) (λ l. (ground (arith, l), tt))
      (λ _.
        IsDigits-append (print_digits fuel (n / 10)) _ (print_digits-IsDigits fuel (n / 10))
          (ground arith, tt))

value-print_digits : (fuel n : ℕ) → n < fuel → value 0 (print_digits fuel n) ≡ n
unfolding value print_digits
value-print_digits zero n h = absurd (omega arith)
value-print_digits (suc fuel) n h =
    if_elim (λ t. value 0 t ≡ n) (ltb n 10) (λ _. omega arith)
      (λ l.
        value-append 0 (print_digits fuel (n / 10)) _
        ∙ ground (arith, l, value-print_digits fuel (n / 10)))

pub decimal-IsDigits : (n : ℕ) → IsDigits (decimal n)
unfolding decimal
decimal-IsDigits n = print_digits-IsDigits (suc n) n

starts-print_digits :
    (fuel n : ℕ) (rest : Text)
    → n < fuel
    → starts_with_digit 10 (print_digits fuel n ++ rest) ≡ true
unfolding print_digits starts_with_digit
starts-print_digits zero n rest h = absurd (omega arith)
starts-print_digits (suc fuel) n rest h =
    if_elim (λ t. starts_with_digit 10 (t ++ rest) ≡ true) (ltb n 10) (λ l. ground (arith, l))
      (λ l.
        ap (starts_with_digit 10)
          (append_assoc (print_digits fuel (n / 10)) ((b'0' + n % 10) ∷ []) rest)
        ∙ starts-print_digits fuel (n / 10) ((b'0' + n % 10) ∷ rest) (ground (arith, l)))

-- Reading what is printed in front of another byte, or of the end.
pub from_chars-decimal :
    (n : ℕ) (rest : Text)
    → n < word
    → starts_with_digit 10 rest ≡ false
    → from_chars 10 (decimal n ++ rest) ≡ some (n, rest)
unfolding from_chars decimal
from_chars-decimal n rest h k =
    let read : read_digits 10 0 (print_digits (suc n) n ++ rest) ≡ (n, rest) =
      read_digits-value 0 (print_digits (suc n) n) rest (print_digits-IsDigits (suc n) n) k
      ∙ ap (λ (v : ℕ). (v, rest)) (value-print_digits (suc n) n (omega arith)) in
    rw (starts-print_digits (suc n) n rest (omega arith), read, lt→ltb n word h) refl

pub parse_unsigned-decimal : (n : ℕ) → n < word → parse_unsigned (decimal n) ≡ some n
unfolding parse_unsigned at_end starts_with_digit
parse_unsigned-decimal n h =
    ap (λ (t : Text). at_end (from_chars 10 t)) (sym (append-nil (decimal n)))
    ∙ ap at_end (from_chars-decimal n [] h refl)

-- A byte that is no digit is found behind the digits, and not among them.
pub split_at-digits :
    (c : ℕ) (s rest : Text)
    → in_base 10 c ≡ false
    → IsDigits s
    → split_at c (s ++ c ∷ rest) ≡ some (s, rest)
unfolding split_at
split_at-digits c [] rest k h = ground arith
split_at-digits c (d ∷ ds) rest k h = rw (split_at-digits c ds rest k h.1) (ground (arith, k, h.0))

pub contains-digits : (c : ℕ) (s : Text) → in_base 10 c ≡ false → IsDigits s → contains c s ≡ false
unfolding contains
contains-digits c [] k h = refl
contains-digits c (d ∷ ds) k h = ground (arith, k, h.0, contains-digits c ds k h.1)

front_none : (o : Option Text) → o ≡ Option.map (λ (t : Text). [] ++ t) o
front_none none = refl
front_none (some t) = refl

front_both :
    (d : ℕ) (ds : Text) (o : Option Text)
    → Option.map (λ (t : Text). d ∷ t) (Option.map (λ (t : Text). ds ++ t) o)
      ≡ Option.map (λ (t : Text). (d ∷ ds) ++ t) o
front_both d ds none = refl
front_both d ds (some t) = refl

-- A suffix that begins with no digit is a suffix of what is behind the digits.
pub strip_suffix-digits :
    (c : ℕ) (suffix s rest : Text)
    → in_base 10 c ≡ false
    → IsDigits s
    → strip_suffix (c ∷ suffix) (s ++ rest)
      ≡ Option.map (λ (t : Text). s ++ t) (strip_suffix (c ∷ suffix) rest)
unfolding strip_suffix same_text
strip_suffix-digits c suffix [] rest k h = front_none (strip_suffix (c ∷ suffix) rest)
strip_suffix-digits c suffix (d ∷ ds) rest k h =
    let no : (d == c) ≡ false = ground (arith, k, h.0) in
    rw (no, strip_suffix-digits c suffix ds rest k h.1)
      (front_both d ds (strip_suffix (c ∷ suffix) rest))
