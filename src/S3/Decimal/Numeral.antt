-- ===== src/S3/Decimal/Numeral.antt =====
-- The texts that `parse_unsigned` takes for a number.
use ngs3fs.Prelude.{
  ℕ, ◌+◌, ◌-◌, ◌*◌, ◌≤◌, ◌<◌, true, ltb, if◌then◌else◌, [], ◌∷◌, Option, none, some, word, ◌≡◌,
  refl, ap, arith, inl, inr, Bool-cases, lt→ltb,
}
use ngs3fs.S3.Text.{Text}
use ngs3fs.S3.Decimal.{in_base, read_digits, starts_with_digit, from_chars, at_end, parse_unsigned}
use ngs3fs.S3.Decimal.Round.{IsDigits}

-- Decimal digits that continue the number `acc` to the number `n`.
abbrev pub Continues : ℕ → Text → ℕ → Type 0
Continues acc [] n = acc ≡ n
Continues acc (c ∷ cs) n = (b'0' ≤ c) × (c ≤ b'9') × Continues (acc * 10 + (c - b'0')) cs n

-- One digit or more, with zeros in front or not, of a number that fits 64 bits.
abbrev pub IsNumeral : Text → ℕ → Type 0
IsNumeral [] n = ⊥
IsNumeral (c ∷ cs) n = Continues 0 (c ∷ cs) n × (n < word)

digit_bounds : (c : ℕ) → in_base 10 c ≡ true → (b'0' ≤ c) × (c ≤ b'9')
digit_bounds c h = ground arith

digit : (c : ℕ) → b'0' ≤ c → c ≤ b'9' → in_base 10 c ≡ true
digit c h k = ground arith

read_digits-Continues :
    (acc : ℕ) (t : Text) (n : ℕ) → read_digits 10 acc t ≡ (n, []) → Continues acc t n
unfolding read_digits
read_digits-Continues acc [] n h = ap (λ (p : ℕ × Text). p.0) h
read_digits-Continues acc (c ∷ cs) n h = elim (Bool-cases (in_base 10 c)) [
  | inl d ↦
      let (low, high) = digit_bounds c d in
      (low, high, read_digits-Continues (acc * 10 + (c - b'0')) cs n (rw d at h))
  | inr d ↦
      let stop : ◌≡◌ {A = ℕ × Text} (acc, c ∷ cs) (n, []) = rw d at h in
      absurd (cc (ap (λ (p : ℕ × Text). p.1) stop))
]

Continues-read_digits :
    (acc : ℕ) (t : Text) (n : ℕ) → Continues acc t n → read_digits 10 acc t ≡ (n, [])
unfolding read_digits
Continues-read_digits acc [] n h = ap (λ (m : ℕ). (m, [])) h
Continues-read_digits acc (c ∷ cs) n (low, high, h) =
    rw (digit c low high) (Continues-read_digits (acc * 10 + (c - b'0')) cs n h)

Continues-IsDigits : (acc : ℕ) (t : Text) (n : ℕ) → Continues acc t n → IsDigits t
Continues-IsDigits acc [] n h = tt
Continues-IsDigits acc (c ∷ cs) n (low, high, h) =
    (digit c low high, Continues-IsDigits (acc * 10 + (c - b'0')) cs n h)

pub IsNumeral-IsDigits : (t : Text) (n : ℕ) → IsNumeral t n → IsDigits t
IsNumeral-IsDigits [] n h = tt
IsNumeral-IsDigits (c ∷ cs) n h = Continues-IsDigits 0 (c ∷ cs) n h.0

at_end-read :
    (read : ℕ × Text) (n : ℕ)
    → at_end (if ltb read.0 word then some read else none) ≡ some n
    → (read ≡ (n, [])) × (n < word)
unfolding at_end
at_end-read (m, []) n h = elim (Bool-cases (ltb m word)) [
  | inl l ↦
      let e : some m ≡ some n = rw l at h in
      let same : m ≡ n = cc in (ap (λ (k : ℕ). (k, [])) same, ground (arith, l, same))
  | inr l ↦ let e : ◌≡◌ {A = Option ℕ} none (some n) = rw l at h in absurd (cc)
]
at_end-read (m, c ∷ cs) n h = elim (Bool-cases (ltb m word)) [
  | inl l ↦ let e : ◌≡◌ {A = Option ℕ} none (some n) = rw l at h in absurd (cc)
  | inr l ↦ let e : ◌≡◌ {A = Option ℕ} none (some n) = rw l at h in absurd (cc)
]

pub parse_unsigned-IsNumeral : (t : Text) (n : ℕ) → parse_unsigned t ≡ some n → IsNumeral t n
unfolding parse_unsigned from_chars starts_with_digit at_end
parse_unsigned-IsNumeral [] n h = absurd (cc)
parse_unsigned-IsNumeral (c ∷ cs) n h = elim (Bool-cases (in_base 10 c)) [
  | inl d ↦
      let (read, fits) = at_end-read (read_digits 10 0 (c ∷ cs)) n (rw d at h) in
      (read_digits-Continues 0 (c ∷ cs) n read, fits)
  | inr d ↦ let e : ◌≡◌ {A = Option ℕ} none (some n) = rw d at h in absurd (cc)
]

pub IsNumeral-parse_unsigned : (t : Text) (n : ℕ) → IsNumeral t n → parse_unsigned t ≡ some n
unfolding parse_unsigned from_chars starts_with_digit at_end
IsNumeral-parse_unsigned [] n h = absurd h
IsNumeral-parse_unsigned (c ∷ cs) n ((low, high, h), fits) =
    rw (digit c low high, Continues-read_digits 0 (c ∷ cs) n (low, high, h), lt→ltb n word fits)
      refl
