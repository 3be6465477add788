-- ===== src/Credentials/Expiration/Digits.antt =====
-- The digits of a time are read alike by both parsers.
use native.Mathlib.Nat.{pow-suc, mul-le-mul_right}
use ngs3fs.Prelude.{
  ℕ, zero, suc, ◌+◌, ◌-◌, ◌*◌, ◌^◌, ◌≤◌, ◌<◌, true, false, ltb, [], ◌∷◌, some, get_or, length, drop,
  ◌≡◌, refl, arith, ap, sym, ◌∙◌, inl, inr, Bool-cases, word,
}
use ngs3fs.S3.Text.{Text, is_digit, last_byte}
use ngs3fs.S3.Decimal.{in_base, read_digits, starts_with_digit, from_chars, at_end, parse_unsigned}
use ngs3fs.S3.Time.{decimal_loop, fixed_decimal}
use ngs3fs.S3.Mtime.{substr, digits_from}
use ngs3fs.Credentials.Expiration.{number, skip_digits}

-- A text from a position on, by its first character.
drop_cons : (s : Text) (p : ℕ) → p < length s → drop p s ≡ get_or s p 0 ∷ drop (p + 1) s
drop_cons [] p h = absurd (omega arith)
drop_cons (c ∷ s) zero h = refl
drop_cons (c ∷ s) (suc p) h =
    let next : suc p + 1 ≡ suc (p + 1) = omega arith in rw next (drop_cons s p (omega arith))

-- The digits that the loop reads are those that `from_chars` reads.
decimal_loop-read_digits :
    (s : Text) (p n value v : ℕ)
    → p + n ≤ length s
    → decimal_loop s p n value ≡ some v
    → read_digits 10 value (substr s p n) ≡ (v, [])
unfolding decimal_loop read_digits
decimal_loop-read_digits s p zero value v h e =
    let same : value ≡ v = ground (arith, e) in ap (λ t. (t, [])) same
decimal_loop-read_digits s p (suc n) value v h e = elim (Bool-cases (is_digit (get_or s p 0))) [
  | inl t ↦
      let digit : in_base 10 (get_or s p 0) ≡ true = ground (arith, t) in
      let rest =
        decimal_loop-read_digits s (p + 1) n (value * 10 + (get_or s p 0 - b'0')) v
          (omega (arith, h)) (rw t at e) in
      rw (drop_cons s p (omega (arith, h)), digit) rest
  | inr f ↦ absurd (ground (arith, f, e))
]

-- The value has no more digits than were read.
decimal_loop_max :
    (s : Text) (p n value v : ℕ) → decimal_loop s p n value ≡ some v → v < (value + 1) * 10 ^ n
unfolding decimal_loop
decimal_loop_max s p zero value v e =
    let same : value ≡ v = ground (arith, e) in omega (arith, same)
decimal_loop_max s p (suc n) value v e = elim (Bool-cases (is_digit (get_or s p 0))) [
  | inl t ↦
      let rest = decimal_loop_max s (p + 1) n (value * 10 + (get_or s p 0 - b'0')) v (rw t at e) in
      let low : get_or s p 0 - b'0' ≤ 9 = ground (arith, t) in
      let part = mul-le-mul_right (10 ^ n) low in
      omega (arith, rest, part, ap (λ (t : ℕ). (value + 1) * t) (pow-suc 10 n))
  | inr f ↦ absurd (ground (arith, f, e))
]

starts :
    (s : Text) (p n v : ℕ)
    → p < length s
    → decimal_loop s p (suc n) 0 ≡ some v
    → starts_with_digit 10 (substr s p (suc n)) ≡ true
unfolding starts_with_digit decimal_loop
starts s p n v h e = elim (Bool-cases (is_digit (get_or s p 0))) [
  | inl t ↦ rw (drop_cons s p h) (ground (arith, t))
  | inr f ↦ absurd (ground (arith, f, e))
]

-- A number of fixed width is one for both.
pub number-fixed_decimal :
    (s : Text) (p n v : ℕ)
    → 10 ^ suc n ≤ word
    → fixed_decimal s p (suc n) ≡ some v
    → number s p (suc n) ≡ some v
unfolding fixed_decimal number parse_unsigned from_chars at_end
number-fixed_decimal s p n v small e = elim (Bool-cases (ltb (length s) (p + suc n))) [
  | inl t ↦ absurd (ground (arith, t, e))
  | inr f ↦
      let room : p + suc n ≤ length s = ground (arith, f) in
      let loop : decimal_loop s p (suc n) 0 ≡ some v = rw f at e in
      let digits = decimal_loop-read_digits s p (suc n) 0 v room loop in
      let low = decimal_loop_max s p (suc n) 0 v loop in
      let fits : ltb v word ≡ true = ground (arith, low, small) in
      rw (starts s p n v (omega (arith, room)) loop, digits, fits) refl
]

pub skip_digits-digits_from :
    (fuel : ℕ) (s : Text) (i n : ℕ)
    → n ≤ fuel
    → i + n < length s
    → digits_from s i n ≡ true
    → is_digit (get_or s (i + n) 0) ≡ false
    → skip_digits fuel s i ≡ i + n
unfolding skip_digits digits_from
skip_digits-digits_from zero s i zero few room all stop = omega arith
skip_digits-digits_from zero s i (suc n) few room all stop = absurd (omega (arith, few))
skip_digits-digits_from (suc fuel) s i zero few room all stop =
    let here : i + 0 ≡ i = omega arith in
    let no : is_digit (get_or s i 0) ≡ false =
      ap (λ t. is_digit (get_or s t 0)) (sym here) ∙ stop in
    ground (arith, no)
skip_digits-digits_from (suc fuel) s i (suc n) few room all stop =
    let next : i + 1 + n ≡ i + suc n = omega arith in
    let rest =
      skip_digits-digits_from fuel s (i + 1) n (omega (arith, few)) (omega (arith, room))
        (ground (arith, all)) (ap (λ t. is_digit (get_or s t 0)) next ∙ stop) in
    ground (arith, rest, all, room)

pub last_byte-get_or : (s : Text) (k : ℕ) → length s ≡ suc k → last_byte s ≡ get_or s k 0
unfolding last_byte
last_byte-get_or [] k h = absurd (omega (arith, h))
last_byte-get_or (c ∷ []) zero h = refl
last_byte-get_or (c ∷ []) (suc k) h = absurd (omega (arith, h))
last_byte-get_or (c ∷ d ∷ s) zero h = absurd (omega (arith, h))
last_byte-get_or (c ∷ d ∷ s) (suc k) h = last_byte-get_or (d ∷ s) k (omega (arith, h))
