-- ===== src/Credentials/Expiration/Agree.antt =====
-- The two parsers of times agree: credentials expire at what S3 would read as that time.
use ngs3fs.Prelude.{
  ℕ, zero, suc, ◌+◌, ◌-◌, ◌*◌, ◌≤◌, Bool, true, false, ◌==◌, if◌then◌else◌, Option, none, some,
  get_or, length, ◌≡◌, refl, arith, ap, sym, ◌∙◌, inl, inr, Bool-cases, ==_iff,
}
use ngs3fs.Prelude.Int.{ℤ, pos, negsuc, ◌+ℤ◌, scale, Is, Is-add, Is-move, Is-unique}
use ngs3fs.S3.Text.{Text, last_byte, ◌>>=◌}
use ngs3fs.S3.Time.{fixed_decimal, fits_time, utc_time, out_of_range, civil_days, adjusted_month}
use ngs3fs.S3.Mtime.{digits_from, is_s3_format, is_s3_zone, s3_fields, parse_s3_mtime}
use ngs3fs.Credentials.Expiration.{
  days_from_civil, number, is_out, skip_digits, fraction_end, is_utc, checked_time,
  expiration_fields, parse_expiration, is_expiration_format,
}
use ngs3fs.Credentials.Expiration.Digits.{
  number-fixed_decimal, skip_digits-digits_from, last_byte-get_or,
}

-- The end of the seconds or of their fraction, with the Z behind it.
abbrev Ends : Text → Type 0
Ends s = (end : ℕ) × (fraction_end s ≡ some end) × (is_utc s end ≡ true)

whole-Ends : (s : Text) → length s ≡ 20 → get_or s 19 0 ≡ b'Z' → Ends s
unfolding fraction_end is_utc
whole-Ends s len z = (19, ground (arith, len, z), ground (arith, len, z))

fraction-Ends :
    (s : Text)
    → 20 ≤ length s
    → get_or s 19 0 ≡ b'.'
    → last_byte s ≡ b'Z'
    → (length s == 21) ≡ false
    → digits_from s 20 (length s - 21) ≡ true
    → Ends s
unfolding fraction_end is_utc
fraction-Ends s room dot z some_digit all =
    let at_last = last_byte-get_or s (length s - 1) (omega (arith, room)) in
    let last : get_or s (length s - 1) 0 ≡ b'Z' = sym at_last ∙ z in
    let long = not_twenty (length s) last (ground (arith, some_digit)) room in
    let end : 20 + (length s - 21) ≡ length s - 1 = omega (arith, long) in
    let there : get_or s (20 + (length s - 21)) 0 ≡ b'Z' =
      ap (λ (t : ℕ). get_or s t 0) end ∙ last in
    let skip =
      skip_digits-digits_from (length s) s 20 (length s - 21) (omega arith) (omega (arith, long))
        all (ground (arith, there)) in
    (20 + (length s - 21), rw skip (ground (arith, dot, long)), ground (arith, there, long))
  where
    not_twenty : (l : ℕ) → get_or s (l - 1) 0 ≡ b'Z' → (l == 21) ≡ false → 20 ≤ l → 22 ≤ l
    not_twenty l last other low = elim (Bool-cases (l == 20)) [
      | inl t ↦
          let twenty : l - 1 ≡ 19 = omega (arith, (==_iff l 20).0 t) in
          let both = sym dot ∙ ap (λ (t : ℕ). get_or s t 0) (sym twenty) ∙ last in
          absurd (omega (arith, both))
      | inr f ↦ ground (arith, f, other, low)
    ]

zone-Ends : (s : Text) → 20 ≤ length s → is_s3_zone s ≡ true → Ends s
unfolding is_s3_zone
zone-Ends s room zone = elim (Bool-cases (get_or s 19 0 == b'.')) [
  | inl dot ↦
      fraction-Ends s room ((==_iff (get_or s 19 0) b'.').0 dot) (ground (arith, zone, dot))
        (ground (arith, zone, dot)) (ground (arith, zone, dot))
  | inr other ↦ whole-Ends s (ground (arith, zone, other)) (ground (arith, zone, other))
]

same_era : (a : ℤ) → ngs3fs.S3.Time.era_of a ≡ ngs3fs.Credentials.Expiration.era_of a
unfolding ngs3fs.S3.Time.era_of ngs3fs.Credentials.Expiration.era_of
same_era (pos a) = refl
same_era (negsuc a) = refl

same_year : (a : ℤ) → ngs3fs.S3.Time.year_of_era a ≡ ngs3fs.Credentials.Expiration.year_of_era a
unfolding ngs3fs.S3.Time.year_of_era ngs3fs.Credentials.Expiration.year_of_era
same_year (pos a) = refl
same_year (negsuc a) = refl

same_days : (y : ℤ) (m d : ℕ) → days_from_civil y m d ≡ civil_days y m d
unfolding days_from_civil civil_days adjusted_month
same_days y m d = rw (same_era, same_year) refl

add_three_of :
    (x : ℤ) (i j a b c : ℕ) → Is x i j → x +ℤ pos a +ℤ pos b +ℤ pos c ≡ x +ℤ pos (a + b + c)
add_three_of x i j a b c h =
    let zero_more : j + 0 ≡ j = omega arith in
    let exact : (n : ℕ) → Is (pos n) n 0 = λ n. omega arith in
    let one = Is-add x (pos a) i j a 0 h (exact a) in
    let two = Is-add (x +ℤ pos a) (pos b) (i + a) (j + 0) b 0 one (exact b) in
    let three = Is-add (x +ℤ pos a +ℤ pos b) (pos c) (i + a + b) (j + 0 + 0) c 0 two (exact c) in
    Is-unique (x +ℤ pos a +ℤ pos b +ℤ pos c) (x +ℤ pos (a + b + c)) (i + (a + b + c)) (j + 0)
      (Is-move _ (i + a + b + c) (j + 0 + 0 + 0) (i + (a + b + c)) (j + 0) (omega arith) three)
      (Is-add x (pos (a + b + c)) i j (a + b + c) 0 h (exact (a + b + c)))

add_three : (x : ℤ) (a b c : ℕ) → x +ℤ pos a +ℤ pos b +ℤ pos c ≡ x +ℤ pos (a + b + c)
add_three (pos n) a b c = add_three_of (pos n) n 0 a b c (omega arith)
add_three (negsuc n) a b c = add_three_of (negsuc n) 0 (suc n) a b c (omega arith)

in_range :
    (y m d h n z : ℕ) → 1970 ≤ y → out_of_range y m d h n z ≡ false → is_out y m d h n z ≡ false
unfolding out_of_range is_out ngs3fs.S3.Time.days_in_month ngs3fs.S3.Time.leap_year
    ngs3fs.Credentials.Expiration.leap_year
in_range y zero d h n z late f = absurd (ground (arith, f))
in_range y (suc m) d h n z late f =
    let same : suc m - 1 ≡ m = omega arith in let f' = rw same at f in ground (arith, late, f')

-- A date and a time that S3 accepts are accepted for an expiration, as the same time.
checked_time-utc_time :
    (s : Text) (y m d h n z : ℕ) (t : ℤ)
    → Ends s
    → 1970 ≤ y
    → utc_time y m d h n z ≡ some t
    → checked_time s y m d h n z ≡ some t
unfolding checked_time utc_time
checked_time-utc_time s y m d h n z t (end, ends, utc) late e =
    elim (Bool-cases (out_of_range y m d h n z)) [
      | inl out ↦ absurd (ground (arith, out, e))
      | inr f ↦
          let seconds : ℤ = scale (civil_days (pos y) m d) 86400 +ℤ pos (h * 3600 + n * 60 + z) in
          let e' = rw f at e in
          rw (in_range y m d h n z late f, ends, utc)
            (ap some (
                ap (λ (x : ℤ). scale x 86400 +ℤ pos (h * 3600) +ℤ pos (n * 60) +ℤ pos z)
                  (same_days (pos y) m d)
                ∙ add_three (scale (civil_days (pos y) m d) 86400) (h * 3600) (n * 60) z)
              ∙ fitting (fits_time seconds) seconds e')
    ]
  where
    fitting : (b : Bool) (x : ℤ) → (if b then some x else none) ≡ some t → some x ≡ some t
    fitting true x e = e
    fitting false x e = absurd (cc)

bind_some :
    {A B : Type 0} (x : Option A) (f : A → Option B) (b : B)
    → (x >>= f) ≡ some b
    → (a : A) × (x ≡ some a) × (f a ≡ some b)
bind_some none f b e = absurd (cc)
bind_some (some a) f b e = (a, refl, e)

-- The six numbers of a time.
fields_agree :
    (s : Text) (t : ℤ) (y : ℕ)
    → Ends s
    → fixed_decimal s 0 4 ≡ some y
    → 1970 ≤ y
    → s3_fields s ≡ some t
    → expiration_fields s ≡ some t
unfolding s3_fields expiration_fields
fields_agree s t y ends year late e0 =
    let (y', year', e1) = bind_some (fixed_decimal s 0 4) _ t e0 in
    let (m, month, e2) = bind_some (fixed_decimal s 5 2) _ t e1 in
    let (d, day, e3) = bind_some (fixed_decimal s 8 2) _ t e2 in
    let (h, hour, e4) = bind_some (fixed_decimal s 11 2) _ t e3 in
    let (n, minute, e5) = bind_some (fixed_decimal s 14 2) _ t e4 in
    let (z, second, e6) = bind_some (fixed_decimal s 17 2) _ t e5 in
    let same : y ≡ y' = ground (arith, year, year') in
    rw
      (
        number-fixed_decimal s 0 3 y' (omega arith) year',
        number-fixed_decimal s 5 1 m (omega arith) month,
        number-fixed_decimal s 8 1 d (omega arith) day,
        number-fixed_decimal s 11 1 h (omega arith) hour,
        number-fixed_decimal s 14 1 n (omega arith) minute,
        number-fixed_decimal s 17 1 z (omega arith) second,
      )
      (checked_time-utc_time s y' m d h n z t ends (omega (arith, same, late)) e6)

-- A text that `parse_s3_mtime` reads as a time in a year from 1970 on is read as the same time by
-- `parse_expiration`.
pub parse_expiration-parse_s3_mtime :
    (s : Text) (t : ℤ) (y : ℕ)
    → fixed_decimal s 0 4 ≡ some y
    → 1970 ≤ y
    → parse_s3_mtime s ≡ some t
    → parse_expiration s ≡ some t
unfolding parse_s3_mtime parse_expiration is_s3_format is_expiration_format
parse_expiration-parse_s3_mtime s t y year late e = elim (Bool-cases (is_s3_format s)) [
  | inr f ↦ absurd (ground (arith, f, e))
  | inl f ↦ elim (Bool-cases (is_s3_zone s)) [
    | inr z ↦ absurd (ground (arith, f, z, e))
    | inl z ↦
        let format : is_expiration_format s ≡ true = ground (arith, f) in
        let fields : s3_fields s ≡ some t = ground (arith, f, z, e) in
        rw format (fields_agree s t y (zone-Ends s (ground (arith, f)) z) year late fields)
  ]
]
