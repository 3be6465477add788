-- ===== src/S3/Range/Exact.antt =====
-- A `Content-Range` is accepted exactly if it names the bytes that were asked for.
use ngs3fs.Prelude.{
  ℕ, ◌+◌, ◌-◌, ◌<◌, Bool, true, false, ◌&&◌, ◌==◌, [], ◌∷◌, ◌++◌, Option, none, some, ◌≡◌, ◌↔◌, ◌⊎◌,
  inl, inr, refl, arith, ◌∙◌, ap, Bool-cases, Option-cases,
}
use ngs3fs.S3.Text.{Text, bytes, strip_prefix, split_at, contains}
use ngs3fs.S3.Text.Prefix.{strip_prefix-text, strip_prefix-append}
use ngs3fs.S3.Decimal.{parse_unsigned}
use ngs3fs.S3.Decimal.Numeral.{
  IsNumeral, IsNumeral-IsDigits, parse_unsigned-IsNumeral, IsNumeral-parse_unsigned,
}
use ngs3fs.S3.Decimal.Round.{split_at-digits, contains-digits}
use ngs3fs.S3.Range.{
  Response, is_range, is_rest, is_numbers, behind_bytes, s3_content_range_matches,
  content_range_matches, cache_response_matches, no_text,
}

-- A header that says: the bytes from `offset` on, as many as `length`, of an object of the size.
-- The numbers may have zeros in front.
pub record NamesRange (header : Text) (offset length size : ℕ) : Type 0 where
  pub first : Text
  pub last : Text
  pub total : Text
  pub not_empty : 0 < length
  pub text : header ≡ bytes "bytes " ++ (first ++ b'-' ∷ (last ++ b'/' ∷ total))
  pub first_byte : IsNumeral first offset
  pub last_byte : IsNumeral last (offset + length - 1)
  pub object_size : IsNumeral total size

-- What stands before and behind the byte that is found.
split_at-text : (c : ℕ) (s a b : Text) → split_at c s ≡ some (a, b) → s ≡ a ++ c ∷ b
unfolding split_at
split_at-text c [] a b h = absurd (cc)
split_at-text c (d ∷ ds) a b h = elim (Bool-cases (d == c)) [
  | inl e ↦
      let here : ◌≡◌ {A = Option (Text × Text)} (some ([], ds)) (some (a, b)) = rw e at h in
      let same : d ≡ c = ground (arith, e) in ground (arith, here, same)
  | inr e ↦ elim (Option-cases (split_at c ds)) [
    | inl q ↦
        let none_here : ◌≡◌ {A = Option (Text × Text)} none (some (a, b)) = rw (e, q) at h in
        absurd (cc)
    | inr ((a', b'), q) ↦
        let here : ◌≡◌ {A = Option (Text × Text)} (some (d ∷ a', b')) (some (a, b)) =
          rw (e, q) at h in
        let rest = split_at-text c ds a' b' q in ground (arith, here, rest)
  ]
]

-- The numbers that pass the tests.
is_range_numbers :
    (offset length size : ℕ) (first last total : Option ℕ)
    → 0 < length
    → is_range offset length size first last total ≡ true
    → (first ≡ some offset) × (last ≡ some (offset + length - 1)) × (total ≡ some size)
unfolding is_range
is_range_numbers offset length size none last total l h = absurd (cc)
is_range_numbers offset length size (some first) none total l h = absurd (cc)
is_range_numbers offset length size (some first) (some last) none l h = absurd (cc)
is_range_numbers offset length size (some first) (some last) (some total) l h =
    let numbers : (first ≡ offset) × (last ≡ offset + length - 1) × (total ≡ size) = ground arith in
    (ap some (numbers.0), ap some (numbers.1), ap some (numbers.2))

numbers-is_range :
    (offset length size : ℕ)
    → 0 < length
    → is_range offset length size (some offset) (some (offset + length - 1)) (some size) ≡ true
unfolding is_range
numbers-is_range offset length size l = ground arith

is_numbers-NamesRange :
    (header value : Text) (offset length size : ℕ) (split : Option (Text × Text))
    → 0 < length
    → header ≡ bytes "bytes " ++ value
    → split_at b'-' value ≡ split
    → is_numbers offset length size split ≡ true
    → NamesRange header offset length size
unfolding is_numbers is_rest
is_numbers-NamesRange header value offset length size none l e s h = absurd (cc)
is_numbers-NamesRange header value offset length size (some (first, rest)) l e s h =
    behind (split_at b'/' rest) refl h
  where
    behind :
        (at : Option (Text × Text))
        → split_at b'/' rest ≡ at
        → is_rest offset length size first at ≡ true
        → NamesRange header offset length size
    behind none q h = absurd (cc)
    behind (some (last, total)) q h = elim (Bool-cases (contains b'/' total)) [
      | inl c ↦ let no : ◌≡◌ {A = Bool} false true = rw c at h in absurd (cc)
      | inr c ↦
          let (f, t, o) =
            is_range_numbers offset length size (parse_unsigned first) (parse_unsigned last)
              (parse_unsigned total) l (rw c at h) in
          record {
            first = first;
            last = last;
            total = total;
            not_empty = l;
            text =
                e
                ∙ ap (λ (t : Text). bytes "bytes " ++ t)
                    (split_at-text b'-' value first rest s
                      ∙ ap (λ (t : Text). first ++ b'-' ∷ t)
                          (split_at-text b'/' rest last total q));
            first_byte = parse_unsigned-IsNumeral first offset f;
            last_byte = parse_unsigned-IsNumeral last (offset + length - 1) t;
            object_size = parse_unsigned-IsNumeral total size o;
          }
    ]

s3_content_range_matches-NamesRange :
    (header : Text) (offset length size : ℕ)
    → s3_content_range_matches header offset length size ≡ true
    → NamesRange header offset length size
unfolding s3_content_range_matches behind_bytes
s3_content_range_matches-NamesRange header offset length size h = elim (Bool-cases (length == 0)) [
  | inl z ↦ let no : ◌≡◌ {A = Bool} false true = rw z at h in absurd (cc)
  | inr z ↦ elim (Option-cases (strip_prefix (bytes "bytes ") header)) [
    | inl q ↦ let no : ◌≡◌ {A = Bool} false true = rw (z, q) at h in absurd (cc)
    | inr (value, q) ↦
        is_numbers-NamesRange header value offset length size (split_at b'-' value)
          (ground (arith, z)) (strip_prefix-text (bytes "bytes ") header value q) refl
          (rw (z, q) at h)
  ]
]

NamesRange-s3_content_range_matches :
    (header : Text) (offset length size : ℕ)
    → NamesRange header offset length size
    → s3_content_range_matches header offset length size ≡ true
unfolding s3_content_range_matches behind_bytes is_numbers is_rest
NamesRange-s3_content_range_matches header offset length size n =
    let some_bytes : (length == 0) ≡ false = ground (arith, n.not_empty) in
    ap (λ (t : Text). s3_content_range_matches t offset length size) n.text
    ∙ rw
        (
          some_bytes,
          strip_prefix-append (bytes "bytes ") (n.first ++ b'-' ∷ (n.last ++ b'/' ∷ n.total)),
          split_at-digits b'-' n.first (n.last ++ b'/' ∷ n.total) refl
              (IsNumeral-IsDigits n.first offset n.first_byte),
          split_at-digits b'/' n.last n.total refl
              (IsNumeral-IsDigits n.last (offset + length - 1) n.last_byte),
          contains-digits b'/' n.total refl (IsNumeral-IsDigits n.total size n.object_size),
          IsNumeral-parse_unsigned n.first offset n.first_byte,
          IsNumeral-parse_unsigned n.last (offset + length - 1) n.last_byte,
          IsNumeral-parse_unsigned n.total size n.object_size,
        )
        (numbers-is_range offset length size n.not_empty)

no_text-NamesRange :
    (header : Text) (offset length size : ℕ)
    → NamesRange header offset length size
    → no_text header ≡ false
unfolding no_text
no_text-NamesRange header offset length size n = ap no_text n.text

-- A 206 that names the bytes, or a 200 for the whole object.
abbrev Names : Response → ℕ → ℕ → ℕ → Type 0
Names response offset length size =
    ((response.status ≡ 206) × NamesRange response.content_range offset length size)
    ⊎ ((response.status ≡ 200) × (offset ≡ 0) × (length ≡ size))

content_range_matches-Names :
    (response : Response) (offset length size : ℕ)
    → content_range_matches response offset length size ≡ true
    → Names response offset length size
unfolding content_range_matches
content_range_matches-Names response offset length size h =
    elim (Bool-cases (response.status == 206)) [
      | inl p ↦ elim (Bool-cases (no_text response.content_range)) [
        | inl e ↦ let no : ◌≡◌ {A = Bool} false true = rw (p, e) at h in absurd (cc)
        | inr e ↦ inl (
          ground (arith, p),
          s3_content_range_matches-NamesRange response.content_range offset length size
              (rw (p, e) at h),
        )
      ]
      | inr p ↦
          let whole : ((response.status == 200) && ((offset == 0) && (length == size))) ≡ true =
            rw p at h in
          inr (ground (arith, whole))
    ]

Names-content_range_matches :
    (response : Response) (offset length size : ℕ)
    → Names response offset length size
    → content_range_matches response offset length size ≡ true
unfolding content_range_matches
Names-content_range_matches response offset length size (inl (p, n)) =
    let is_partial : (response.status == 206) ≡ true = ground arith in
    rw (is_partial, no_text-NamesRange response.content_range offset length size n)
      (NamesRange-s3_content_range_matches response.content_range offset length size n)
Names-content_range_matches response offset length size (inr (p, a, b)) = ground arith

-- A response is cached for a claim exactly if its body has the claim's length and it is either a
-- 206 whose header is `bytes`, a space, the first and the last byte of the claim with a dash between
-- them, a slash and the size of the object, or a 200 for a claim of the whole object. The numbers
-- are below 2 ^ 64, may have zeros in front, and nothing else stands in the header; a 206 without
-- such a header and a status that is neither are refused, and so is a 206 for an empty claim.
pub cache_response_matches_iff :
    (response : Response) (offset length size : ℕ)
    → (cache_response_matches response offset length size ≡ true) ↔ (
        (response.body_bytes ≡ length)
        × (((response.status ≡ 206) × NamesRange response.content_range offset length size)
            ⊎ ((response.status ≡ 200) × (offset ≡ 0) × (length ≡ size))))
unfolding cache_response_matches
cache_response_matches_iff response offset length size = (
  λ h.
      let body : response.body_bytes ≡ length = ground arith in
      let range : content_range_matches response offset length size ≡ true = ground arith in
      (body, content_range_matches-Names response offset length size range),
  λ n.
      let range = Names-content_range_matches response offset length size n.1 in
      let body : (response.body_bytes == length) ≡ true = ground (arith, n.0) in
      rw (range, body) refl,
)
