-- ===== src/S3/Path/Encode.antt =====
-- `uri_encode` yields valid request paths, and no two texts have one encoding.
use ngs3fs.Prelude.{
  ℕ, ◌+◌, ◌-◌, ◌*◌, ◌/◌, ◌%◌, ◌<◌, Bool, true, false, leb, ◌==◌, if◌then◌else◌, [], ◌∷◌, ◌≡◌, refl,
  arith, ap, sym, ◌∙◌, if_elim,
}
use ngs3fs.S3.Text.{Text, is_xdigit, contains}
use ngs3fs.S3.Path.{
  hex_digit, is_unreserved, uri_encode, is_control, is_plain, scan_path, starts_with_slash,
  is_encoded_request_path,
}

-- Every element is a byte.
abbrev pub IsBytes : Text → Type 0
IsBytes [] = Unit {0}
IsBytes (c ∷ cs) = (c < 256) × IsBytes cs

-- The value of a hexadecimal digit.
unfoldable pub hex_value : ℕ → ℕ
hex_value c = if leb c b'9' then c - b'0' else c - b'A' + 10

-- The reference: an escape stands for its byte, any other byte for itself.
unfoldable pub uri_decode : Text → Text
uri_decode [] = []
uri_decode (c ∷ []) = c ∷ []
uri_decode (c ∷ a ∷ []) = c ∷ a ∷ []
uri_decode (c ∷ a ∷ b ∷ rest) =
    let escaped = (hex_value a * 16 + hex_value b) ∷ uri_decode rest in
    let plain = c ∷ uri_decode (a ∷ b ∷ rest) in if c == b'%' then escaped else plain

unreserved-IsPlain :
    (slashes : Bool) (c : ℕ)
    → is_unreserved slashes c ≡ true
    → (is_plain c ≡ true) × ((c == b'%') ≡ false) × ((c == b'?') ≡ false)
unfolding is_unreserved is_plain is_control
unreserved-IsPlain slashes c h = ground arith

hex_digit_lem :
    (n : ℕ)
    → n < 16
    → (is_xdigit (hex_digit n) ≡ true)
      × ((hex_digit n == b'?') ≡ false)
      × (hex_value (hex_digit n) ≡ n)
unfolding hex_digit hex_value
hex_digit_lem n h = ground arith

scan_path-cons :
    (c : ℕ) (cs : Text)
    → is_plain c ≡ true
    → (c == b'%') ≡ false
    → scan_path (c ∷ cs) ≡ scan_path cs
unfolding scan_path
scan_path-cons c [] p q = rw p
scan_path-cons c (a ∷ []) p q = rw p
scan_path-cons c (a ∷ b ∷ rest) p q = rw (q, p)

uri_decode-cons :
    (c : ℕ) (cs : Text) → (c == b'%') ≡ false → uri_decode (c ∷ cs) ≡ c ∷ uri_decode cs
unfolding uri_decode
uri_decode-cons c [] q = refl
uri_decode-cons c (a ∷ []) q = refl
uri_decode-cons c (a ∷ b ∷ rest) q = rw q

scan_path-uri_encode :
    (cs : Text) (slashes : Bool) → IsBytes cs → scan_path (uri_encode cs slashes) ≡ true
unfolding uri_encode scan_path
scan_path-uri_encode [] slashes h = refl
scan_path-uri_encode (c ∷ cs) slashes h =
    if_elim (λ t. scan_path t ≡ true) (is_unreserved slashes c)
      (λ u.
        let (p, q, r) = unreserved-IsPlain slashes c u in
        scan_path-cons c (uri_encode cs slashes) p q ∙ scan_path-uri_encode cs slashes h.1)
      (λ _.
        rw ((hex_digit_lem (c / 16) (omega arith)).0, (hex_digit_lem (c % 16) (omega arith)).0)
          (scan_path-uri_encode cs slashes h.1))

contains-uri_encode :
    (cs : Text) (slashes : Bool) → IsBytes cs → contains b'?' (uri_encode cs slashes) ≡ false
unfolding uri_encode contains
contains-uri_encode [] slashes h = refl
contains-uri_encode (c ∷ cs) slashes h =
    if_elim (λ t. contains b'?' t ≡ false) (is_unreserved slashes c)
      (λ u.
        let (p, q, r) = unreserved-IsPlain slashes c u in rw r (contains-uri_encode cs slashes h.1))
      (λ _.
        rw ((hex_digit_lem (c / 16) (omega arith)).1, (hex_digit_lem (c % 16) (omega arith)).1)
          (contains-uri_encode cs slashes h.1))

-- A slash and the encoding of any bytes is a path that `is_encoded_request_path` accepts.
pub is_encoded_request_path-uri_encode :
    (key : Text) (slashes : Bool)
    → IsBytes key
    → is_encoded_request_path (b'/' ∷ uri_encode key slashes) ≡ true
unfolding is_encoded_request_path starts_with_slash contains is_plain is_control
is_encoded_request_path-uri_encode key slashes h =
    rw (contains-uri_encode key slashes h)
      (scan_path-cons b'/' (uri_encode key slashes) refl refl ∙ scan_path-uri_encode key slashes h)

uri_decode-uri_encode :
    (cs : Text) (slashes : Bool) → IsBytes cs → uri_decode (uri_encode cs slashes) ≡ cs
unfolding uri_encode uri_decode
uri_decode-uri_encode [] slashes h = refl
uri_decode-uri_encode (c ∷ cs) slashes h =
    if_elim (λ t. uri_decode t ≡ c ∷ cs) (is_unreserved slashes c)
      (λ u.
        let (p, q, r) = unreserved-IsPlain slashes c u in
        uri_decode-cons c (uri_encode cs slashes) q
        ∙ ap (λ t. c ∷ t) (uri_decode-uri_encode cs slashes h.1))
      (λ _.
        rw ((hex_digit_lem (c / 16) (omega arith)).2, (hex_digit_lem (c % 16) (omega arith)).2)
          (ground (arith, uri_decode-uri_encode cs slashes h.1)))

-- Two texts of bytes with one encoding are equal, whether or not slashes are kept.
pub uri_encode-injective :
    (x y : Text) (slashes : Bool)
    → IsBytes x
    → IsBytes y
    → uri_encode x slashes ≡ uri_encode y slashes
    → x ≡ y
uri_encode-injective x y slashes h k e =
    sym (uri_decode-uri_encode x slashes h) ∙ ap uri_decode e ∙ uri_decode-uri_encode y slashes k
