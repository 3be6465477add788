-- ===== src/Fuse/Names/Decode.antt =====
-- What `uri_encode` writes, `percent_decode` reads.
use ngs3fs.Prelude.{
  ℕ, ◌/◌, ◌%◌, ◌<◌, Bool, true, false, ◌&&◌, ◌==◌, [], ◌∷◌, some, ◌≡◌, refl, arith, ap, ◌∙◌,
  if_elim,
}
use ngs3fs.Prelude.Table.{passes, passes_at}
use ngs3fs.S3.Text.{Text, is_xdigit}
use ngs3fs.S3.Path.{uri_encode, is_unreserved, hex_digit}
use ngs3fs.S3.Path.Encode.{IsBytes}
use ngs3fs.Fuse.Names.{hex_value, put_byte, percent_decode}

hex_table : passes (λ n. (hex_value (hex_digit n) == n) && is_xdigit (hex_digit n)) 16 ≡ true
unfolding passes hex_value hex_digit
hex_table = refl

hex_value-hex_digit :
    (n : ℕ) → n < 16 → (hex_value (hex_digit n) ≡ n) × (is_xdigit (hex_digit n) ≡ true)
hex_value-hex_digit n h =
    let t : ((hex_value (hex_digit n) == n) && is_xdigit (hex_digit n)) ≡ true =
      passes_at (λ n. (hex_value (hex_digit n) == n) && is_xdigit (hex_digit n)) 16 n h hex_table in
    ground (arith, t)

unreserved-plain : (slashes : Bool) (c : ℕ) → is_unreserved slashes c ≡ true → (c == b'%') ≡ false
unfolding is_unreserved
unreserved-plain slashes c h = ground (arith, h)

percent_decode-cons :
    (c : ℕ) (cs : Text)
    → (c == b'%') ≡ false
    → percent_decode (c ∷ cs) ≡ put_byte c (percent_decode cs)
unfolding percent_decode put_byte
percent_decode-cons c [] q = rw q refl
percent_decode-cons c (a ∷ []) q = rw q refl
percent_decode-cons c (a ∷ b ∷ rest) q = rw q refl

-- Decoding the encoding of any bytes gives the bytes back, whether or not slashes are kept.
pub percent_decode-uri_encode :
    (cs : Text) (slashes : Bool) → IsBytes cs → percent_decode (uri_encode cs slashes) ≡ some cs
unfolding uri_encode percent_decode put_byte
percent_decode-uri_encode [] slashes h = refl
percent_decode-uri_encode (c ∷ cs) slashes h =
    if_elim (λ t. percent_decode t ≡ some (c ∷ cs)) (is_unreserved slashes c)
      (λ u.
        percent_decode-cons c (uri_encode cs slashes) (unreserved-plain slashes c u)
        ∙ ap (put_byte c) (percent_decode-uri_encode cs slashes h.1))
      (λ _.
        let hi = hex_value-hex_digit (c / 16) (omega arith) in
        let lo = hex_value-hex_digit (c % 16) (omega arith) in
        rw (hi.1, lo.1, hi.0, lo.0, percent_decode-uri_encode cs slashes h.1) (ground arith))
