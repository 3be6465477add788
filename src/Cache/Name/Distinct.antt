-- ===== src/Cache/Name/Distinct.antt =====
-- Two components of keys that get one file name are equal, or SHA-256 does not tell them apart.
use ngs3fs.Prelude.{
  ℕ, true, false, ◌&&◌, leb, ltb, not, ◌∷◌, ◌++◌, Option, some, ◌≡◌, refl, arith, ap, sym, ◌∙◌,
  length, ◌⊎◌, inl, inr, if_elim,
}
use ngs3fs.S3.Text.{Text, same_text, strip_prefix}
use ngs3fs.S3.Path.Encode.{IsBytes}
use ngs3fs.Cache.Name.{
  cache_hex, cache_base64url, escape_prefix, has_prefix, is_dot_name, needs_escape,
  encode_component,
}
use ngs3fs.Cache.Name.Base64.{
  read_hex, read_base64, read_hex-cache_hex, read_base64-cache_base64url,
}

-- The three ways in which a component gets its name.
data Named (sha256 : Text → Text) (x n : Text) : Type 0 where
  plain : needs_escape x ≡ false → n ≡ x → Named sha256 x n
  escaped : n ≡ escape_prefix ++ b'b' ∷ cache_base64url x → Named sha256 x n
  hashed : n ≡ escape_prefix ++ b'h' ∷ cache_hex (sha256 x) → Named sha256 x n

encode_component-Named :
    (sha256 : Text → Text) (x : Text) (name_max : ℕ) (n : Text)
    → encode_component sha256 x name_max ≡ some n
    → Named sha256 x n
unfolding encode_component
encode_component-Named sha256 x name_max n h =
    if_elim Result (not (needs_escape x) && leb (length x) name_max)
      (λ t e. plain (ground (arith, t)) (cc))
      (λ _.
        if_elim Result (leb (length long) name_max) (λ _ e. escaped (cc))
          (λ _.
            if_elim Result (ltb name_max (length hash)) (λ _ e. absurd (cc)) (λ _ e. hashed (cc))))
      h
  where
    long : Text
    long = escape_prefix ++ b'b' ∷ cache_base64url x

    hash : Text
    hash = escape_prefix ++ b'h' ∷ cache_hex (sha256 x)

    Result : Option Text → Type 0
    Result o = o ≡ some n → Named sha256 x n

-- An escaped name begins with the prefix, so it is no component's own name.
prefix-needs_escape : (rest : Text) → needs_escape (escape_prefix ++ rest) ≡ true
unfolding needs_escape is_dot_name has_prefix strip_prefix same_text
prefix-needs_escape rest = refl

module _ (sha256 : Text → Text) (x y n : Text) where
  not_plain : (rest : Text) → needs_escape x ≡ false → n ≡ x → n ≡ escape_prefix ++ rest → ⊥
  not_plain rest p e f =
      let t : needs_escape x ≡ true = ap needs_escape (sym e ∙ f) ∙ prefix-needs_escape rest in cc

abbrev Same : (Text → Text) → Text → Text → Type 0
Same sha256 x y = (x ≡ y) ⊎ (sha256 x ≡ sha256 y)

Named-Same :
    (sha256 : Text → Text) (x y n : Text)
    → IsBytes x
    → IsBytes y
    → IsBytes (sha256 x)
    → IsBytes (sha256 y)
    → Named sha256 x n
    → Named sha256 y n
    → Same sha256 x y
Named-Same sha256 x y n hx hy bx by (plain p e) (plain q f) = inl (sym e ∙ f)
Named-Same sha256 x y n hx hy bx by (plain p e) (escaped f) =
    absurd (not_plain sha256 x y n (b'b' ∷ cache_base64url y) p e f)
Named-Same sha256 x y n hx hy bx by (plain p e) (hashed f) =
    absurd (not_plain sha256 x y n (b'h' ∷ cache_hex (sha256 y)) p e f)
Named-Same sha256 x y n hx hy bx by (escaped e) (plain q f) =
    absurd (not_plain sha256 y x n (b'b' ∷ cache_base64url x) q f e)
Named-Same sha256 x y n hx hy bx by (hashed e) (plain q f) =
    absurd (not_plain sha256 y x n (b'h' ∷ cache_hex (sha256 x)) q f e)
Named-Same sha256 x y n hx hy bx by (escaped e) (escaped f) =
    let same : cache_base64url x ≡ cache_base64url y = cc in
    inl (
      sym (read_base64-cache_base64url x hx)
      ∙ ap read_base64 same
      ∙ read_base64-cache_base64url y hy)
Named-Same sha256 x y n hx hy bx by (hashed e) (hashed f) =
    let same : cache_hex (sha256 x) ≡ cache_hex (sha256 y) = cc in
    inr
      (sym (read_hex-cache_hex (sha256 x) bx) ∙ ap read_hex same ∙ read_hex-cache_hex (sha256 y) by)
Named-Same sha256 x y n hx hy bx by (escaped e) (hashed f) = absurd (ground arith)
Named-Same sha256 x y n hx hy bx by (hashed e) (escaped f) = absurd (ground arith)

-- Of components made of bytes, and a hash that yields bytes: two that get one file name are equal,
-- or have one SHA-256.
pub encode_component-distinct :
    (sha256 : Text → Text) (x y n : Text) (name_max : ℕ)
    → IsBytes x
    → IsBytes y
    → IsBytes (sha256 x)
    → IsBytes (sha256 y)
    → encode_component sha256 x name_max ≡ some n
    → encode_component sha256 y name_max ≡ some n
    → (x ≡ y) ⊎ (sha256 x ≡ sha256 y)
encode_component-distinct sha256 x y n name_max hx hy bx by e f =
    Named-Same sha256 x y n hx hy bx by (encode_component-Named sha256 x name_max n e)
      (encode_component-Named sha256 y name_max n f)
