-- ===== src/S3/Text/Prefix.antt =====
-- A prefix, and the text that is left behind it.
use ngs3fs.Prelude.{
  true, ◌==◌, [], ◌∷◌, ◌++◌, Option, none, some, ◌≡◌, refl, arith, inl, inr, Bool-cases,
}
use ngs3fs.S3.Text.{Text, strip_prefix}

pub strip_prefix-text : (p s r : Text) → strip_prefix p s ≡ some r → s ≡ p ++ r
unfolding strip_prefix
strip_prefix-text [] s r h = cc
strip_prefix-text (c ∷ cs) [] r h = absurd (cc)
strip_prefix-text (c ∷ cs) (d ∷ ds) r h = elim (Bool-cases (c == d)) [
  | inl e ↦
      let rest = strip_prefix-text cs ds r (rw e at h) in let same : c ≡ d = ground (arith, e) in cc
  | inr e ↦ let no : ◌≡◌ {A = Option Text} none (some r) = rw e at h in absurd (cc)
]

pub strip_prefix-append : (p r : Text) → strip_prefix p (p ++ r) ≡ some r
unfolding strip_prefix
strip_prefix-append [] r = refl
strip_prefix-append (c ∷ cs) r =
    let same : (c == c) ≡ true = ground arith in rw same (strip_prefix-append cs r)
