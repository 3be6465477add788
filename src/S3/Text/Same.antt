-- ===== src/S3/Text/Same.antt =====
-- Texts that `==` takes for the same are equal.
use ngs3fs.Prelude.{ℕ, true, [], ◌∷◌, ◌≡◌, refl, arith, ap₂}
use ngs3fs.S3.Text.{Text, same_text}

pub same_text-eq : (s t : Text) → same_text s t ≡ true → s ≡ t
unfolding same_text
same_text-eq [] [] h = refl
same_text-eq [] (d ∷ ds) h = absurd (cc)
same_text-eq (c ∷ cs) [] h = absurd (cc)
same_text-eq (c ∷ cs) (d ∷ ds) h =
    ap₂ (λ (x : ℕ) (t : Text). x ∷ t) (ground (arith, h)) (same_text-eq cs ds (ground (arith, h)))
