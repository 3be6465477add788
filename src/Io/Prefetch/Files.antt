-- ===== src/Io/Prefetch/Files.antt =====
-- The entries of the files after a write and after an erasure.
use ngs3fs.Prelude.{ℕ, ◌==◌, if◌then◌else◌, List, [], ◌∷◌, ◌≡◌, refl, arith, if_elim}
use ngs3fs.Io.Prefetch.{Usage, unused, usage, put_usage, erase_usage}

pub usage-put_usage :
    (files : List (ℕ × Usage)) (f g : ℕ) (u : Usage)
    → usage (put_usage files f u) g ≡ (if f == g then u else usage files g)
unfolding usage put_usage
usage-put_usage [] f g u = refl
usage-put_usage ((h, v) ∷ rest) f g u =
    if_elim (λ t. usage t g ≡ (if f == g then u else if h == g then v else usage rest g)) (h == f)
      (λ e. ground (arith, e)) (λ e. ground (arith, e, usage-put_usage rest f g u))

pub usage-erase_usage :
    (files : List (ℕ × Usage)) (f g : ℕ)
    → usage (erase_usage files f) g ≡ (if f == g then unused else usage files g)
unfolding usage erase_usage
usage-erase_usage [] f g = ground arith
usage-erase_usage ((h, v) ∷ rest) f g =
    if_elim (λ t. usage t g ≡ (if f == g then unused else if h == g then v else usage rest g))
      (h == f) (λ e. ground (arith, e, usage-erase_usage rest f g))
      (λ e. ground (arith, e, usage-erase_usage rest f g))
