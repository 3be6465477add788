-- ===== src/Credentials/Profile/Trim.antt =====
-- What trimming leaves of a word with white space round it (src/credentials.cpp, `credential_trim`).
use ngs3fs.Prelude.{
  ℕ, ◌<◌, Bool, true, false, ◌||◌, ◌&&◌, ◌==◌, [], ◌∷◌, ◌++◌, some, ◌≡◌, ◌≢◌, refl, ap, ◌∙◌, arith,
}
use ngs3fs.S3.Text.{Text, split_at}
use ngs3fs.Credentials.{is_space, is_empty, trim_leading, trim_trailing, credential_trim}

-- Spaces, tabs and carriage returns.
abbrev pub IsBlank : Text → Type 0
IsBlank [] = Unit {0}
IsBlank (c ∷ cs) = ((c == 32 || (c == 9 || c == 13)) ≡ true) × IsBlank cs

-- The first byte is visible.
abbrev pub Starts : Text → Type 0
Starts [] = ⊥
Starts (c ∷ cs) = 32 < c

-- The last byte is visible.
abbrev pub Ends : Text → Type 0
Ends [] = ⊥
Ends (c ∷ []) = 32 < c
Ends (c ∷ d ∷ ds) = Ends (d ∷ ds)

abbrev pub Without : ℕ → Text → Type 0
Without c [] = Unit {0}
Without c (d ∷ ds) = (d ≢ c) × Without c ds

pub Without-append : (c : ℕ) (s t : Text) → Without c s → Without c t → Without c (s ++ t)
Without-append c [] t h k = k
Without-append c (d ∷ ds) t h k = (h.0, Without-append c ds t h.1 k)

pub IsBlank-Without :
    (c : ℕ) (s : Text) → (c == 32 || (c == 9 || c == 13)) ≡ false → IsBlank s → Without c s
IsBlank-Without c [] n h = tt
IsBlank-Without c (d ∷ ds) n h = ((λ e. ground (arith, e, n, h.0)), IsBlank-Without c ds n h.1)

pub IsBlank-append : (s t : Text) → IsBlank s → IsBlank t → IsBlank (s ++ t)
IsBlank-append [] t h k = k
IsBlank-append (c ∷ cs) t h k = (h.0, IsBlank-append cs t h.1 k)

pub Starts-append : (s t : Text) → Starts s → Starts (s ++ t)
Starts-append [] t h = absurd h
Starts-append (c ∷ cs) t h = h

pub Ends-append : (s t : Text) → Ends t → Ends (s ++ t)
Ends-append [] t h = h
Ends-append (c ∷ []) [] h = absurd h
Ends-append (c ∷ []) (d ∷ ds) h = h
Ends-append (c ∷ d ∷ ds) t h = Ends-append (d ∷ ds) t h

pub is_empty-Ends : (t : Text) → Ends t → is_empty t ≡ false
is_empty-Ends [] h = absurd h
is_empty-Ends (c ∷ cs) h = refl

is_empty-append : (s t : Text) → is_empty t ≡ false → is_empty (s ++ t) ≡ false
is_empty-append [] t h = h
is_empty-append (c ∷ cs) t h = refl

visible : (c : ℕ) → 32 < c → is_space c ≡ false
visible c h = ground arith

white : (c : ℕ) → (c == 32 || (c == 9 || c == 13)) ≡ true → is_space c ≡ true
white c h = ground arith

pub trim_leading-blank : (a t : Text) → IsBlank a → trim_leading (a ++ t) ≡ trim_leading t
unfolding trim_leading
trim_leading-blank [] t h = refl
trim_leading-blank (c ∷ cs) t h = rw (white c h.0) (trim_leading-blank cs t h.1)

pub trim_leading-Starts : (t : Text) → Starts t → trim_leading t ≡ t
unfolding trim_leading
trim_leading-Starts [] h = absurd h
trim_leading-Starts (c ∷ cs) h = rw (visible c h) refl

pub trim_trailing-blank : (b : Text) → IsBlank b → trim_trailing b ≡ []
unfolding trim_trailing
trim_trailing-blank [] h = refl
trim_trailing-blank (c ∷ cs) h = rw (white c h.0, trim_trailing-blank cs h.1) refl

pub trim_trailing-visible :
    (c : ℕ) (t : Text) → 32 < c → trim_trailing (c ∷ t) ≡ c ∷ trim_trailing t
unfolding trim_trailing
trim_trailing-visible c t h = rw (visible c h) refl

and_false : (b : Bool) → (b && false) ≡ false
and_false true = refl
and_false false = refl

-- What stands in front of a text that is not trimmed away is kept.
pub trim_trailing-append :
    (p y : Text)
    → is_empty (trim_trailing y) ≡ false
    → trim_trailing (p ++ y) ≡ p ++ trim_trailing y
unfolding trim_trailing
trim_trailing-append [] y h = refl
trim_trailing-append (c ∷ cs) y h =
    rw (trim_trailing-append cs y h, is_empty-append cs (trim_trailing y) h, and_false (is_space c))
      refl

pub trim_trailing-Ends : (t b : Text) → Ends t → IsBlank b → trim_trailing (t ++ b) ≡ t
unfolding trim_trailing
trim_trailing-Ends [] b h k = absurd h
trim_trailing-Ends (c ∷ []) b h k = rw (visible c h, trim_trailing-blank b k) refl
trim_trailing-Ends (c ∷ d ∷ ds) b h k =
    rw (trim_trailing-Ends (d ∷ ds) b h k, and_false (is_space c)) refl

-- A word is left of a word with white space round it.
pub credential_trim-word :
    (a t b : Text) → IsBlank a → Starts t → Ends t → IsBlank b → credential_trim (a ++ (t ++ b)) ≡ t
unfolding credential_trim
credential_trim-word a t b h s e k =
    ap trim_trailing
      (trim_leading-blank a (t ++ b) h ∙ trim_leading-Starts (t ++ b) (Starts-append t b s))
    ∙ trim_trailing-Ends t b e k

-- A byte is found behind a text that does not have it.
pub split_at-Without : (c : ℕ) (s t : Text) → Without c s → split_at c (s ++ c ∷ t) ≡ some (s, t)
unfolding split_at
split_at-Without c [] t h = ground arith
split_at-Without c (d ∷ ds) t h = rw (split_at-Without c ds t h.1) (ground (arith, h.0))
