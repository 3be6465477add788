-- ===== src/Fuse/Errors/Codes.antt =====
-- The errors of S3 that a request is repeated for, and what they become in the end.
use ngs3fs.Prelude.{ℕ, Bool, true, false, ◌||◌, List, [], ◌∷◌, ◌≡◌, refl, subst, sym, ◌⊎◌, inl, inr}
use ngs3fs.S3.Text.{Text, same_text}
use ngs3fs.S3.Text.Same.{same_text-eq}
use ngs3fs.Fuse.Errors.{
  eagain, one_of, retryable_codes, retryable_s3_code, errno_for_s3_error, errno_of,
}

either : (C : Type 0) {A B : Type 0} → (A → C) → (B → C) → A ⊎ B → C
either C f g (inl a) = f a
either C f g (inr b) = g b

or_true : (a b : Bool) → (a || b) ≡ true → (a ≡ true) ⊎ (b ≡ true)
or_true true b h = inl refl
or_true false b h = inr h

-- What holds of each name of a list holds of a code that is one of them.
abbrev AllOf : (Text → Type 0) → List Text → Type 0
AllOf P [] = Unit {0}
AllOf P (name ∷ names) = P name × AllOf P names

one_of-all :
    (P : Text → Type 0) (names : List Text) (code : Text)
    → AllOf P names
    → one_of names code ≡ true
    → P code
unfolding one_of
one_of-all P [] code a h = absurd (cc)
one_of-all P (name ∷ names) code a h =
    either (P code) (λ e. subst P (sym (same_text-eq code name e)) a.0)
      (λ e. one_of-all P names code a.1 e) (or_true (same_text code name) (one_of names code) h)

retried_codes : (status : ℕ) → AllOf (λ c. errno_for_s3_error status c ≡ eagain) retryable_codes
unfolding errno_for_s3_error errno_of one_of same_text
retried_codes status = (refl, (refl, (refl, (refl, (refl, (refl, (refl, tt)))))))

-- An error code that a request is repeated for becomes EAGAIN where it is the last answer,
-- whatever its HTTP status is.
pub retryable-eagain :
    (status : ℕ) (code : Text)
    → retryable_s3_code code ≡ true
    → errno_for_s3_error status code ≡ eagain
unfolding retryable_s3_code
retryable-eagain status code h =
    one_of-all (λ c. errno_for_s3_error status c ≡ eagain) retryable_codes code
      (retried_codes status) h
