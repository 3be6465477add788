-- ===== src/S3/Header/Normal.antt =====
-- A normalised header value is the words of the value with one space between them.
use ngs3fs.Prelude.{
  ℕ, true, false, not, if◌then◌else◌, List, [], ◌∷◌, ◌++◌, ◌≡◌, refl, arith, ap, sym, ◌∙◌, if_elim,
  Bool-cases, inl, inr,
}
use mathlib.Core.List.{append_assoc, append-nil}
use ngs3fs.S3.Text.{Text}
use ngs3fs.S3.Header.{
  is_space, has_header_whitespace, is_empty, normalize_loop, normalize_header_value,
}

-- A byte is put in front of the first word, or begins one, as the text behind it says.
unfoldable pub join_word : ℕ → Text → List Text → List Text
join_word c [] ws = (c ∷ []) ∷ ws
join_word c (d ∷ ds) [] = (c ∷ []) ∷ []
join_word c (d ∷ ds) (w ∷ ws) = if is_space d then (c ∷ []) ∷ w ∷ ws else (c ∷ w) ∷ ws

-- The maximal runs of bytes that are no spaces.
unfoldable pub words_of : Text → List Text
words_of [] = []
words_of (c ∷ cs) = if is_space c then words_of cs else join_word c cs (words_of cs)

-- Each word behind a space; and all the words, with a space between two.
unfoldable pub spaced : List Text → Text
spaced [] = []
spaced (w ∷ ws) = 0x20 ∷ w ++ spaced ws

unfoldable pub joined : List Text → Text
joined [] = []
joined (w ∷ ws) = w ++ spaced ws

-- What follows a byte of a word: the rest of the word, or the other words behind a space.
after_byte : Text → Text
after_byte [] = []
after_byte (d ∷ ds) = if is_space d then spaced (words_of ds) else joined (words_of (d ∷ ds))

joined-join_space :
    (c d : ℕ) (ds : Text) (ws : List Text)
    → is_space d ≡ true
    → joined (join_word c (d ∷ ds) ws) ≡ c ∷ spaced ws
unfolding join_word joined spaced
joined-join_space c d ds [] h = refl
joined-join_space c d ds (w ∷ ws) h = rw h

-- A word that begins with a byte: the list of words is not empty.
joined-join_byte :
    (c b d : ℕ) (ds cs : Text) (ws : List Text)
    → is_space d ≡ false
    → joined (join_word c (d ∷ ds) (join_word b cs ws)) ≡ c ∷ joined (join_word b cs ws)
unfolding join_word joined
joined-join_byte c b d ds [] ws h = rw h
joined-join_byte c b d ds (e ∷ es) [] h = rw h
joined-join_byte c b d ds (e ∷ es) (w ∷ ws) h = elim (Bool-cases (is_space e)) [
  | inl s ↦ rw (s, h)
  | inr s ↦ rw (s, h)
]

words_space : (c : ℕ) (cs : Text) → is_space c ≡ true → words_of (c ∷ cs) ≡ words_of cs
unfolding words_of
words_space c cs h = rw h

words_byte :
    (c : ℕ) (cs : Text) → is_space c ≡ false → words_of (c ∷ cs) ≡ join_word c cs (words_of cs)
unfolding words_of
words_byte c cs h = rw h

joined_one : (c : ℕ) → joined (join_word c [] []) ≡ c ∷ []
unfolding joined join_word spaced
joined_one c = refl

joined-words :
    (c : ℕ) (cs : Text) → is_space c ≡ false → joined (words_of (c ∷ cs)) ≡ c ∷ after_byte cs
unfolding words_of after_byte
joined-words c [] h = rw h (joined_one c)
joined-words c (d ∷ ds) h = rw h (elim (Bool-cases (is_space d)) [
  | inl s ↦ rw s (joined-join_space c d ds (words_of ds) s)
  | inr s ↦ rw s (joined-join_byte c d d ds ds (words_of ds) s)
])

spaced-join :
    (c : ℕ) (cs : Text) (ws : List Text)
    → spaced (join_word c cs ws) ≡ 0x20 ∷ joined (join_word c cs ws)
unfolding join_word spaced joined
spaced-join c [] ws = refl
spaced-join c (d ∷ ds) [] = refl
spaced-join c (d ∷ ds) (w ∷ ws) =
    if_elim (λ t. spaced t ≡ 0x20 ∷ joined t) (is_space d) (λ _. refl) (λ _. refl)

spaced-words :
    (c : ℕ) (cs : Text) → is_space c ≡ false → spaced (words_of (c ∷ cs)) ≡ 0x20 ∷ c ∷ after_byte cs
spaced-words c cs h =
    ap spaced (words_byte c cs h)
    ∙ spaced-join c cs (words_of cs)
    ∙ ap (λ (t : Text). 0x20 ∷ t) (ap joined (sym (words_byte c cs h)) ∙ joined-words c cs h)

-- The loop, once it has put a byte out.
abbrev Loop : Text → Text → Type 0
Loop out cs =
    (normalize_loop out true cs ≡ out ++ spaced (words_of cs))
    × (normalize_loop out false cs ≡ out ++ after_byte cs)

is_empty-append : (out : Text) (c : ℕ) → is_empty (out ++ c ∷ []) ≡ false
unfolding is_empty
is_empty-append [] c = refl
is_empty-append (d ∷ ds) c = refl

spaced_none : spaced (words_of []) ≡ []
unfolding words_of spaced
spaced_none = refl

joined_none : joined (words_of []) ≡ []
unfolding words_of joined
joined_none = refl

regroup_two :
    (out : Text) (c : ℕ) (t : Text) → ((out ++ 0x20 ∷ []) ++ c ∷ []) ++ t ≡ out ++ 0x20 ∷ c ∷ t
regroup_two out c t =
    append_assoc (out ++ 0x20 ∷ []) (c ∷ []) t ∙ append_assoc out (0x20 ∷ []) (c ∷ t)

-- A word's next byte: the loop puts it out, behind a space if one is pending.
loop_lem : (cs out : Text) → is_empty out ≡ false → Loop out cs
unfolding normalize_loop after_byte
loop_lem [] out h = (sym (ap (λ t. out ++ t) spaced_none ∙ append-nil out), sym (append-nil out))
loop_lem (c ∷ cs) out h = elim (Bool-cases (is_space c)) [
  | inl s ↦ rw (s, h, words_space c cs s) ((loop_lem cs out h).0, (loop_lem cs out h).0)
  | inr s ↦ rw s (
    (loop_lem cs ((out ++ 0x20 ∷ []) ++ c ∷ []) (is_empty-append (out ++ 0x20 ∷ []) c)).1
        ∙ regroup_two out c (after_byte cs)
        ∙ ap (λ t. out ++ t) (sym (spaced-words c cs s)),
    (loop_lem cs (out ++ c ∷ []) (is_empty-append out c)).1
        ∙ append_assoc out (c ∷ []) (after_byte cs)
        ∙ ap (λ t. out ++ t) (sym (joined-words c cs s)),
  )
]

loop_start : (cs : Text) → normalize_loop [] false cs ≡ joined (words_of cs)
unfolding normalize_loop is_empty
loop_start [] = sym joined_none
loop_start (c ∷ cs) = elim (Bool-cases (is_space c)) [
  | inl s ↦ rw (s, words_space c cs s) (loop_start cs)
  | inr s ↦ rw s ((loop_lem cs (c ∷ []) refl).1 ∙ sym (joined-words c cs s))
]

no_space : (cs : Text) → has_header_whitespace cs ≡ false → cs ≡ joined (words_of cs)
unfolding has_header_whitespace after_byte
no_space [] h = sym joined_none
no_space (c ∷ []) h = sym (joined-words c [] (ground (arith, h)))
no_space (c ∷ d ∷ ds) h =
    let no_c : is_space c ≡ false = ground (arith, h) in
    let no_d : is_space d ≡ false = ground (arith, h) in
    let rest = no_space (d ∷ ds) (ground (arith, h)) in
    sym (joined-words c (d ∷ ds) no_c ∙ rw no_d (ap (λ t. c ∷ t) (sym rest)))

-- `normalize_header_value` returns the words of the value, the runs of bytes that are no spaces,
-- tabs or line ends, with one space between two and none at the ends.
pub normalize_header_value-words :
    (value : Text) → normalize_header_value value ≡ joined (words_of value)
unfolding normalize_header_value
normalize_header_value-words value =
    if_elim (λ t. t ≡ joined (words_of value)) (not (has_header_whitespace value))
      (λ n. no_space value (ground (arith, n))) (λ _. loop_start value)
