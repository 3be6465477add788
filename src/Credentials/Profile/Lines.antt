-- ===== src/Credentials/Profile/Lines.antt =====
-- The lines of a written profile file are read as what they say (src/credentials.cpp,
-- `parse_profile_file`).
use mathlib.Core.List.{append_assoc, append-nil}
use ngs3fs.Prelude.{
  ℕ, Bool, true, false, ◌==◌, List, [], ◌∷◌, ◌++◌, none, ◌≡◌, inl, inr, refl, ap, sym, ◌∙◌, arith,
  Bool-cases, Option-cases,
}
use ngs3fs.S3.Text.{Text, bytes, strip_prefix, last_byte}
use ngs3fs.S3.Text.Prefix.{strip_prefix-text, strip_prefix-append}
use ngs3fs.Credentials.{credential_trim}
use ngs3fs.Credentials.Profile.{
  between, all_but_last, section_name, without_prefix, is_section, lines_of,
}
use ngs3fs.Credentials.Profile.Trim.{
  Starts, Ends, Without, Without-append, IsBlank-Without, Ends-append, credential_trim-word,
}
use ngs3fs.Credentials.Profile.Written.{Section, label, header_line, end_lines, IsSection, Unmarked}

-- `std::getline` gives the lines.
lines_of-line :
    (acc s rest : Text)
    → Without 10 s
    → lines_of acc (s ++ 10 ∷ rest) ≡ (acc ++ s) ∷ lines_of [] rest
unfolding lines_of
lines_of-line acc [] rest h = ap (λ (t : Text). t ∷ lines_of [] rest) (sym (append-nil acc))
lines_of-line acc (c ∷ cs) rest h =
    let more : (c == 10) ≡ false = ground (arith, h.0) in
    rw more (
      lines_of-line (acc ++ c ∷ []) cs rest h.1
      ∙ ap (λ (t : Text). t ∷ lines_of [] rest) (append_assoc acc (c ∷ []) cs))

abbrev pub AreLines : List Text → Type 0
AreLines [] = Unit {0}
AreLines (l ∷ ls) = Without 10 l × AreLines ls

pub AreLines-append : (a b : List Text) → AreLines a → AreLines b → AreLines (a ++ b)
AreLines-append [] b h k = k
AreLines-append (l ∷ ls) b h k = (h.0, AreLines-append ls b h.1 k)

pub lines_of-end_lines : (ls : List Text) → AreLines ls → lines_of [] (end_lines ls) ≡ ls
unfolding end_lines lines_of
lines_of-end_lines [] h = refl
lines_of-end_lines (l ∷ ls) h =
    lines_of-line [] l (end_lines ls) h.0
    ∙ ap (λ (t : List Text). l ∷ t) (lines_of-end_lines ls h.1)

-- A header.
last_byte-end : (s : Text) (c : ℕ) → last_byte (s ++ c ∷ []) ≡ c
unfolding last_byte
last_byte-end [] c = refl
last_byte-end (d ∷ []) c = refl
last_byte-end (d ∷ e ∷ es) c = last_byte-end (e ∷ es) c

all_but_last-end : (s : Text) (c : ℕ) → all_but_last (s ++ c ∷ []) ≡ s
all_but_last-end [] c = refl
all_but_last-end (d ∷ []) c = refl
all_but_last-end (d ∷ e ∷ es) c = ap (λ (t : Text). d ∷ t) (all_but_last-end (e ∷ es) c)

label-Starts : (s : Section) → Starts s.name → Starts (label s)
label-Starts s h = elim (Bool-cases s.marked) [ inl m ↦ rw m (omega arith) | inr m ↦ rw m h ]

label-Ends : (s : Section) → Ends s.name → Ends (label s)
label-Ends s h = elim (Bool-cases s.marked) [
  | inl m ↦ rw m (Ends-append (bytes "profile ") (s.gap ++ s.name) (Ends-append s.gap s.name h))
  | inr m ↦ rw m h
]

-- The text between the brackets.
abbrev inner : Section → Text
inner s = s.inside ++ (label s ++ s.after)

abbrev pub bracketed : Section → Text
bracketed s = b'[' ∷ (inner s ++ b']' ∷ [])

pub credential_trim-header_line :
    (config_file : Bool) (s : Section)
    → IsSection config_file s
    → credential_trim (header_line s) ≡ bracketed s
unfolding header_line
credential_trim-header_line config_file s v =
    credential_trim-word s.before (bracketed s) s.behind v.before (omega arith)
      (Ends-append (b'[' ∷ inner s) (b']' ∷ []) (omega arith)) v.behind

pub is_section-bracketed : (s : Section) → is_section (bracketed s) ≡ true
is_section-bracketed s = let e = last_byte-end (b'[' ∷ inner s) b']' in rw e refl

without_profile : (name : Text) → Unmarked name → strip_prefix (bytes "profile ") name ≡ none
without_profile name h = elim (Option-cases (strip_prefix (bytes "profile ") name)) [
  | inl e ↦ e
  | inr (rest, e) ↦ absurd (h rest (strip_prefix-text (bytes "profile ") name rest e))
]

pub section_name-bracketed :
    (config_file : Bool) (s : Section)
    → IsSection config_file s
    → section_name config_file (bracketed s) ≡ s.name
unfolding section_name without_prefix
section_name-bracketed config_file s v =
    let name : credential_trim (between (bracketed s)) ≡ label s =
      ap credential_trim (all_but_last-end (inner s) b']')
      ∙ credential_trim-word s.inside (label s) s.after v.inside (label-Starts s v.name.starts)
          (label-Ends s v.name.ends) v.after in
    elim (Bool-cases config_file) [
      | inl c ↦ elim (Bool-cases s.marked) [
        | inl m ↦
            rw (name, c, m, strip_prefix-append (bytes "profile ") (s.gap ++ s.name))
              (ap (λ (t : Text). credential_trim (s.gap ++ t)) (sym (append-nil s.name))
                ∙ credential_trim-word s.gap s.name [] v.gap v.name.starts v.name.ends tt)
        | inr m ↦ rw (name, c, m, without_profile s.name (v.config c m)) refl
      ]
      | inr c ↦ rw (name, c, v.shared c) refl
    ]

pub header_line-Without :
    (config_file : Bool) (s : Section) → IsSection config_file s → Without 10 (header_line s)
unfolding header_line
header_line-Without config_file s v =
    Without-append 10 s.before _ (IsBlank-Without 10 s.before refl v.before) (
      omega arith,
      Without-append 10 (inner s ++ b']' ∷ []) s.behind
          (Without-append 10 (inner s) (b']' ∷ [])
            (Without-append 10 s.inside (label s ++ s.after)
              (IsBlank-Without 10 s.inside refl v.inside)
              (Without-append 10 (label s) s.after label_line
                (IsBlank-Without 10 s.after refl v.after)))
            (omega arith, tt))
          (IsBlank-Without 10 s.behind refl v.behind),
    )
  where
    label_line : Without 10 (label s)
    label_line = elim (Bool-cases s.marked) [
      | inl m ↦ rw m (
          Without-append 10 (bytes "profile ") (s.gap ++ s.name) (omega arith)
            (Without-append 10 s.gap s.name (IsBlank-Without 10 s.gap refl v.gap) v.name.one_line))
      | inr m ↦ rw m v.name.one_line
    ]
