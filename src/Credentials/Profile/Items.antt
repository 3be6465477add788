-- ===== src/Credentials/Profile/Items.antt =====
-- The items of a written section are read as what they say (src/credentials.cpp,
-- `parse_profile_file`).
use mathlib.Core.List.{append_assoc, append-nil}
use ngs3fs.Prelude.{
  ℕ, ◌<◌, Bool, true, false, ◌==◌, if◌then◌else◌, List, [], ◌∷◌, ◌++◌, Option, ◌≡◌, ◌≢◌, ◌⊎◌, inl,
  inr, refl, ap, sym, ◌∙◌, arith, Bool-cases,
}
use ngs3fs.S3.Text.{Text, split_at}
use ngs3fs.Credentials.{is_empty, trim_leading, trim_trailing, credential_trim}
use ngs3fs.Credentials.Profile.{Profile, assign, assign_line, is_comment, is_section, parse_lines}
use ngs3fs.Credentials.Profile.Trim.{
  IsBlank, Without, Without-append, IsBlank-Without, IsBlank-append, Starts-append, is_empty-Ends,
  trim_leading-blank, trim_leading-Starts, trim_trailing-blank, trim_trailing-visible,
  trim_trailing-append, trim_trailing-Ends, split_at-Without,
}
use ngs3fs.Credentials.Profile.Lines.{AreLines}
use ngs3fs.Credentials.Profile.Written.{
  Item, blank, comment, entry, item_line, item_lines, entries, IsWord, IsOrdinary, IsItem, AreItems,
}

value_Without : (c : ℕ) (value : Text) → (value ≡ []) ⊎ IsWord value → Without 10 value
value_Without c value (inl e) = rw e tt
value_Without c value (inr w) = w.one_line

item_line-Without : (i : Item) → IsItem i → Without 10 (item_line i)
unfolding item_line
item_line-Without (blank before) h = IsBlank-Without 10 before refl h
item_line-Without (comment before mark rest) (b, m, r) =
    Without-append 10 before (mark ∷ rest) (IsBlank-Without 10 before refl b) (mark_line m, r)
  where
    mark_line : (mark ≡ b'#') ⊎ (mark ≡ b';') → mark ≢ 10
    mark_line (inl e) h = omega (arith, e, h)
    mark_line (inr e) h = omega (arith, e, h)
item_line-Without (entry before name mid after value behind) ((b, m, a, d), (n, o, q), v) =
    Without-append 10 before _ (IsBlank-Without 10 before refl b) (
      Without-append 10 name _ n.one_line (
        Without-append 10 mid _ (IsBlank-Without 10 mid refl m) (
          omega arith,
          Without-append 10 after _ (IsBlank-Without 10 after refl a) (
              Without-append 10 value behind (value_Without 10 value v)
                (IsBlank-Without 10 behind refl d)),
        )))

pub item_lines-AreLines : (is : List Item) → AreItems is → AreLines (item_lines is)
unfolding item_lines
item_lines-AreLines [] h = tt
item_lines-AreLines (i ∷ is) h = (item_line-Without i h.0, item_lines-AreLines is h.1)

-- An entry: the text behind the equals sign, and the texts round it.
behind_equals : Text → Text → Text → Text
behind_equals after value behind = trim_trailing (after ++ (value ++ behind))

trimmed_entry :
    (before name mid after value behind : Text)
    → IsBlank before
    → IsWord name
    → credential_trim (item_line (entry before name mid after value behind))
      ≡ name ++ (mid ++ b'=' ∷ behind_equals after value behind)
unfolding item_line credential_trim behind_equals
trimmed_entry before name mid after value behind b n =
    let tail = after ++ (value ++ behind) in
    let equals = trim_trailing-visible b'=' tail (omega arith) in
    let kept : is_empty (trim_trailing (b'=' ∷ tail)) ≡ false = rw equals refl in
    ap trim_trailing (
      trim_leading-blank before (name ++ (mid ++ b'=' ∷ tail)) b
      ∙ trim_leading-Starts (name ++ (mid ++ b'=' ∷ tail))
          (Starts-append name (mid ++ b'=' ∷ tail) n.starts))
    ∙ ap trim_trailing (sym (append_assoc name mid (b'=' ∷ tail)))
    ∙ trim_trailing-append (name ++ mid) (b'=' ∷ tail) kept
    ∙ append_assoc name mid (trim_trailing (b'=' ∷ tail))
    ∙ ap (λ (t : Text). name ++ (mid ++ t)) equals

trimmed_value :
    (after value behind : Text)
    → IsBlank after
    → IsBlank behind
    → (value ≡ []) ⊎ IsWord value
    → credential_trim (behind_equals after value behind) ≡ value
unfolding credential_trim behind_equals trim_leading trim_trailing
trimmed_value after value behind a d (inl e) = rw e (
    ap (λ (t : Text). trim_trailing (trim_leading t))
      (trim_trailing-blank (after ++ behind) (IsBlank-append after behind a d)))
trimmed_value after value behind a d (inr w) =
    let word = trim_trailing-Ends value behind w.ends d in
    let kept : is_empty (trim_trailing (value ++ behind)) ≡ false =
      ap is_empty word ∙ is_empty-Ends value w.ends in
    ap (λ (t : Text). trim_trailing (trim_leading t))
      (trim_trailing-append after (value ++ behind) kept ∙ ap (λ (t : Text). after ++ t) word)
    ∙ ap trim_trailing (trim_leading-blank after value a ∙ trim_leading-Starts value w.starts)
    ∙ ap trim_trailing (sym (append-nil value))
    ∙ trim_trailing-Ends value [] w.ends tt

trimmed_name : (name mid : Text) → IsWord name → IsBlank mid → credential_trim (name ++ mid) ≡ name
unfolding credential_trim
trimmed_name name mid n m =
    ap trim_trailing (trim_leading-Starts (name ++ mid) (Starts-append name mid n.starts))
    ∙ trim_trailing-Ends name mid n.ends m

ordinary :
    (name rest : Text)
    → IsOrdinary name
    → (is_comment (name ++ rest) ≡ false) × (is_section (name ++ rest) ≡ false)
ordinary [] rest h = absurd h
ordinary (c ∷ cs) rest (a, b, d) =
    let bracket : (c == b'[') ≡ false = ground (arith, d) in (ground (arith, a, b), rw bracket refl)

assigned_entry :
    (before name mid after value behind : Text) (r : Profile)
    → IsItem (entry before name mid after value behind)
    → assign_line (split_at b'=' (name ++ (mid ++ b'=' ∷ behind_equals after value behind))) r
      ≡ assign name value r
unfolding assign_line
assigned_entry before name mid after value behind r ((b, m, a, d), (n, o, q), v) =
    let text = behind_equals after value behind in
    ap (λ (t : Text). assign_line (split_at b'=' t) r) (sym (append_assoc name mid (b'=' ∷ text)))
    ∙ ap (λ (t : Option (Text × Text)). assign_line t r)
        (split_at-Without b'=' (name ++ mid) text
          (Without-append b'=' name mid q (IsBlank-Without b'=' mid refl m)))
    ∙ rw (trimmed_name name mid n m, trimmed_value after value behind a d v) refl

-- All entries are assigned, in their order.
unfoldable pub assign_all : List (Text × Text) → Profile → Profile
assign_all [] r = r
assign_all ((name, value) ∷ es) r = assign_all es (assign name value r)

-- A line that is a comment, or blank, is passed over.
passed :
    (profile : Text) (config_file selected : Bool) (line : Text) (lines : List Text) (r : Profile)
    → is_comment (credential_trim line) ≡ true
    → parse_lines profile config_file selected (line ∷ lines) r
      ≡ parse_lines profile config_file selected lines r
unfolding parse_lines
passed profile config_file selected line lines r h = rw h refl

trimmed_comment :
    (before : Text) (mark : ℕ) (rest : Text)
    → IsBlank before
    → (mark ≡ b'#') ⊎ (mark ≡ b';')
    → is_comment (credential_trim (before ++ mark ∷ rest)) ≡ true
unfolding credential_trim
trimmed_comment before mark rest b m =
    ap is_comment (
      ap trim_trailing
        (trim_leading-blank before (mark ∷ rest) b ∙ trim_leading-Starts (mark ∷ rest) (visible m))
      ∙ trim_trailing-visible mark rest (visible m))
    ∙ marks m
  where
    visible : (mark ≡ b'#') ⊎ (mark ≡ b';') → 32 < mark
    visible (inl e) = omega (arith, e)
    visible (inr e) = omega (arith, e)

    marks : (mark ≡ b'#') ⊎ (mark ≡ b';') → is_comment (mark ∷ trim_trailing rest) ≡ true
    marks (inl e) = ground (arith, e)
    marks (inr e) = ground (arith, e)

trimmed_blank : (before : Text) → IsBlank before → is_comment (credential_trim before) ≡ true
unfolding credential_trim trim_leading trim_trailing
trimmed_blank before b = ap is_comment (
    ap (λ (t : Text). trim_trailing (trim_leading t)) (sym (append-nil before))
    ∙ ap trim_trailing (trim_leading-blank before [] b))

entry_read :
    (profile : Text) (config_file selected : Bool) (before name mid after value behind : Text)
    (lines : List Text) (r : Profile)
    → IsItem (entry before name mid after value behind)
    → parse_lines profile config_file selected
        (item_line (entry before name mid after value behind) ∷ lines)
        r
      ≡ parse_lines profile config_file selected lines (if selected then assign name value r else r)
unfolding parse_lines
entry_read profile config_file selected before name mid after value behind lines r h =
    let ((b, m, a, d), (n, o, q), v) = h in
    let text = trimmed_entry before name mid after value behind b n in
    let (no_comment, no_section) =
      ordinary name (mid ++ b'=' ∷ behind_equals after value behind) o in
    let assigned = assigned_entry before name mid after value behind r h in
    elim (Bool-cases selected) [
      | inl s ↦ rw (text, no_comment, no_section, s, assigned) refl
      | inr s ↦ rw (text, no_comment, no_section, s) refl
    ]

-- The items of a section are assigned if it is selected.
pub parse_lines-items :
    (profile : Text) (config_file selected : Bool) (is : List Item) (lines : List Text)
    (r : Profile)
    → AreItems is
    → parse_lines profile config_file selected (item_lines is ++ lines) r
      ≡ parse_lines profile config_file selected lines
          (if selected then assign_all (entries is) r else r)
unfolding item_lines item_line entries assign_all
parse_lines-items profile config_file selected [] lines r h = elim (Bool-cases selected) [
  | inl s ↦ rw s refl
  | inr s ↦ rw s refl
]
parse_lines-items profile config_file selected (blank before ∷ is) lines r h =
    passed profile config_file selected before _ r (trimmed_blank before h.0)
    ∙ parse_lines-items profile config_file selected is lines r h.1
parse_lines-items profile config_file selected (comment before mark rest ∷ is) lines r h =
    let (b, m, o) = h.0 in
    passed profile config_file selected (before ++ mark ∷ rest) _ r
      (trimmed_comment before mark rest b m)
    ∙ parse_lines-items profile config_file selected is lines r h.1
parse_lines-items profile config_file selected (entry before name mid after value behind ∷ is) lines
      r h =
    entry_read profile config_file selected before name mid after value behind _ r h.0
    ∙ parse_lines-items profile config_file selected is lines _ h.1
    ∙ elim (Bool-cases selected) [ inl s ↦ rw s refl | inr s ↦ rw s refl ]
