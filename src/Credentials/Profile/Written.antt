-- ===== src/Credentials/Profile/Written.antt =====
-- Profile files as they are written: sections with entries, comments and white space.
use ngs3fs.Prelude.{ℕ, Bool, true, false, if◌then◌else◌, List, [], ◌∷◌, ◌++◌, ◌≡◌, ◌≢◌, ◌⊎◌}
use ngs3fs.S3.Text.{Text, bytes, same_text}
use ngs3fs.Credentials.Profile.Trim.{IsBlank, Starts, Ends, Without}

-- A line of a section. `before`, `mid`, `after` and `behind` are white space.
pub data Item : Type 0 where
  blank : (before : Text) → Item
  comment : (before : Text) (mark : ℕ) (rest : Text) → Item
  entry : (before name mid after value behind : Text) → Item

-- A section, and the text between its brackets: white space, in the config file `profile` before
-- some names, and the name.
pub record Section : Type 0 where
  pub before : Text
  pub inside : Text
  pub marked : Bool
  pub gap : Text
  pub name : Text
  pub after : Text
  pub behind : Text
  pub items : List Item

-- A file, with the lines in front of the first section.
pub record Written : Type 0 where
  pub preamble : List Item
  pub sections : List Section

-- The lines of a file, without their line ends.
unfoldable pub item_line : Item → Text
item_line (blank before) = before
item_line (comment before mark rest) = before ++ mark ∷ rest
item_line (entry before name mid after value behind) =
    before ++ (name ++ (mid ++ b'=' ∷ (after ++ (value ++ behind))))

unfoldable pub item_lines : List Item → List Text
item_lines [] = []
item_lines (i ∷ is) = item_line i ∷ item_lines is

-- The name as it stands between the brackets.
abbrev pub label : Section → Text
label s = if s.marked then bytes "profile " ++ (s.gap ++ s.name) else s.name

unfoldable pub header_line : Section → Text
header_line s = s.before ++ (b'[' ∷ ((s.inside ++ (label s ++ s.after)) ++ b']' ∷ []) ++ s.behind)

unfoldable pub section_lines : List Section → List Text
section_lines [] = []
section_lines (s ∷ ss) = header_line s ∷ (item_lines s.items ++ section_lines ss)

unfoldable pub written_lines : Written → List Text
written_lines w = item_lines w.preamble ++ section_lines w.sections

unfoldable pub end_lines : List Text → Text
end_lines [] = []
end_lines (l ∷ ls) = l ++ 10 ∷ end_lines ls

-- The text of the file.
unfoldable pub written_text : Written → Text
written_text w = end_lines (written_lines w)

-- A text with visible bytes at both ends, on one line.
pub record IsWord (t : Text) : Type 0 where
  pub starts : Starts t
  pub ends : Ends t
  pub one_line : Without 10 t

-- A word with another first byte than those of comments and sections.
abbrev pub IsOrdinary : Text → Type 0
IsOrdinary [] = ⊥
IsOrdinary (c ∷ cs) = (c ≢ b'#') × (c ≢ b';') × (c ≢ b'[')

-- What a line can be: a comment has one of two marks, and a name no equals sign.
abbrev pub IsItem : Item → Type 0
IsItem (blank before) = IsBlank before
IsItem (comment before mark rest) =
    IsBlank before × ((mark ≡ b'#') ⊎ (mark ≡ b';')) × Without 10 rest
IsItem (entry before name mid after value behind) =
    (IsBlank before × IsBlank mid × IsBlank after × IsBlank behind)
    × (IsWord name × IsOrdinary name × Without b'=' name)
    × ((value ≡ []) ⊎ IsWord value)

abbrev pub AreItems : List Item → Type 0
AreItems [] = Unit {0}
AreItems (i ∷ is) = IsItem i × AreItems is

-- The name does not begin with `profile` and a space.
abbrev pub Unmarked : Text → Type 0
Unmarked name = (rest : Text) → name ≢ bytes "profile " ++ rest

-- `profile` may stand only in the config file, and there no name begins with it.
pub record IsSection (config_file : Bool) (s : Section) : Type 0 where
  pub before : IsBlank s.before
  pub inside : IsBlank s.inside
  pub gap : IsBlank s.gap
  pub after : IsBlank s.after
  pub behind : IsBlank s.behind
  pub name : IsWord s.name
  pub shared : config_file ≡ false → s.marked ≡ false
  pub config : config_file ≡ true → s.marked ≡ false → Unmarked s.name
  pub items : AreItems s.items

abbrev pub AreSections : Bool → List Section → Type 0
AreSections config_file [] = Unit {0}
AreSections config_file (s ∷ ss) = IsSection config_file s × AreSections config_file ss

abbrev pub IsWritten : Bool → Written → Type 0
IsWritten config_file w = AreItems w.preamble × AreSections config_file w.sections

-- The names and values of the entries.
unfoldable pub entries : List Item → List (Text × Text)
entries [] = []
entries (entry before name mid after value behind ∷ is) = (name, value) ∷ entries is
entries (blank before ∷ is) = entries is
entries (comment before mark rest ∷ is) = entries is

-- Those in the sections of a name.
unfoldable pub given : Text → List Section → List (Text × Text)
given profile [] = []
given profile (s ∷ ss) =
    (if same_text s.name profile then entries s.items else []) ++ given profile ss
