-- ===== src/Credentials/Profile/Last.antt =====
-- The keys of a profile are the last that the two files give.
use ngs3fs.Prelude.{
  Bool, true, false, ◌||◌, if◌then◌else◌, List, [], ◌∷◌, ◌++◌, ◌≡◌, refl, ap, sym, ◌∙◌, inl, inr,
  Bool-cases, if_elim,
}
use ngs3fs.S3.Text.{Text, bytes, same_text}
use ngs3fs.S3.Text.Same.{same_text-eq}
use ngs3fs.Credentials.{Keys}
use ngs3fs.Credentials.Profile.{
  Profile, no_keys, no_profile, assign, parse_lines, parse_profile_file, load_profile,
}
use ngs3fs.Credentials.Profile.Lines.{
  AreLines, AreLines-append, lines_of-end_lines, credential_trim-header_line, is_section-bracketed,
  section_name-bracketed, header_line-Without,
}
use ngs3fs.Credentials.Profile.Items.{item_lines-AreLines, assign_all, parse_lines-items}
use ngs3fs.Credentials.Profile.Written.{
  Section, Written, item_lines, header_line, section_lines, written_lines, written_text, entries,
  given, IsSection, AreSections, IsWritten,
}

-- The value of the last entry with one of the names.
abbrev pub last_value : (Text → Bool) → Text → List (Text × Text) → Text
last_value named value [] = value
last_value named value ((name, v) ∷ es) = last_value named (if named name then v else value) es

abbrev pub is_access_key : Text → Bool
is_access_key name = same_text name (bytes "aws_access_key_id")

abbrev pub is_secret_key : Text → Bool
is_secret_key name = same_text name (bytes "aws_secret_access_key")

abbrev pub is_token : Text → Bool
is_token name =
    same_text name (bytes "aws_session_token") || same_text name (bytes "aws_security_token")

-- The keys behind the entries.
abbrev pub last_keys : List (Text × Text) → Keys → Keys
last_keys es k = record {
  access_key_id = last_value is_access_key k.access_key_id es;
  secret_access_key = last_value is_secret_key k.secret_access_key es;
  session_token = last_value is_token k.session_token es;
}

-- The other names leave the keys alone.
others :
    (name value : Text) (r : Profile)
    → (if same_text name (bytes "credential_process")
        then record r { process = value }
        else if same_text name (bytes "web_identity_token_file")
        then record r { token_file = value }
        else if same_text name (bytes "role_arn")
        then record r { role_arn = value }
        else if same_text name (bytes "role_session_name")
        then record r { role_session_name = value }
        else if same_text name (bytes "credential_source")
        then record r { credential_source = value }
        else if same_text name (bytes "source_profile")
        then record r { source_profile = value }
        else if same_text name (bytes "sso_session") || same_text name (bytes "sso_start_url")
        then record r { sso_session = value }
        else r).credentials
      ≡ r.credentials
others name value r =
    if_elim Kept (same_text name (bytes "credential_process")) (λ _. refl)
      (λ _.
        if_elim Kept (same_text name (bytes "web_identity_token_file")) (λ _. refl)
          (λ _.
            if_elim Kept (same_text name (bytes "role_arn")) (λ _. refl)
              (λ _.
                if_elim Kept (same_text name (bytes "role_session_name")) (λ _. refl)
                  (λ _.
                    if_elim Kept (same_text name (bytes "credential_source")) (λ _. refl)
                      (λ _.
                        if_elim Kept (same_text name (bytes "source_profile")) (λ _. refl)
                          (λ _.
                            if_elim Kept
                              (same_text name (bytes "sso_session")
                                || same_text name (bytes "sso_start_url"))
                              (λ _. refl) (λ _. refl)))))))
  where
    Kept : Profile → Type 0
    Kept t = t.credentials ≡ r.credentials

assign-keys :
    (name value : Text) (r : Profile)
    → (assign name value r).credentials ≡ last_keys ((name, value) ∷ []) r.credentials
unfolding assign same_text
assign-keys name value r = elim (Bool-cases (is_access_key name)) [
  | inl a ↦
      let e = same_text-eq name (bytes "aws_access_key_id") a in
      let no_secret : is_secret_key name ≡ false = ap is_secret_key e in
      let no_token : is_token name ≡ false = ap is_token e in rw (a, no_secret, no_token) refl
  | inr a ↦ elim (Bool-cases (is_secret_key name)) [
    | inl s ↦
        let e = same_text-eq name (bytes "aws_secret_access_key") s in
        let no_token : is_token name ≡ false = ap is_token e in rw (a, s, no_token) refl
    | inr s ↦ elim (Bool-cases (is_token name)) [
      | inl t ↦ rw (a, s, t) refl
      | inr t ↦ rw (a, s, t) (others name value r)
    ]
  ]
]

last_keys-append :
    (a b : List (Text × Text)) (k : Keys) → last_keys (a ++ b) k ≡ last_keys b (last_keys a k)
last_keys-append [] b k = refl
last_keys-append (e ∷ a) b k = last_keys-append a b (last_keys (e ∷ []) k)

-- The entries are assigned in their order.
assign_all-keys :
    (es : List (Text × Text)) (r : Profile)
    → (assign_all es r).credentials ≡ last_keys es r.credentials
unfolding assign_all
assign_all-keys [] r = refl
assign_all-keys ((name, value) ∷ es) r =
    assign_all-keys es (assign name value r) ∙ ap (last_keys es) (assign-keys name value r)

-- A header selects the section if it has the name of the profile.
header_read :
    (profile : Text) (config_file selected : Bool) (s : Section) (lines : List Text) (r : Profile)
    → IsSection config_file s
    → parse_lines profile config_file selected (header_line s ∷ lines) r
      ≡ parse_lines profile config_file (same_text s.name profile) lines r
unfolding parse_lines
header_read profile config_file selected s lines r v =
    rw
      (
        credential_trim-header_line config_file s v,
        is_section-bracketed s,
        section_name-bracketed config_file s v,
      )
      refl

sections_read :
    (profile : Text) (config_file selected : Bool) (ss : List Section) (r : Profile)
    → AreSections config_file ss
    → (parse_lines profile config_file selected (section_lines ss) r).credentials
      ≡ last_keys (given profile ss) r.credentials
unfolding section_lines given parse_lines
sections_read profile config_file selected [] r h = refl
sections_read profile config_file selected (s ∷ ss) r h =
    let read =
      header_read profile config_file selected s (item_lines s.items ++ section_lines ss) r h.0
      ∙ parse_lines-items profile config_file (same_text s.name profile) s.items (section_lines ss)
          r (h.0).items in
    let rest = sections_read profile config_file (same_text s.name profile) ss _ h.1 in
    ap (λ (t : Profile). t.credentials) read ∙ rest ∙ elim (Bool-cases (same_text s.name profile)) [
      | inl e ↦ rw e (
          ap (last_keys (given profile ss)) (assign_all-keys (entries s.items) r)
          ∙ sym (last_keys-append (entries s.items) (given profile ss) r.credentials))
      | inr e ↦ rw e refl
    ]

sections-AreLines :
    (config_file : Bool) (ss : List Section)
    → AreSections config_file ss
    → AreLines (section_lines ss)
unfolding section_lines
sections-AreLines config_file [] h = tt
sections-AreLines config_file (s ∷ ss) h = (
  header_line-Without config_file s h.0,
  AreLines-append (item_lines s.items) (section_lines ss) (item_lines-AreLines s.items (h.0).items)
      (sections-AreLines config_file ss h.1),
)

parse_profile_file-keys :
    (profile : Text) (config_file : Bool) (w : Written) (r : Profile)
    → IsWritten config_file w
    → (parse_profile_file (written_text w) profile config_file r).credentials
      ≡ last_keys (given profile w.sections) r.credentials
unfolding parse_profile_file written_text written_lines
parse_profile_file-keys profile config_file w r h =
    let lines = lines_of-end_lines (item_lines w.preamble ++ section_lines w.sections) (
      AreLines-append (item_lines w.preamble) (section_lines w.sections)
        (item_lines-AreLines w.preamble h.0) (sections-AreLines config_file w.sections h.1)) in
    ap (λ (t : List Text). (parse_lines profile config_file false t r).credentials) lines
    ∙ ap (λ (t : Profile). t.credentials)
        (parse_lines-items profile config_file false w.preamble (section_lines w.sections) r h.0)
    ∙ sections_read profile config_file false w.sections r h.1

-- Of a config file and a shared credentials file that are written (`IsWritten`): as sections of
-- entries, comments and blank lines, with spaces, tabs and carriage returns round the words; a name
-- and a value are visible at both ends, a value may be empty, and the name of an entry has no equals
-- sign and does not begin like a comment or a section. In the config file the word `profile` may
-- stand before the name of a section, and no name begins with it; in the shared file it is a part
-- of the name. Then the keys of a profile are those of the last entries for them, first of the
-- sections of the config file with the profile's name, then of those of the shared file, and empty
-- without one; what stands in front of the first section, or in a comment, counts for nothing.
pub load_profile-keys :
    (config shared : Written) (profile : Text)
    → IsWritten true config
    → IsWritten false shared
    → (load_profile (written_text config) (written_text shared) profile).credentials
      ≡ last_keys (given profile config.sections ++ given profile shared.sections) no_keys
unfolding load_profile
load_profile-keys config shared profile c s =
    parse_profile_file-keys profile false shared _ s
    ∙ ap (last_keys (given profile shared.sections))
        (parse_profile_file-keys profile true config no_profile c)
    ∙ sym (last_keys-append (given profile config.sections) (given profile shared.sections) no_keys)
