-- ===== src/Credentials/Profile.antt =====
-- The profile files (src/credentials.cpp, `parse_profile_file` and `load_profile`). A file that cannot
-- be opened is the empty text.
pub mod Trim
pub mod Written
pub mod Lines
pub mod Items
pub mod Last
use ngs3fs.Prelude.{
  ℕ, ◌+◌, ◌-◌, Bool, true, false, ◌||◌, ◌&&◌, ◌==◌, if◌then◌else◌, List, [], ◌∷◌, ◌++◌, Option,
  none, some,
}
use ngs3fs.S3.Text.{Text, bytes, same_text, strip_prefix, split_at, last_byte}
use ngs3fs.Credentials.{Keys, credential_trim, is_empty}

-- `CredentialProvider::Profile`
pub record Profile : Type 0 where
  pub credentials : Keys
  pub process : Text
  pub token_file : Text
  pub role_arn : Text
  pub role_session_name : Text
  pub credential_source : Text
  pub source_profile : Text
  pub sso_session : Text

abbrev pub no_keys : Keys
no_keys = record { access_key_id = []; secret_access_key = []; session_token = [] }

abbrev pub no_profile : Profile
no_profile = record {
  credentials = no_keys;
  process = [];
  token_file = [];
  role_arn = [];
  role_session_name = [];
  credential_source = [];
  source_profile = [];
  sso_session = [];
}

abbrev pub first_byte : Text → ℕ
first_byte [] = 0
first_byte (c ∷ cs) = c

-- `text.substr(1, text.size() - 2)` of a text in brackets.
abbrev pub all_but_last : Text → Text
all_but_last [] = []
all_but_last (c ∷ []) = []
all_but_last (c ∷ d ∷ cs) = c ∷ all_but_last (d ∷ cs)

abbrev pub between : Text → Text
between [] = []
between (c ∷ cs) = all_but_last cs

unfoldable pub without_prefix : Option Text → Text → Text
without_prefix none section = section
without_prefix (some rest) section = credential_trim rest

-- The name of a section; in the config file the word `profile` stands before it.
unfoldable pub section_name : Bool → Text → Text
section_name config_file text =
    let section = credential_trim (between text) in
    if config_file
    then without_prefix (strip_prefix (bytes "profile ") section) section
    else section

-- One field is assigned, by the name.
unfoldable pub assign : Text → Text → Profile → Profile
assign name value r =
    if same_text name (bytes "aws_access_key_id")
    then record r { credentials = record r.credentials { access_key_id = value } }
    else if same_text name (bytes "aws_secret_access_key")
    then record r { credentials = record r.credentials { secret_access_key = value } }
    else if same_text name (bytes "aws_session_token")
        || same_text name (bytes "aws_security_token")
    then record r { credentials = record r.credentials { session_token = value } }
    else if same_text name (bytes "credential_process")
    then record r { process = value }
    else if same_text name (bytes "web_identity_token_file")
    then record r { token_file = value }
    else if same_text name (bytes "role_arn")
    then record r { role_arn = value }
    else if same_text name (bytes "role_session_name")
    then record r { role_session_name = value }
    else if same_text name (bytes "credential_source")
    then record r { credential_source = value }
    else if same_text name (bytes "source_profile")
    then record r { source_profile = value }
    else if same_text name (bytes "sso_session") || same_text name (bytes "sso_start_url")
    then record r { sso_session = value }
    else r

-- A line with an equals sign.
unfoldable pub assign_line : Option (Text × Text) → Profile → Profile
assign_line none r = r
assign_line (some (name, value)) r = assign (credential_trim name) (credential_trim value) r

abbrev pub is_comment : Text → Bool
is_comment text = is_empty text || (first_byte text == b'#' || first_byte text == b';')

abbrev pub is_section : Text → Bool
is_section text = first_byte text == b'[' && last_byte text == b']'

-- The loop over the lines, by whether their section is selected.
unfoldable pub parse_lines : Text → Bool → Bool → List Text → Profile → Profile
parse_lines profile config_file selected [] r = r
parse_lines profile config_file selected (line ∷ lines) r =
    let text = credential_trim line in
    let same = parse_lines profile config_file selected lines r in
    let turned =
      parse_lines profile config_file (same_text (section_name config_file text) profile) lines r in
    let assigned =
      parse_lines profile config_file selected lines (assign_line (split_at b'=' text) r) in
    if is_comment text
    then same
    else if is_section text
    then turned
    else if selected
    then assigned
    else same

-- `std::getline`: a last line without a line end counts if it is not empty.
unfoldable pub lines_of : Text → Text → List Text
lines_of line [] = if is_empty line then [] else line ∷ []
lines_of line (c ∷ cs) = if c == 10 then line ∷ lines_of [] cs else lines_of (line ++ c ∷ []) cs

unfoldable pub parse_profile_file : Text → Text → Bool → Profile → Profile
parse_profile_file file profile config_file result =
    parse_lines profile config_file false (lines_of [] file) result

-- Of the config file and the shared credentials file.
unfoldable pub load_profile : Text → Text → Text → Profile
load_profile config_file shared_credentials_file profile =
    parse_profile_file shared_credentials_file profile false
      (parse_profile_file config_file profile true no_profile)
