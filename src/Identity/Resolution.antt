-- ===== src/Identity/Resolution.antt =====
-- identity.py: the identity that the headers of a request name. Header names and values are
-- Latin-1, and the names of the headers are those of the settings.
pub mod Valid
pub mod Trimmed
pub mod Returns
use ctx_ttl_oss.Identity.{RequestIdentity}
use ctx_ttl_oss.Models.Dimensions.{
  kind_eq, scope_eq, retention_eq, applicability_eq, authority_eq, status_eq, event_type_eq,
}
use ctx_ttl_oss.Prelude.{
  ◌>>=◌, ◌>>◌, raise_if, or_text, invalid_identity, missing_session_identity, ℕ, ◌+◌, String, Bool,
  true, false, not, ◌&&◌, ◌||◌, Option, none, some, List, [], ◌∷◌, ◌==◌, nat_eq, string_eq,
  option_eq, list_eq, leb, if◌then◌else◌, Result, ok, err,
}
use Prim.Native.Char.{Char, code}
use Prim.Native.String.{count, ◌++◌ as ◌+++◌}

abbrev pub Headers : Type 0
Headers = List (String × String)

-- config.py: the fields of `Settings` that `resolve_identity` reads
pub record IdentitySettings : Type 0 where
  pub session_header : String
  pub user_header : String
  pub task_header : String
  pub agent_header : String
  pub project_header : String
  pub turn_header : String
  pub request_header : String
  pub passes_through : Bool

abbrev pub between : ℕ → ℕ → ℕ → Bool
between low high n = leb low n && leb n high

-- `str.lower` of Latin-1 texts, as codes
lower_code : ℕ → ℕ
lower_code n = if between 65 90 n || between 192 222 n && not (n == 215) then n + 32 else n

unfoldable pub lowered : String → List ℕ
unfolding lower_code
lowered String.[] = []
lowered (String.◌∷◌ c s) = lower_code (code c) ∷ lowered s

-- `str.isspace` of Latin-1
abbrev pub is_space : Char → Bool
is_space c = let n = code c in n == 32 || between 9 13 n || between 28 31 n || n == 133 || n == 160

unfoldable pub strip_left : String → String
strip_left String.[] = ""
strip_left (String.◌∷◌ c s) = let rest = strip_left s in if is_space c then rest else String.◌∷◌ c s

unfoldable pub strip_right : String → String
strip_right String.[] = ""
strip_right (String.◌∷◌ c s) =
    let rest = strip_right s in if is_space c && rest == "" then "" else String.◌∷◌ c rest

-- `str.strip`
unfoldable pub strip : String → String
unfolding strip_left strip_right
strip s = strip_left (strip_right s)

-- `normalized.get(name.lower())`: of two headers with one name the later counts
unfoldable pub header : String → Headers → Option String
unfolding lowered strip
header name [] = none
header name ((key, value) ∷ headers) =
    let later = header name headers in
    let own = if lowered key == lowered name then some (strip value) else none in
    elim later [ none ↦ own | some v ↦ some v ]

abbrev pub is_alphanumeric : Char → Bool
is_alphanumeric c = let n = code c in between 48 57 n || between 65 90 n || between 97 122 n

-- `[A-Za-z0-9._:-]`
abbrev pub is_identity_char : Char → Bool
is_identity_char c = let n = code c in is_alphanumeric c || n == 46 || n == 95 || n == 58 || n == 45

unfoldable pub all_identity_chars : String → Bool
all_identity_chars String.[] = true
all_identity_chars (String.◌∷◌ c s) = let rest = all_identity_chars s in is_identity_char c && rest

-- `_IDENTITY_PATTERN.fullmatch`
unfoldable pub is_identity : String → Bool
unfolding all_identity_chars
is_identity String.[] = false
is_identity (String.◌∷◌ c s) = is_alphanumeric c && all_identity_chars s && leb (count s) 127

-- `_validate_identity`
unfoldable pub validate_identity : Option String → Result (Option String)
unfolding is_identity
validate_identity none = ok none
validate_identity (some value) =
    if value == ""
    then ok none
    else if is_identity value
    then ok (some value)
    else err invalid_identity

-- `header_user_id or request_user`
abbrev pub or_user : Option String → Option String → Option String
or_user none request_user = request_user
or_user (some v) request_user = if v == "" then request_user else some v

pub data IdentityResolution : Type 0 where
  passthrough : IdentityResolution
  compile_for : RequestIdentity → IdentityResolution

-- the identity with its session, or what the settings say where it has none
abbrev pub with_session :
    Bool → Option String → (String → RequestIdentity) → Result IdentityResolution
with_session passes_through none identity =
    if passes_through then ok passthrough else err missing_session_identity
with_session passes_through (some session_id) identity = ok (compile_for (identity session_id))

abbrev pub identity_with :
    Option String
    → Option String
    → Option String
    → Option String
    → Option String
    → String
    → RequestIdentity
identity_with user_id task_id agent_id project_id turn_id session_id = record {
  session_id = session_id;
  user_id = user_id;
  task_id = task_id;
  agent_id = agent_id;
  project_id = project_id;
  turn_id = turn_id;
}

unfoldable pub resolve_identity :
    Headers → Option String → IdentitySettings → Result IdentityResolution
unfolding header
resolve_identity headers request_user settings = do
  session_id ← validate_identity (header settings.session_header headers)
  user_id ← validate_identity (or_user (header settings.user_header headers) request_user)
  task_id ← validate_identity (header settings.task_header headers)
  agent_id ← validate_identity (header settings.agent_header headers)
  project_id ← validate_identity (header settings.project_header headers)
  turn_id ← validate_identity (header settings.turn_header headers)
  with_session settings.passes_through session_id
      (identity_with user_id task_id agent_id project_id turn_id)

-- `req_` and the hexadecimal digits of a fresh uuid4, which is a parameter, or the client's id
unfoldable pub resolve_request_id : Headers → IdentitySettings → String → Result String
resolve_request_id headers settings fresh = do
  request_id ← validate_identity (header settings.request_header headers)
  ok (or_text request_id ("req_" +++ fresh))
