-- ===== src/Identity/Resolution/Returns.antt =====
-- Which identity a request with well-formed headers resolves to.
use ctx_ttl_oss.Models.Dimensions.{
  kind_eq, scope_eq, retention_eq, applicability_eq, authority_eq, status_eq, event_type_eq,
}
use ctx_ttl_oss.Identity.Resolution.Valid.{IsNamed, non_blank, is_identity-full}
use ctx_ttl_oss.Identity.Resolution.Trimmed.{is_blank, strip-identity, strip-blank}
use ctx_ttl_oss.Identity.Resolution.{
  compile_for, Headers, IdentitySettings, is_identity, validate_identity, or_user, resolve_identity,
  lowered, strip, header,
}
use ctx_ttl_oss.Prelude.{
  String, ◌≡◌, refl, sym, ap, subst, ◌∙◌, inl, inr, true, Option, none, some, [], ◌∷◌, ◌==◌, nat_eq,
  string_eq, option_eq, list_eq, Bool-cases, Option-cases, ok, ◌⊎◌, if◌then◌else◌, or_else,
}
use Prim.Native.String.{◌++◌ as ◌+++◌}

-- the value of the last header of a name, whatever the case of its letters
abbrev pub last_value : String → Headers → Option String
last_value name [] = none
last_value name ((key, value) ∷ headers) = elim (last_value name headers) [
  | none ↦ if lowered key == lowered name then some value else none
  | some later ↦ some later
]

-- the last header of the name has the identity in it, with white space around it, or it is blank
-- or missing
abbrev pub Carries : String → Headers → Option String → Type 0
Carries name headers none =
    (last_value name headers ≡ none)
    ⊎ ((blank : String) × (last_value name headers ≡ some blank) × (is_blank blank ≡ true))
Carries name headers (some id) =
    (left right : String) × (last_value name headers ≡ some (left +++ (id +++ right)))
    × (is_blank left ≡ true)
    × (is_blank right ≡ true)
    × (is_identity id ≡ true)

abbrev stripped : Option String → Option String
stripped none = none
stripped (some v) = some (strip v)

header-last_value :
    (name : String) (headers : Headers) → header name headers ≡ stripped (last_value name headers)
unfolding header
header-last_value name [] = refl
header-last_value name ((key, value) ∷ headers) =
    let rest = header-last_value name headers in
    elim (Option-cases (last_value name headers)) [
      | inl missing ↦
          let later : header name headers ≡ none = rest ∙ ap stripped missing in
          elim (Bool-cases (lowered key == lowered name)) [
            | inl same ↦ rw (later, missing, same) refl
            | inr different ↦ rw (later, missing, different) refl
          ]
      | inr (v, found) ↦
          let later : header name headers ≡ some (strip v) = rest ∙ ap stripped found in
          rw (later, found) refl
    ]

carried :
    (name : String) (headers : Headers) (id : Option String)
    → Carries name headers id
    → (non_blank (header name headers) ≡ id) × IsNamed id
carried name headers none (inl missing) =
    (ap non_blank (header-last_value name headers ∙ ap stripped missing), λ u e. absurd (cc))
carried name headers none (inr (blank, found, is_white)) = (
  ap non_blank (
      header-last_value name headers
      ∙ ap stripped found
      ∙ ap (λ t. some t) (strip-blank blank is_white)),
  λ u e. absurd (cc),
)
carried name headers (some id) (left, right, found, white, white', fits) = (
  ap non_blank (
        header-last_value name headers
        ∙ ap stripped found
        ∙ ap (λ t. some t) (strip-identity left id right fits white white'))
      ∙ rw (is_identity-full id fits) refl,
  λ u e. subst (λ (o : Option String). is_identity (or_else o id) ≡ true) e fits,
)

named_valid :
    (given : Option String)
    → IsNamed (non_blank given)
    → validate_identity given ≡ ok (non_blank given)
unfolding validate_identity
named_valid none named = refl
named_valid (some v) named = elim (Bool-cases (v == "")) [
  | inl empty ↦ rw empty refl
  | inr full ↦ let fits : is_identity v ≡ true = named v (rw full refl) in rw (full, fits) refl
]

validated :
    (given id : Option String)
    → (non_blank given ≡ id) × IsNamed id
    → validate_identity given ≡ ok id
validated given id (same, named) = named_valid given (subst IsNamed (sym same) named) ∙ ap ok same

-- the user header if it is there, or else the user of the request
abbrev pub first_user : Option String → Option String → Option String
first_user none request_user = request_user
first_user (some u) request_user = some u

carried_user :
    (given user request_user : Option String)
    → (non_blank given ≡ user) × IsNamed user
    → IsNamed request_user
    → (non_blank (or_user given request_user) ≡ first_user user request_user)
      × IsNamed (first_user user request_user)
carried_user given user request_user (same, named) fits =
    subst
      (λ u.
        (non_blank (or_user given request_user) ≡ first_user u request_user)
        × IsNamed (first_user u request_user))
      same (chosen given request_user (subst IsNamed (sym same) named) fits)
  where
    whole : (o : Option String) → IsNamed o → non_blank o ≡ o
    whole none h = refl
    whole (some v) h = rw (is_identity-full v (h v refl)) refl

    chosen :
        (given request_user : Option String)
        → IsNamed (non_blank given)
        → IsNamed request_user
        → (non_blank (or_user given request_user) ≡ first_user (non_blank given) request_user)
          × IsNamed (first_user (non_blank given) request_user)
    chosen none request_user h k = (whole request_user k, k)
    chosen (some v) request_user h k = elim (Bool-cases (v == "")) [
      | inl empty ↦ rw empty (whole request_user k, k)
      | inr full ↦ let h' = rw full at h in rw full (rw full refl, h')
    ]

-- Where each header that is there and not blank has a well-formed id in it, whatever white space is
-- around the id and whatever the case of the header's name, the session header is among these, and
-- the user field of the request is missing or well formed, the headers resolve to just these ids,
-- and the user is the field of the request only where the user header has none.
pub resolve_identity-returns :
    (headers : Headers) (request_user : Option String) (settings : IdentitySettings)
    (session_id : String) (user_id task_id agent_id project_id turn_id : Option String)
    → Carries settings.session_header headers (some session_id)
    → Carries settings.user_header headers user_id
    → Carries settings.task_header headers task_id
    → Carries settings.agent_header headers agent_id
    → Carries settings.project_header headers project_id
    → Carries settings.turn_header headers turn_id
    → IsNamed request_user
    → resolve_identity headers request_user settings
      ≡ ok (
          compile_for (record {
            session_id = session_id;
            user_id = first_user user_id request_user;
            task_id = task_id;
            agent_id = agent_id;
            project_id = project_id;
            turn_id = turn_id;
          }))
unfolding resolve_identity
resolve_identity-returns headers request_user s session_id user_id task_id agent_id project_id
      turn_id session user task agent project turn named =
    let given = header s.user_header headers in
    rw
      (
        validated (header s.session_header headers) (some session_id)
            (carried s.session_header headers (some session_id) session),
        validated (or_user given request_user) (first_user user_id request_user) (
            carried_user given user_id request_user (carried s.user_header headers user_id user)
              named),
        validated (header s.task_header headers) task_id
            (carried s.task_header headers task_id task),
        validated (header s.agent_header headers) agent_id
            (carried s.agent_header headers agent_id agent),
        validated (header s.project_header headers) project_id
            (carried s.project_header headers project_id project),
        validated (header s.turn_header headers) turn_id
            (carried s.turn_header headers turn_id turn),
      )
      refl
