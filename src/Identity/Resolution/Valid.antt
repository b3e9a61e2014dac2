-- ===== src/Identity/Resolution/Valid.antt =====
-- What a resolved identity is made of, and that two of them are isolated.
use ctx_ttl_oss.Identity.Isolation.{reachable_isolated}
use ctx_ttl_oss.Models.Context.{OwnerKey}
use ctx_ttl_oss.Identity.Resolution.{header}
use ctx_ttl_oss.Identity.Resolution.{
  compile_for, Headers, IdentitySettings, is_identity, validate_identity, or_user, with_session,
  identity_with, resolve_identity,
}
use ctx_ttl_oss.Identity.{RequestIdentity, reachable_owner_keys}
use ctx_ttl_oss.Models.Dimensions.{
  kind_eq, scope_eq, retention_eq, applicability_eq, authority_eq, status_eq, event_type_eq,
}
use ctx_ttl_oss.Prelude.{
  String, ◌≡◌, refl, ap, subst, ◌∙◌, inl, inr, Bool, true, false, Option, none, some, ◌==◌, nat_eq,
  string_eq, option_eq, list_eq, Bool-cases, ok, >>=_inv, ok_inj, ◌⊎◌, List, contains, sym,
  if◌then◌else◌,
}

-- an identity that is there is well formed
abbrev pub IsNamed : Option String → Type 0
IsNamed o = (u : String) → o ≡ some u → is_identity u ≡ true

validate_identity-IsNamed : (given v : Option String) → validate_identity given ≡ ok v → IsNamed v
unfolding validate_identity
validate_identity-IsNamed none v h u e = absurd (let k = ok_inj h in cc)
validate_identity-IsNamed (some value) v h u e = elim (Bool-cases (value == "")) [
  | inl empty ↦ absurd (let h' = rw empty at h in let k = ok_inj h' in cc)
  | inr full ↦
      let h' = rw full at h in
      elim (Bool-cases (is_identity value)) [
        | inl fits ↦
            let h'' = rw fits at h' in
            let k : some value ≡ v = ok_inj h'' in
            let same : value ≡ u = cc in subst (λ x. is_identity x ≡ true) same fits
        | inr bad ↦ absurd (let h'' = rw bad at h' in cc)
      ]
]

-- `value or None`
abbrev pub non_blank : Option String → Option String
non_blank none = none
non_blank (some v) = if v == "" then none else some v

validate_identity-non_blank :
    (given v : Option String) → validate_identity given ≡ ok v → v ≡ non_blank given
unfolding validate_identity
validate_identity-non_blank none v h = sym (ok_inj h)
validate_identity-non_blank (some value) v h = elim (Bool-cases (value == "")) [
  | inl empty ↦ let h' = rw empty at h in rw empty (sym (ok_inj h'))
  | inr full ↦
      let h' = rw full at h in
      elim (Bool-cases (is_identity value)) [
        | inl fits ↦ let h'' = rw fits at h' in rw full (sym (ok_inj h''))
        | inr bad ↦ absurd (let h'' = rw bad at h' in cc)
      ]
]

-- a validated identity that is there is the given one
validated_given :
    (given : Option String) (u : String) → validate_identity given ≡ ok (some u) → given ≡ some u
unfolding validate_identity
validated_given none u h = absurd (cc)
validated_given (some value) u h = elim (Bool-cases (value == "")) [
  | inl empty ↦ absurd (let h' = rw empty at h in cc)
  | inr full ↦
      let h' = rw full at h in
      elim (Bool-cases (is_identity value)) [
        | inl fits ↦ let h'' = rw fits at h' in ok_inj h''
        | inr bad ↦ absurd (let h'' = rw bad at h' in cc)
      ]
]

pub is_identity-full : (u : String) → is_identity u ≡ true → (u == "") ≡ false
unfolding is_identity
is_identity-full u h = elim (Bool-cases (u == "")) [
  | inl empty ↦
      let blank : is_identity "" ≡ true =
        subst (λ x. is_identity x ≡ true) ((string_eq.beq_iff u "").0 empty) h in
      absurd (cc)
  | inr full ↦ full
]

with_session_inv :
    (passes_through : Bool) (session_id : Option String) (make : String → RequestIdentity)
    (i : RequestIdentity)
    → with_session passes_through session_id make ≡ ok (compile_for i)
    → (s : String) × (session_id ≡ some s) × (make s ≡ i)
with_session_inv true none make i h = absurd (let k = ok_inj h in cc)
with_session_inv false none make i h = absurd (cc)
with_session_inv p (some s) make i h =
    let k : compile_for (make s) ≡ compile_for i = ok_inj h in (s, refl, cc)

-- Where headers resolve to an identity, its session is the value of the session header, never anything
-- else of the request; its user is the value of the user header or else the user field of the request,
-- its task, agent, project and turn are the values of their headers, and each of these is there just
-- where that value is there and not blank; and every id of it is well formed.
pub resolve_identity-IsNamed :
    (headers : Headers) (request_user : Option String) (settings : IdentitySettings)
    (i : RequestIdentity)
    → resolve_identity headers request_user settings ≡ ok (compile_for i)
    → (header settings.session_header headers ≡ some i.session_id)
      × (is_identity i.session_id ≡ true)
      × (i.user_id ≡ non_blank (or_user (header settings.user_header headers) request_user))
      × (i.task_id ≡ non_blank (header settings.task_header headers))
      × (i.agent_id ≡ non_blank (header settings.agent_header headers))
      × (i.project_id ≡ non_blank (header settings.project_header headers))
      × (i.turn_id ≡ non_blank (header settings.turn_header headers))
      × IsNamed i.user_id
      × IsNamed i.task_id
      × IsNamed i.agent_id
      × IsNamed i.project_id
      × IsNamed i.turn_id
unfolding resolve_identity
resolve_identity-IsNamed headers request_user s i h =
    let (session, h₁, r₁) = >>=_inv (validate_identity (header s.session_header headers)) _ h in
    let given = or_user (header s.user_header headers) request_user in
    let (user, h₂, r₂) = >>=_inv (validate_identity given) _ r₁ in
    let (task, h₃, r₃) = >>=_inv (validate_identity (header s.task_header headers)) _ r₂ in
    let (agent, h₄, r₄) = >>=_inv (validate_identity (header s.agent_header headers)) _ r₃ in
    let (project, h₅, r₅) = >>=_inv (validate_identity (header s.project_header headers)) _ r₄ in
    let (turn, h₆, last) =
      >>=_inv (validate_identity (header s.turn_header headers))
        (λ turn. with_session s.passes_through session (identity_with user task agent project turn))
        r₅ in
    let (sid, has_session, made) =
      with_session_inv s.passes_through session (identity_with user task agent project turn) i
        last in
    let named : validate_identity (header s.session_header headers) ≡ ok (some sid) =
      h₁ ∙ ap ok has_session in
    subst
      (λ (i : RequestIdentity).
        (header s.session_header headers ≡ some i.session_id)
        × (is_identity i.session_id ≡ true)
        × (i.user_id ≡ non_blank (or_user (header s.user_header headers) request_user))
        × (i.task_id ≡ non_blank (header s.task_header headers))
        × (i.agent_id ≡ non_blank (header s.agent_header headers))
        × (i.project_id ≡ non_blank (header s.project_header headers))
        × (i.turn_id ≡ non_blank (header s.turn_header headers))
        × IsNamed i.user_id
        × IsNamed i.task_id
        × IsNamed i.agent_id
        × IsNamed i.project_id
        × IsNamed i.turn_id)
      made
      (
        validated_given (header s.session_header headers) sid named,
        validate_identity-IsNamed (header s.session_header headers) (some sid) named sid refl,
        validate_identity-non_blank given user h₂,
        validate_identity-non_blank (header s.task_header headers) task h₃,
        validate_identity-non_blank (header s.agent_header headers) agent h₄,
        validate_identity-non_blank (header s.project_header headers) project h₅,
        validate_identity-non_blank (header s.turn_header headers) turn h₆,
        validate_identity-IsNamed given user h₂,
        validate_identity-IsNamed (header s.task_header headers) task h₃,
        validate_identity-IsNamed (header s.agent_header headers) agent h₄,
        validate_identity-IsNamed (header s.project_header headers) project h₅,
        validate_identity-IsNamed (header s.turn_header headers) turn h₆,
      )

-- Two requests that resolve to identities which name a user reach a common owner key only if they
-- have the session or the user in common, for whatever turns.
pub resolved_isolated :
    (headers_a headers_b : Headers) (request_user_a request_user_b : Option String)
    (settings : IdentitySettings) (a b : RequestIdentity) (user_a user_b : String)
    (turn_a turn_b : Option String) (keys_a keys_b : List OwnerKey) (k : OwnerKey)
    → resolve_identity headers_a request_user_a settings ≡ ok (compile_for a)
    → resolve_identity headers_b request_user_b settings ≡ ok (compile_for b)
    → a.user_id ≡ some user_a
    → b.user_id ≡ some user_b
    → reachable_owner_keys a turn_a ≡ ok keys_a
    → reachable_owner_keys b turn_b ≡ ok keys_b
    → contains k keys_a ≡ true
    → contains k keys_b ≡ true
    → (a.session_id ≡ b.session_id) ⊎ (user_a ≡ user_b)
resolved_isolated ha hb ra rb settings a b user_a user_b ta tb ks ls k res_a res_b is_a is_b =
    let (_, _, _, _, _, _, _, named_a, _, _, _, _) =
      resolve_identity-IsNamed ha ra settings a res_a in
    let (_, _, _, _, _, _, _, named_b, _, _, _, _) =
      resolve_identity-IsNamed hb rb settings b res_b in
    reachable_isolated a b user_a user_b ta tb ks ls k is_a is_b
      (is_identity-full user_a (named_a user_a is_a))
      (is_identity-full user_b (named_b user_b is_b))
