-- ===== src/Identity/Tests.antt =====
-- Owner keys of concrete requests, and the theorems at them.
use ctx_ttl_oss.Identity.Resolution.Returns.{Carries, resolve_identity-returns}
use ctx_ttl_oss.Identity.Resolution.Trimmed.{is_blank}
use ctx_ttl_oss.Identity.Resolution.Valid.{
  IsNamed, resolve_identity-IsNamed, resolved_isolated, non_blank,
}
use ctx_ttl_oss.Identity.Resolution.{
  compile_for, Headers, IdentitySettings, is_identity, validate_identity, or_user, resolve_identity,
  header, lowered,
}
use ctx_ttl_oss.Prelude.{
  String, ◌≡◌, refl, ◌⊎◌, true, Option, none, some, List, [], ◌∷◌, nat_eq, string_eq, option_eq,
  list_eq, ok, contains, false, invalid_identity, missing_session_identity, err, subst, inl,
  or_else,
}
use ctx_ttl_oss.Models.Dimensions.{
  kind_eq, scope_eq, retention_eq, applicability_eq, authority_eq, status_eq, event_type_eq,
}
use ctx_ttl_oss.Models.Context.{key_for, OwnerKey}
use ctx_ttl_oss.Identity.{RequestIdentity, reachable_owner_keys}
use ctx_ttl_oss.Identity.Isolation.{reachable_isolated, anonymous_shares_namespace}

abbrev request : String → Option String → RequestIdentity
request session user = record {
  session_id = session;
  user_id = user;
  task_id = some "t1";
  agent_id = none;
  project_id = some "p1";
  turn_id = none;
}

abbrev owner_name : String
owner_name = "ann"

abbrev of_ann : List OwnerKey
of_ann =
    ("session" ∷ "s1" ∷ [])
    ∷ ("task" ∷ "ann" ∷ "p1" ∷ "t1" ∷ [])
    ∷ ("project" ∷ "ann" ∷ "p1" ∷ [])
    ∷ ("user" ∷ "ann" ∷ [])
    ∷ []

reachable-ann : reachable_owner_keys (request "s1" (some "ann")) (some "") ≡ ok of_ann
unfolding reachable_owner_keys key_for
reachable-ann = refl

abbrev of_ann_later : List OwnerKey
of_ann_later =
    ("turn" ∷ "s2" ∷ "7" ∷ [])
    ∷ ("session" ∷ "s2" ∷ [])
    ∷ ("task" ∷ "ann" ∷ "p1" ∷ "t1" ∷ [])
    ∷ ("project" ∷ "ann" ∷ "p1" ∷ [])
    ∷ ("user" ∷ "ann" ∷ [])
    ∷ []

reachable-ann_later : reachable_owner_keys (request "s2" (some "ann")) (some "7") ≡ ok of_ann_later
unfolding reachable_owner_keys key_for
reachable-ann_later = refl

reachable_isolated_example :
    ((request "s1" (some "ann")).session_id ≡ (request "s2" (some "ann")).session_id)
    ⊎ (owner_name ≡ owner_name)
reachable_isolated_example =
    reachable_isolated (request "s1" (some "ann")) (request "s2" (some "ann")) "ann" "ann" (some "")
      (some "7") of_ann of_ann_later ("user" ∷ "ann" ∷ []) refl refl refl refl reachable-ann
      reachable-ann_later refl refl

anonymous_shares_namespace_example :
    (keys_a keys_b : List OwnerKey) × (k : OwnerKey) × (reachable_owner_keys
        (request "ann" none)
        none
      ≡ ok keys_a)
    × (reachable_owner_keys (request "s1" (some "ann")) none ≡ ok keys_b)
    × (contains k keys_a ≡ true)
    × (contains k keys_b ≡ true)
anonymous_shares_namespace_example =
    anonymous_shares_namespace (request "ann" none) (request "s1" (some "ann")) "ann" "p1" none none
      refl refl refl refl refl refl

abbrev default_settings : IdentitySettings
default_settings = record {
  session_header = "X-CtxTTL-Session-ID";
  user_header = "X-CtxTTL-User-ID";
  task_header = "X-CtxTTL-Task-ID";
  agent_header = "X-CtxTTL-Agent-ID";
  project_header = "X-CtxTTL-Project-ID";
  turn_header = "X-CtxTTL-Turn-ID";
  request_header = "X-CtxTTL-Request-ID";
  passes_through = false;
}

abbrev headers_of : String → Headers
headers_of session =
    ("x-ctxttl-session-id", session)
    ∷ ("X-CTXTTL-TASK-ID", "t1")
    ∷ ("x-ctxttl-project-id", "p1")
    ∷ []

resolves-s1 :
    resolve_identity (headers_of " s1 ") (some "ann") default_settings
    ≡ ok (compile_for (request "s1" (some "ann")))
unfolding resolve_identity validate_identity header
resolves-s1 = refl

resolves-s2 :
    resolve_identity (headers_of "s2") (some "ann") default_settings
    ≡ ok (compile_for (request "s2" (some "ann")))
unfolding resolve_identity validate_identity header
resolves-s2 = refl

refuses-malformed :
    resolve_identity (headers_of "-s1") (some "ann") default_settings ≡ err invalid_identity
unfolding resolve_identity validate_identity header
refuses-malformed = refl

refuses-missing :
    resolve_identity (headers_of " ") (some "ann") default_settings ≡ err missing_session_identity
unfolding resolve_identity validate_identity header
refuses-missing = refl

resolve_identity-IsNamed_example :
    (header "X-CtxTTL-Session-ID" (headers_of " s1 ") ≡ some "s1")
    × (is_identity "s1" ≡ true)
    × ((request "s1" (some "ann")).user_id
        ≡ non_blank (or_user (header "X-CtxTTL-User-ID" (headers_of " s1 ")) (some "ann")))
    × ((request "s1" (some "ann")).task_id
        ≡ non_blank (header "X-CtxTTL-Task-ID" (headers_of " s1 ")))
    × ((request "s1" (some "ann")).agent_id
        ≡ non_blank (header "X-CtxTTL-Agent-ID" (headers_of " s1 ")))
    × ((request "s1" (some "ann")).project_id
        ≡ non_blank (header "X-CtxTTL-Project-ID" (headers_of " s1 ")))
    × ((request "s1" (some "ann")).turn_id
        ≡ non_blank (header "X-CtxTTL-Turn-ID" (headers_of " s1 ")))
    × IsNamed (request "s1" (some "ann")).user_id
    × IsNamed (request "s1" (some "ann")).task_id
    × IsNamed (request "s1" (some "ann")).agent_id
    × IsNamed (request "s1" (some "ann")).project_id
    × IsNamed (request "s1" (some "ann")).turn_id
resolve_identity-IsNamed_example =
    resolve_identity-IsNamed (headers_of " s1 ") (some "ann") default_settings
      (request "s1" (some "ann")) resolves-s1

resolved_isolated_example :
    ((request "s1" (some "ann")).session_id ≡ (request "s2" (some "ann")).session_id)
    ⊎ (owner_name ≡ owner_name)
resolved_isolated_example =
    resolved_isolated (headers_of " s1 ") (headers_of "s2") (some "ann") (some "ann")
      default_settings (request "s1" (some "ann")) (request "s2" (some "ann")) "ann" "ann" (some "")
      (some "7") of_ann of_ann_later ("user" ∷ "ann" ∷ []) resolves-s1 resolves-s2 refl refl
      reachable-ann reachable-ann_later refl refl

ann-IsNamed : IsNamed (some owner_name)
unfolding is_identity
ann-IsNamed u h = subst (λ (o : Option String). is_identity (or_else o "") ≡ true) h refl

session-carried : Carries "X-CtxTTL-Session-ID" (headers_of " s1 ") (some "s1")
unfolding lowered is_identity is_blank
session-carried = (" ", " ", refl, refl, refl, refl)

task-carried : Carries "X-CtxTTL-Task-ID" (headers_of " s1 ") (some "t1")
unfolding lowered is_identity is_blank
task-carried = ("", "", refl, refl, refl, refl)

project-carried : Carries "X-CtxTTL-Project-ID" (headers_of " s1 ") (some "p1")
unfolding lowered is_identity is_blank
project-carried = ("", "", refl, refl, refl, refl)

user-missing : Carries "X-CtxTTL-User-ID" (headers_of " s1 ") none
unfolding lowered
user-missing = inl refl

agent-missing : Carries "X-CtxTTL-Agent-ID" (headers_of " s1 ") none
unfolding lowered
agent-missing = inl refl

turn-missing : Carries "X-CtxTTL-Turn-ID" (headers_of " s1 ") none
unfolding lowered
turn-missing = inl refl

resolve_identity-returns_example :
    resolve_identity (headers_of " s1 ") (some "ann") default_settings
    ≡ ok (compile_for (request "s1" (some "ann")))
resolve_identity-returns_example =
    resolve_identity-returns (headers_of " s1 ") (some "ann") default_settings "s1" none (some "t1")
      none (some "p1") none session-carried user-missing task-carried agent-missing project-carried
      turn-missing ann-IsNamed
