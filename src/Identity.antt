-- ===== src/Identity.antt =====
-- identity.py: the identity of a request, and the owner keys that it reaches.
pub mod Reach
pub mod Resolution
pub mod Isolation
pub mod Tests
use ctx_ttl_oss.Models.Dimensions.{
  ContextKind, ContextScope, Retention, ContextApplicability, Authority, ContextStatus, EventType,
  kind_eq, scope_eq, retention_eq, applicability_eq, authority_eq, status_eq, event_type_eq,
}
use ctx_ttl_oss.Prelude.{
  ℕ, zero, suc, ◌+◌, ◌-◌, ◌*◌, ◌/◌, ◌%◌, ◌≤◌, ◌<◌, String, ◌≡◌, refl, sym, ap, subst, ◌∙◌, ◌≢◌, ◌↔◌,
  ◌⊎◌, inl, inr, Bool, true, false, not, ◌&&◌, ◌||◌, Option, none, some, List, [], ◌∷◌, ◌++◌, map,
  arith, Eq, ◌==◌, ==-refl, texts_iff, optional_iff, nat_eq, string_eq, option_eq, list_eq, nat_beq,
  ltb, leb, if◌then◌else◌, Bool-cases, Option-cases, is_some, is_none, or_else, or_text, Error,
  value_error, runtime_error, assertion_error, integrity_error, context_conflict, context_not_found,
  event_conflict, request_conflict, protocol_violation, token_budget_exceeded,
  structured_ingestion_error, invalid_identity, missing_session_identity, Result, ok, err, ◌>>=◌,
  ◌>>◌, raise_if, or_raise, >>=_inv, raise_if-eq-ok, ok_inj, length, get_elem?, take, keep, any,
  all, find, sum_by, count_by, sum_by-append, count_by-append, length-append, all-keep,
  sum_by-split, keep-append, keep-keep, All-append, All, contains,
}
use ctx_ttl_oss.Models.Context.{
  key_for, with_project, ContextOwner, SourceRef, ContextItem, OwnerKey, owner_key, scope_value,
}
use ctx_ttl_oss.Models.Event.{ContextEvent, event_owner_key}

pub record RequestIdentity : Type 0 where
  pub session_id : String
  pub user_id : Option String
  pub task_id : Option String
  pub agent_id : Option String
  pub project_id : Option String
  pub turn_id : Option String

-- `ContextOwner(...)` of `reachable_owner_keys`
abbrev pub owner_of : RequestIdentity → ContextOwner
owner_of i = record {
  session_id = i.session_id;
  user_id = i.user_id;
  task_id = i.task_id;
  agent_id = i.agent_id;
  project_id = i.project_id;
}

-- `turn_id or identity.turn_id`
abbrev pub effective_turn_id : Option String → Option String → Option String
effective_turn_id none own = own
effective_turn_id (some t) own = if t == "" then own else some t

-- `if id is not None: keys.append(key)`
abbrev pub append_key : Option String → Result OwnerKey → Result (List OwnerKey)
append_key none key = ok []
append_key (some id) key = do k ← key; ok (k ∷ [])

unfoldable pub reachable_owner_keys : RequestIdentity → Option String → Result (List OwnerKey)
reachable_owner_keys i turn_id = do
  let owner = owner_of i
  let turn = effective_turn_id turn_id i.turn_id
  of_turn ← append_key turn (key_for owner ContextScope.turn turn)
  of_session ← key_for owner ContextScope.session none
  of_task ← append_key i.task_id (key_for owner ContextScope.task none)
  of_agent ← append_key i.agent_id (key_for owner ContextScope.agent none)
  of_project ← append_key i.project_id (key_for owner ContextScope.project none)
  of_user ← append_key i.user_id (key_for owner ContextScope.user none)
  ok (of_turn ++ (of_session ∷ (of_task ++ (of_agent ++ (of_project ++ of_user)))))
