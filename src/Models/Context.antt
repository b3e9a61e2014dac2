-- ===== src/Models/Context.antt =====
-- models/context.py: the owner of a context item, its source, the item and its lifecycle checks.
-- A datetime is its number of microseconds in UTC, which is what `as_utc` leaves of an aware one. A
-- float of [0, 1] is its number of millionths. An owner key is the list of coordinates that
-- `key_for` prints by `json.dumps`, an encoding from which they can be read back.
use ctx_ttl_oss.Prelude.{
  ℕ, String, Bool, true, false, not, ◌&&◌, ◌||◌, Option, none, some, List, [], ◌∷◌, ◌==◌, nat_eq,
  string_eq, option_eq, list_eq, leb, is_some, or_text, value_error, Result, ok, ◌>>=◌, ◌>>◌,
  raise_if, or_raise,
}
use ctx_ttl_oss.Models.Dimensions.{
  ContextKind, ContextScope, Retention, ContextApplicability, Authority, ContextStatus, kind_eq,
  scope_eq, retention_eq, applicability_eq, authority_eq, status_eq, event_type_eq,
}
use ctx_ttl_oss.Json.{Json, Fields}

abbrev pub OwnerKey : Type 0
OwnerKey = List String

-- `StrEnum.value`
abbrev pub scope_value : ContextScope → String
scope_value ContextScope.turn = "turn"
scope_value ContextScope.session = "session"
scope_value ContextScope.task = "task"
scope_value ContextScope.agent = "agent"
scope_value ContextScope.project = "project"
scope_value ContextScope.user = "user"

pub record ContextOwner : Type 0 where
  pub session_id : String
  pub user_id : Option String
  pub task_id : Option String
  pub agent_id : Option String
  pub project_id : Option String

-- `[scope, namespace]`, the project if there is one, and the last coordinate
abbrev pub with_project : String → String → Option String → String → OwnerKey
with_project scope namespace none last = scope ∷ namespace ∷ last ∷ []
with_project scope namespace (some p) last = scope ∷ namespace ∷ p ∷ last ∷ []

unfoldable pub key_for : ContextOwner → ContextScope → Option String → Result OwnerKey
key_for o ContextScope.turn turn_id = do
  t ← or_raise turn_id value_error
  ok ("turn" ∷ o.session_id ∷ t ∷ [])
key_for o ContextScope.session turn_id = ok ("session" ∷ o.session_id ∷ [])
key_for o ContextScope.task turn_id = do
  t ← or_raise o.task_id value_error
  ok (with_project "task" (or_text o.user_id o.session_id) o.project_id t)
key_for o ContextScope.agent turn_id = do
  a ← or_raise o.agent_id value_error
  ok (with_project "agent" (or_text o.user_id o.session_id) o.project_id a)
key_for o ContextScope.project turn_id = do
  p ← or_raise o.project_id value_error
  ok ("project" ∷ or_text o.user_id o.session_id ∷ p ∷ [])
key_for o ContextScope.user turn_id = do u ← or_raise o.user_id value_error; ok ("user" ∷ u ∷ [])

pub record SourceRef : Type 0 where
  pub session_id : String
  pub turn_id : Option String
  pub tool_call_id : Option String
  pub document_id : Option String
  pub timestamp : ℕ

pub record ContextItem : Type 0 where
  pub id : String
  pub kind : ContextKind
  pub scope : ContextScope
  pub retention : Retention
  pub applicability : ContextApplicability
  pub authority : Authority
  pub status : ContextStatus
  pub subject : Option String
  pub value : Json
  pub priority : ℕ
  pub confidence : ℕ
  pub created_at : ℕ
  pub owner : ContextOwner
  pub source : SourceRef
  pub source_event_id : Option String
  pub supersedes : Option String
  pub token_cost : Option ℕ
  pub ttl_turns : Option ℕ
  pub expires_at : Option ℕ
  pub metadata : Fields

unfoldable pub owner_key : ContextItem → Result OwnerKey
unfolding key_for
owner_key i = key_for i.owner i.scope i.source.turn_id

abbrev pub has_lease : ContextItem → Bool
has_lease i = is_some i.ttl_turns || is_some i.expires_at

abbrev pub expires_early : Option ℕ → ℕ → Bool
expires_early none created_at = false
expires_early (some t) created_at = leb t created_at

abbrev pub is_untrusted : Authority → Bool
is_untrusted a =
    a == Authority.retrieved_source || a == Authority.assistant_inference || a == Authority.summary

-- `validate_lifecycle`: the checks that every construction of an item runs
unfoldable pub validate_lifecycle : ContextItem → Result (Unit {0})
unfolding owner_key
validate_lifecycle i = do
  owner_key i
  raise_if (not (i.owner.session_id == i.source.session_id)) value_error
  raise_if (i.retention == Retention.leased && not (has_lease i)) value_error
  raise_if (not (i.retention == Retention.leased) && has_lease i) value_error
  raise_if (expires_early i.expires_at i.created_at) value_error
  raise_if (i.supersedes == some i.id) value_error
  raise_if
      (i.applicability == ContextApplicability.current_turn && not (i.scope == ContextScope.turn))
      value_error
  raise_if
      (i.applicability == ContextApplicability.current_turn
        && not (i.retention == Retention.ephemeral))
      value_error
  raise_if (i.applicability == ContextApplicability.required && is_untrusted i.authority)
      value_error

-- the range checks of the fields: `ge=0.0, le=1.0`, and `ge=1` of `ttl_turns`
abbrev pub positive : Option ℕ → Bool
positive none = true
positive (some n) = leb 1 n

unfoldable pub validate_fields : ContextItem → Result (Unit {0})
validate_fields i = do
  raise_if (not (leb i.priority 1000000)) value_error
  raise_if (not (leb i.confidence 1000000)) value_error
  raise_if (not (positive i.ttl_turns)) value_error

-- `ContextItem(...)`
unfoldable pub construct_item : ContextItem → Result ContextItem
unfolding validate_lifecycle validate_fields
construct_item i = do validate_fields i; validate_lifecycle i; ok i
