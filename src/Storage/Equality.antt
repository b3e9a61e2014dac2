-- ===== src/Storage/Equality.antt =====
-- `==` of the models that the store compares: pydantic compares field by field.
use ctx_ttl_oss.Prelude.{
  ◌≡◌, Bool, true, ◌&&◌, ◌==◌, ==-refl, nat_eq, string_eq, option_eq, list_eq,
}
use ctx_ttl_oss.Models.Dimensions.{
  kind_eq, scope_eq, retention_eq, applicability_eq, authority_eq, status_eq, event_type_eq,
}
use ctx_ttl_oss.Models.Context.{ContextOwner, SourceRef, ContextItem}
use ctx_ttl_oss.Models.Event.{ContextEvent}
use ctx_ttl_oss.Json.{Json, Fields, json_eq, obj}

unfoldable pub owner_eq : ContextOwner → ContextOwner → Bool
owner_eq a b =
    a.session_id == b.session_id
    && a.user_id == b.user_id
    && a.task_id == b.task_id
    && a.agent_id == b.agent_id
    && a.project_id == b.project_id

unfoldable pub source_eq : SourceRef → SourceRef → Bool
source_eq a b =
    a.session_id == b.session_id
    && a.turn_id == b.turn_id
    && a.tool_call_id == b.tool_call_id
    && a.document_id == b.document_id
    && a.timestamp == b.timestamp

unfoldable pub event_eq : ContextEvent → ContextEvent → Bool
event_eq a b =
    a.id == b.id
    && a.event_type == b.event_type
    && a.subject == b.subject
    && a.scope == b.scope
    && a.authority == b.authority
    && owner_eq a.owner b.owner
    && source_eq a.source b.source
    && json_eq a.value b.value
    && a.target_context_id == b.target_context_id
    && a.reason == b.reason
    && a.created_at == b.created_at
    && json_eq (obj a.metadata) (obj b.metadata)

unfoldable pub item_eq : ContextItem → ContextItem → Bool
item_eq a b =
    a.id == b.id
    && a.kind == b.kind
    && a.scope == b.scope
    && a.retention == b.retention
    && a.applicability == b.applicability
    && a.authority == b.authority
    && a.status == b.status
    && a.subject == b.subject
    && json_eq a.value b.value
    && a.priority == b.priority
    && a.confidence == b.confidence
    && a.created_at == b.created_at
    && owner_eq a.owner b.owner
    && source_eq a.source b.source
    && a.source_event_id == b.source_event_id
    && a.supersedes == b.supersedes
    && a.token_cost == b.token_cost
    && a.ttl_turns == b.ttl_turns
    && a.expires_at == b.expires_at
    && json_eq (obj a.metadata) (obj b.metadata)

-- A value that equals itself, as every value built by a JSON parser does.
abbrev pub SelfEqual : Json → Fields → Type 0
SelfEqual v fs = (json_eq v v ≡ true) × (json_eq (obj fs) (obj fs) ≡ true)

owner_eq_refl : (a : ContextOwner) → owner_eq a a ≡ true
unfolding owner_eq
owner_eq_refl a = simp ==-refl

source_eq_refl : (a : SourceRef) → source_eq a a ≡ true
unfolding source_eq
source_eq_refl a = simp ==-refl

pub event_eq_refl : (e : ContextEvent) → SelfEqual e.value e.metadata → event_eq e e ≡ true
unfolding event_eq
event_eq_refl e h = simp (==-refl, owner_eq_refl, source_eq_refl, h.0, h.1)

pub item_eq_refl : (i : ContextItem) → SelfEqual i.value i.metadata → item_eq i i ≡ true
unfolding item_eq
item_eq_refl i h = simp (==-refl, owner_eq_refl, source_eq_refl, h.0, h.1)
