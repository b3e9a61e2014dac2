-- ===== src/Models/Event.antt =====
-- models/events.py: a lifecycle event and the checks of its construction.
use ctx_ttl_oss.Prelude.{
  ℕ, String, Bool, true, false, not, ◌&&◌, ◌||◌, Option, ◌==◌, nat_eq, string_eq, option_eq,
  list_eq, is_some, is_none, value_error, Result, ok, ◌>>◌, raise_if,
}
use ctx_ttl_oss.Models.Dimensions.{
  ContextScope, Authority, EventType, kind_eq, scope_eq, retention_eq, applicability_eq,
  authority_eq, status_eq, event_type_eq,
}
use ctx_ttl_oss.Json.{Json, Fields, null}
use ctx_ttl_oss.Models.Context.{ContextOwner, SourceRef, OwnerKey, key_for}

pub record ContextEvent : Type 0 where
  pub id : String
  pub event_type : EventType
  pub subject : String
  pub scope : ContextScope
  pub authority : Authority
  pub owner : ContextOwner
  pub source : SourceRef
  pub value : Json
  pub target_context_id : Option String
  pub reason : Option String
  pub created_at : ℕ
  pub metadata : Fields

-- `value is not None`
abbrev pub is_null : Json → Bool
is_null null = true
is_null _ = false

unfoldable pub event_owner_key : ContextEvent → Result OwnerKey
unfolding key_for
event_owner_key e = key_for e.owner e.scope e.source.turn_id

abbrev pub ends_lifecycle : EventType → Bool
ends_lifecycle t = t == EventType.retract || t == EventType.expire

unfoldable pub validate_operation : ContextEvent → Result (Unit {0})
unfolding event_owner_key
validate_operation e = do
  event_owner_key e
  raise_if (not (e.owner.session_id == e.source.session_id)) value_error
  raise_if (e.event_type == EventType.assert && is_some e.target_context_id) value_error
  raise_if (e.event_type == EventType.supersede && is_none e.target_context_id) value_error
  raise_if (ends_lifecycle e.event_type && is_none e.target_context_id) value_error
  raise_if (ends_lifecycle e.event_type && not (is_null e.value)) value_error

-- `ContextEvent(...)`
unfoldable pub construct_event : ContextEvent → Result ContextEvent
unfolding validate_operation
construct_event e = do validate_operation e; ok e
