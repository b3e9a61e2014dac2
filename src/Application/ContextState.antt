-- ===== src/Application/ContextState.antt =====
-- application/context_state.py: `ContextStateManager`, which builds the event of each lifecycle
-- operation and hands it to the store.
pub mod Keeps
use ctx_ttl_oss.Prelude.{
  String, not, ◌&&◌, ◌||◌, Option, none, some, ◌==◌, nat_eq, string_eq, option_eq, list_eq, is_some,
  is_none, or_text, context_conflict, context_not_found, ok, err, ℕ,
}
use ctx_ttl_oss.Models.Dimensions.{
  Authority, ContextStatus, EventType, kind_eq, scope_eq, retention_eq, applicability_eq,
  authority_eq, status_eq, event_type_eq,
}
use ctx_ttl_oss.Models.Context.{key_for, ContextOwner, SourceRef, ContextItem, owner_key}
use ctx_ttl_oss.Models.Event.{ContextEvent}
use ctx_ttl_oss.Json.{Fields, null, end}
use ctx_ttl_oss.Storage.Store.{get_item, ApplyResult, IdempotencyRequest, apply, apply_idempotent}
use ctx_ttl_oss.Application.Service.{
  Stamps, Act, ◌>>=◌, ◌>>◌, raise_if, lift, reads, commits, new_id, utc_now,
}
use ctx_ttl_oss.Models.Event.{construct_event}
use Prim.Native.String.{◌++◌ as ◌+++◌}

-- `_validate_new_item`
unfoldable pub validate_new_item : ContextItem → Act (Unit {0})
validate_new_item i = do
  raise_if (not (i.status == ContextStatus.active)) context_conflict
  raise_if (is_some i.source_event_id || is_some i.supersedes) context_conflict

-- `_apply`
unfoldable pub apply_event :
    ContextEvent → Option ContextItem → Option IdempotencyRequest → Act ApplyResult
apply_event e item none = commits (apply e item)
apply_event e item (some q) = commits (apply_idempotent e item q)

-- `_required_item`
unfoldable pub required_item : String → Act ContextItem
required_item id = do
  found ← reads (get_item id)
  lift (elim found [ none ↦ err context_not_found | some i ↦ ok i ])

abbrev pub empty_fields : Fields
empty_fields = end

-- the event of a new item
abbrev pub new_item_event :
    EventType → ContextItem → Option String → Option String → String → ℕ → ContextEvent
new_item_event type i target reason id created_at = record {
  id = "evt_" +++ id;
  event_type = type;
  subject = or_text i.subject i.id;
  scope = i.scope;
  authority = i.authority;
  owner = i.owner;
  source = i.source;
  value = i.value;
  target_context_id = target;
  reason = reason;
  created_at = created_at;
  metadata = empty_fields;
}

-- the event that ends a target
abbrev pub end_event :
    EventType
    → ContextItem
    → ContextOwner
    → SourceRef
    → Authority
    → Option String
    → String
    → ℕ
    → ContextEvent
end_event type target owner source authority reason id created_at = record {
  id = "evt_" +++ id;
  event_type = type;
  subject = or_text target.subject target.id;
  scope = target.scope;
  authority = authority;
  owner = owner;
  source = source;
  value = null;
  target_context_id = some target.id;
  reason = reason;
  created_at = created_at;
  metadata = empty_fields;
}

module _ (s : Stamps) where
  -- `ContextEvent(...)` of a new item
  unfoldable pub item_event :
      EventType → ContextItem → Option String → Option String → Act ContextEvent
  item_event type i target reason = do
    id ← new_id s
    created_at ← utc_now s
    lift (construct_event (new_item_event type i target reason id created_at))

  unfoldable pub assert_item :
      ContextItem → Option String → Option IdempotencyRequest → Act ApplyResult
  assert_item i reason idempotency = do
    validate_new_item i
    e ← item_event EventType.assert i none reason
    apply_event e (some (record i { source_event_id = some e.id })) idempotency

  unfoldable pub supersede :
      String → ContextItem → Option String → Option IdempotencyRequest → Act ApplyResult
  supersede target_context_id i reason idempotency = do
    validate_new_item i
    target ← required_item target_context_id
    raise_if (not (target.status == ContextStatus.active) && is_none idempotency) context_conflict
    item_key ← lift (owner_key i)
    target_key ← lift (owner_key target)
    raise_if (not (item_key == target_key)) context_conflict
    raise_if (not (i.scope == target.scope) || not (i.subject == target.subject)) context_conflict
    e ← item_event EventType.supersede i (some target.id) reason
    apply_event e (some (record i { source_event_id = some e.id; supersedes = some target.id }))
        idempotency

  -- `_end_lifecycle`
  unfoldable pub end_lifecycle :
      EventType → String → ContextOwner → SourceRef → Authority → Option String → Act ApplyResult
  end_lifecycle type target_context_id owner source authority reason = do
    target ← required_item target_context_id
    raise_if (not (target.status == ContextStatus.active)) context_conflict
    key ← lift (key_for owner target.scope source.turn_id)
    target_key ← lift (owner_key target)
    raise_if (not (key == target_key)) context_conflict
    id ← new_id s
    created_at ← utc_now s
    e ← lift (construct_event (end_event type target owner source authority reason id created_at))
    apply_event e none none

  unfoldable pub retract :
      String → ContextOwner → SourceRef → Authority → Option String → Act ApplyResult
  unfolding end_lifecycle
  retract = end_lifecycle EventType.retract

  unfoldable pub expire :
      String → ContextOwner → SourceRef → Authority → Option String → Act ApplyResult
  unfolding end_lifecycle
  expire = end_lifecycle EventType.expire
