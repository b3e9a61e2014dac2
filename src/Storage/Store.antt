-- ===== src/Storage/Store.antt =====
-- storage/sqlite/store.py: `SQLiteContextStateStore.apply` and `apply_idempotent`. The lock and
-- `BEGIN IMMEDIATE` make each call one step, and JSON that is read back is what was written.
pub mod Consistent
pub mod Checks
pub mod Invariant
pub mod Replay
pub mod Steps
pub mod Targets
pub mod Stored
pub mod Frame
pub mod Ended
pub mod Logged
pub mod Expiry
use ctx_ttl_oss.Prelude.{
  String, Bool, true, false, not, ◌&&◌, ◌||◌, Option, none, some, ◌∷◌, ◌==◌, nat_eq, string_eq,
  option_eq, list_eq, is_some, or_text, assertion_error, context_conflict, context_not_found,
  event_conflict, request_conflict, Result, ok, err, any, find,
}
use ctx_ttl_oss.Models.Dimensions.{
  ContextStatus, EventType, kind_eq, scope_eq, retention_eq, applicability_eq, authority_eq,
  status_eq, event_type_eq,
}
use ctx_ttl_oss.Models.Context.{ContextItem, owner_key}
use ctx_ttl_oss.Models.Event.{ContextEvent, event_owner_key}
use ctx_ttl_oss.Storage.Tables.{EventRow, MutationRequest, Db}
use ctx_ttl_oss.Storage.Transaction.{
  Tx, ◌>>=◌, ◌>>◌, pure, lift, gets, modify, raise_if, raise, constraint, transaction,
}
use ctx_ttl_oss.Storage.Rows.{
  event_id_is, item_id_is, insert_event, insert_item, insert_projection, insert_turn_lease,
  replace_status, remove_projection,
}
use ctx_ttl_oss.Json.{json_eq}
use ctx_ttl_oss.Storage.Equality.{event_eq, item_eq, source_eq}

-- application/context_repository.py
pub record ApplyResult : Type 0 where
  pub event : ContextEvent
  pub item : Option ContextItem
  pub applied : Bool

pub record IdempotencyRequest : Type 0 where
  pub session_id : String
  pub request_id : String
  pub request_fingerprint : String
  pub operation : String

unfoldable pub get_item : String → Db → Option ContextItem
get_item id db = elim (find (item_id_is id) db.context_items) [ none ↦ none | some r ↦ some r.item ]

abbrev pub item_id : Option ContextItem → Option String
item_id none = none
item_id (some i) = some i.id

-- the part of `_duplicate_result` below the comparison of events
unfoldable pub stored_duplicate :
    EventRow → Option String → Option ContextItem → Tx (Option ApplyResult)
unfolding get_item
stored_duplicate row none item =
    pure (some (record { event = row.event; item = none; applied = false }))
stored_duplicate row (some id) none = raise assertion_error
stored_duplicate row (some id) (some i) = do
  found ← gets (get_item id)
  stored ← lift (elim found [ none ↦ err context_not_found | some s ↦ ok s ])
  raise_if (not (item_eq (record i { status = stored.status }) stored)) event_conflict
  pure (some (record { event = row.event; item = some stored; applied = false }))

unfoldable pub duplicate_of :
    ContextEvent → Option ContextItem → Option EventRow → Tx (Option ApplyResult)
unfolding stored_duplicate
duplicate_of e item none = pure none
duplicate_of e item (some row) = do
  raise_if (not (event_eq row.event e) || not (row.item_id == item_id item)) event_conflict
  stored_duplicate row row.item_id item

unfoldable pub duplicate_result : ContextEvent → Option ContextItem → Tx (Option ApplyResult)
unfolding duplicate_of
duplicate_result e item = do
  row ← gets (λ db. find (event_id_is e.id) db.events)
  duplicate_of e item row

abbrev pub requires_item : EventType → Bool
requires_item t = t == EventType.assert || t == EventType.supersede

unfoldable pub validate_item : ContextEvent → ContextItem → Tx (Unit {0})
validate_item e i = do
  raise_if (not (i.source_event_id == some e.id)) context_conflict
  raise_if (not (i.status == ContextStatus.active)) context_conflict
  event_key ← lift (event_owner_key e)
  item_key ← lift (owner_key i)
  raise_if
      (not (e.subject == or_text i.subject i.id)
        || not (e.scope == i.scope)
        || not (e.authority == i.authority)
        || not (event_key == item_key)
        || not (source_eq e.source i.source)
        || not (json_eq e.value i.value))
      context_conflict
  raise_if (e.event_type == EventType.assert && is_some i.supersedes) context_conflict
  raise_if (e.event_type == EventType.supersede && not (i.supersedes == e.target_context_id))
      context_conflict

unfoldable pub validate_event_item : ContextEvent → Option ContextItem → Tx (Unit {0})
unfolding validate_item
validate_event_item e none = raise_if (requires_item e.event_type) context_conflict
validate_event_item e (some i) = do
  raise_if (not (requires_item e.event_type)) context_conflict
  validate_item e i

-- `WHERE id = ?` finds nothing for NULL
abbrev pub get_target : Option String → Db → Option ContextItem
get_target none db = none
get_target (some id) db = get_item id db

unfoldable pub required_active_target : ContextEvent → Tx ContextItem
unfolding get_item
required_active_target e = do
  found ← gets (get_target e.target_context_id)
  target ← lift (elim found [ none ↦ err context_not_found | some t ↦ ok t ])
  raise_if (not (target.status == ContextStatus.active)) context_conflict
  event_key ← lift (event_owner_key e)
  target_key ← lift (owner_key target)
  raise_if
      (not (event_key == target_key)
        || not (e.scope == target.scope)
        || not (e.subject == or_text target.subject target.id))
      context_conflict
  pure target

unfoldable pub validate_replacement : ContextItem → ContextItem → Tx (Unit {0})
validate_replacement target i = do
  target_key ← lift (owner_key target)
  item_key ← lift (owner_key i)
  raise_if
      (not (target_key == item_key)
        || not (target.scope == i.scope)
        || not (target.subject == i.subject))
      context_conflict

-- the three inserts of a new active item
unfoldable pub insert_active : ContextItem → Tx (Unit {0})
unfolding insert_item insert_projection insert_turn_lease
insert_active i = do insert_item i; insert_projection i; insert_turn_lease i

unfoldable pub end_target : ContextItem → ContextStatus → Tx (Unit {0})
unfolding replace_status remove_projection
end_target target status = do replace_status target status; remove_projection target.id

abbrev pub ended_status : EventType → ContextStatus
ended_status EventType.retract = ContextStatus.retracted
ended_status _ = ContextStatus.expired

-- the branches on `event_type`; a missing item fails the `assert` of its branch
unfoldable pub project_event : EventType → ContextEvent → Option ContextItem → Tx (Unit {0})
unfolding insert_event insert_active end_target required_active_target validate_replacement
project_event EventType.assert e none = raise assertion_error
project_event EventType.assert e (some i) = do insert_event e (some i.id); insert_active i
project_event EventType.supersede e none = raise assertion_error
project_event EventType.supersede e (some i) = do
  target ← required_active_target e
  validate_replacement target i
  insert_event e (some i.id)
  end_target target ContextStatus.superseded
  insert_active i
project_event t e item = do
  target ← required_active_target e
  insert_event e none
  end_target target (ended_status t)

unfoldable pub fresh_result : ContextEvent → Option ContextItem → Tx ApplyResult
unfolding validate_event_item project_event
fresh_result e item = do
  validate_event_item e item
  project_event e.event_type e item
  pure (record { event = e; item = item; applied = true })

abbrev pub or_fresh : ContextEvent → Option ContextItem → Option ApplyResult → Tx ApplyResult
or_fresh e item none = fresh_result e item
or_fresh e item (some r) = pure r

-- `_apply_in_transaction`
unfoldable pub apply_in_transaction : ContextEvent → Option ContextItem → Tx ApplyResult
unfolding duplicate_result fresh_result
apply_in_transaction e item = do duplicate ← duplicate_result e item; or_fresh e item duplicate

unfoldable pub apply : ContextEvent → Option ContextItem → Db → Result ApplyResult × Db
unfolding apply_in_transaction transaction
apply e item = transaction (apply_in_transaction e item)

abbrev pub request_is : IdempotencyRequest → MutationRequest → Bool
request_is q r =
    r.session_id == q.session_id && r.request_id == q.request_id && r.operation == q.operation

-- `_idempotent_result`
unfoldable pub stored_request :
    IdempotencyRequest → Option MutationRequest → Tx (Option ApplyResult)
stored_request q none = pure none
stored_request q (some r) = do
  raise_if (not (r.request_fingerprint == q.request_fingerprint)) request_conflict
  pure (some (record { event = r.event; item = r.item; applied = false }))

unfoldable pub insert_request : IdempotencyRequest → ApplyResult → Tx (Unit {0})
insert_request q r = do
  known ← gets (λ db. any (request_is q) db.mutation_requests)
  constraint (not known)
  modify λ db. record db {
    mutation_requests =
        record {
          session_id = q.session_id;
          request_id = q.request_id;
          operation = q.operation;
          request_fingerprint = q.request_fingerprint;
          event = r.event;
          item = r.item;
        }
        ∷ db.mutation_requests;
  }

unfoldable pub apply_and_record :
    ContextEvent → Option ContextItem → IdempotencyRequest → Option ApplyResult → Tx ApplyResult
unfolding apply_in_transaction insert_request
apply_and_record e item q (some r) = pure r
apply_and_record e item q none = do r ← apply_in_transaction e item; insert_request q r; pure r

unfoldable pub idempotent_in_transaction :
    ContextEvent → Option ContextItem → IdempotencyRequest → Tx ApplyResult
unfolding stored_request apply_and_record
idempotent_in_transaction e item q = do
  row ← gets (λ db. find (request_is q) db.mutation_requests)
  existing ← stored_request q row
  apply_and_record e item q existing

unfoldable pub apply_idempotent :
    ContextEvent → Option ContextItem → IdempotencyRequest → Db → Result ApplyResult × Db
unfolding idempotent_in_transaction transaction
apply_idempotent e item q = transaction (idempotent_in_transaction e item q)
