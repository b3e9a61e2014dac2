-- ===== src/Storage/Store/Checks.antt =====
-- The checks of `apply` that change nothing.
use ctx_ttl_oss.Prelude.{String, Option, none, some, nat_eq, string_eq, option_eq, list_eq}
use ctx_ttl_oss.Models.Dimensions.{
  kind_eq, scope_eq, retention_eq, applicability_eq, authority_eq, status_eq, event_type_eq,
}
use ctx_ttl_oss.Models.Context.{ContextItem}
use ctx_ttl_oss.Models.Event.{ContextEvent}
use ctx_ttl_oss.Storage.Tables.{EventRow, MutationRequest}
use ctx_ttl_oss.Storage.Store.{
  IdempotencyRequest, stored_duplicate, duplicate_of, duplicate_result, validate_item,
  validate_event_item, required_active_target, validate_replacement, stored_request,
}
use ctx_ttl_oss.Storage.Transaction.ReadOnly.{IsReadOnly, read_only_rules}

pub stored_duplicate-IsReadOnly :
    (row : EventRow) (id : Option String) (item : Option ContextItem)
    → IsReadOnly (stored_duplicate row id item)
unfolding stored_duplicate
stored_duplicate-IsReadOnly row none item = search read_only_rules
stored_duplicate-IsReadOnly row (some id) none = search read_only_rules
stored_duplicate-IsReadOnly row (some id) (some i) = search read_only_rules depth 9

pub duplicate_of-IsReadOnly :
    (e : ContextEvent) (item : Option ContextItem) (row : Option EventRow)
    → IsReadOnly (duplicate_of e item row)
unfolding duplicate_of
duplicate_of-IsReadOnly e item none = search read_only_rules
duplicate_of-IsReadOnly e item (some row) = search (read_only_rules, stored_duplicate-IsReadOnly)

pub duplicate_result-IsReadOnly :
    (e : ContextEvent) (item : Option ContextItem) → IsReadOnly (duplicate_result e item)
unfolding duplicate_result
duplicate_result-IsReadOnly e item = search (read_only_rules, duplicate_of-IsReadOnly)

validate_item-IsReadOnly : (e : ContextEvent) (i : ContextItem) → IsReadOnly (validate_item e i)
unfolding validate_item
validate_item-IsReadOnly e i = search read_only_rules depth 14

pub validate_event_item-IsReadOnly :
    (e : ContextEvent) (item : Option ContextItem) → IsReadOnly (validate_event_item e item)
unfolding validate_event_item
validate_event_item-IsReadOnly e none = search read_only_rules
validate_event_item-IsReadOnly e (some i) = search (read_only_rules, validate_item-IsReadOnly)

pub required_active_target-IsReadOnly : (e : ContextEvent) → IsReadOnly (required_active_target e)
unfolding required_active_target
required_active_target-IsReadOnly e = search read_only_rules depth 14

pub validate_replacement-IsReadOnly : (t i : ContextItem) → IsReadOnly (validate_replacement t i)
unfolding validate_replacement
validate_replacement-IsReadOnly t i = search read_only_rules depth 9

pub stored_request-IsReadOnly :
    (q : IdempotencyRequest) (row : Option MutationRequest) → IsReadOnly (stored_request q row)
unfolding stored_request
stored_request-IsReadOnly q none = search read_only_rules
stored_request-IsReadOnly q (some row) = search read_only_rules
