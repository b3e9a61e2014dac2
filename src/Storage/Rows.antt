-- ===== src/Storage/Rows.antt =====
-- storage/sqlite/store.py: the statements that one event runs, with the constraints of schema.py
-- (primary keys, UNIQUE, NOT NULL, CHECK and foreign keys, which `PRAGMA foreign_keys` switches on).
pub mod Effects
use ctx_ttl_oss.Prelude.{
  ℕ, String, Bool, true, false, not, ◌&&◌, ◌||◌, Option, none, some, [], ◌∷◌, ◌++◌, map, ◌==◌,
  nat_eq, string_eq, option_eq, list_eq, leb, if◌then◌else◌, keep, any,
}
use ctx_ttl_oss.Models.Dimensions.{
  ContextStatus, kind_eq, scope_eq, retention_eq, applicability_eq, authority_eq, status_eq,
  event_type_eq,
}
use ctx_ttl_oss.Models.Context.{ContextItem, OwnerKey, owner_key}
use ctx_ttl_oss.Models.Event.{ContextEvent, event_owner_key}
use ctx_ttl_oss.Storage.Tables.{EventRow, ItemRow, Assertion, TurnLease, Db}
use ctx_ttl_oss.Storage.Transaction.{Tx, ◌>>=◌, ◌>>◌, pure, lift, gets, modify, constraint}

abbrev pub event_id_is : String → EventRow → Bool
event_id_is id r = r.event.id == id

abbrev pub item_id_is : String → ItemRow → Bool
item_id_is id r = r.item.id == id

abbrev pub has_event : Option String → Db → Bool
has_event none db = false
has_event (some id) db = any (event_id_is id) db.events

-- NULL passes a foreign key
abbrev pub may_reference_item : Option String → Db → Bool
may_reference_item none db = true
may_reference_item (some id) db = any (item_id_is id) db.context_items

unfoldable pub insert_event : ContextEvent → Option String → Tx (Unit {0})
insert_event e item_id = do
  lift (event_owner_key e)
  known ← gets (λ db. any (event_id_is e.id) db.events)
  constraint (not known)
  modify λ db. record db { events = db.events ++ record { event = e; item_id = item_id } ∷ [] }

abbrev pub source_event_is : Option String → ItemRow → Bool
source_event_is id r = r.item.source_event_id == id

unfoldable pub insert_item : ContextItem → Tx (Unit {0})
insert_item i = do
  key ← lift (owner_key i)
  taken ← gets (λ db. any (item_id_is i.id) db.context_items)
  constraint (not taken)
  used ← gets (λ db. any (source_event_is i.source_event_id) db.context_items)
  constraint (not used)
  sourced ← gets (has_event i.source_event_id)
  constraint sourced
  linked ← gets (may_reference_item i.supersedes)
  constraint linked
  modify λ db. record db { context_items = record { owner_key = key; item = i } ∷ db.context_items }

-- the two uniqueness constraints of `state_assertions`
abbrev pub clashes : Assertion → Assertion → Bool
clashes a b =
    a.context_item_id == b.context_item_id
    || a.owner_key == b.owner_key && a.scope == b.scope && a.subject == b.subject

abbrev pub assertion_of : ContextItem → OwnerKey → String → Assertion
assertion_of i key subject = record {
  context_item_id = i.id;
  owner_key = key;
  scope = i.scope;
  subject = subject;
}

unfoldable pub insert_assertion : ContextItem → Option String → Tx (Unit {0})
insert_assertion i none = pure tt
insert_assertion i (some subject) = do
  key ← lift (owner_key i)
  taken ← gets (λ db. any (clashes (assertion_of i key subject)) db.state_assertions)
  constraint (not taken)
  modify λ db. record db { state_assertions = assertion_of i key subject ∷ db.state_assertions }

unfoldable pub insert_projection : ContextItem → Tx (Unit {0})
unfolding insert_assertion
insert_projection i = insert_assertion i i.subject

abbrev pub lease_of : String → TurnLease → Bool
lease_of id l = l.context_item_id == id

unfoldable pub insert_lease : ContextItem → Option ℕ → Tx (Unit {0})
insert_lease i none = pure tt
insert_lease i (some ttl) = do
  key ← lift (owner_key i)
  taken ← gets (λ db. any (lease_of i.id) db.context_turn_leases)
  constraint (not taken)
  constraint (leb 1 ttl)
  modify λ db. record db {
    context_turn_leases =
        record { context_item_id = i.id; owner_key = key; ttl_turns = ttl; consumed_turns = 0 }
        ∷ db.context_turn_leases;
  }

unfoldable pub insert_turn_lease : ContextItem → Tx (Unit {0})
unfolding insert_lease
insert_turn_lease i = insert_lease i i.ttl_turns

-- `UPDATE context_items SET status, item_json WHERE id`: the written item is the one that was read
abbrev pub set_item : ContextItem → ItemRow → ItemRow
set_item i r = if r.item.id == i.id then record r { item = i } else r

unfoldable pub replace_status : ContextItem → ContextStatus → Tx (Unit {0})
replace_status i status = modify λ db. record db {
  context_items = map (set_item (record i { status = status })) db.context_items;
}

abbrev pub asserted_by : String → Assertion → Bool
asserted_by id a = a.context_item_id == id

unfoldable pub remove_projection : String → Tx (Unit {0})
remove_projection id =
    modify
      λ db. record db { state_assertions = keep (λ a. not (asserted_by id a)) db.state_assertions }
