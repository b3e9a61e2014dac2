-- ===== src/Storage/Rows/Effects.antt =====
-- What each statement of `Rows` leaves, where it succeeds: the new database, and the constraints
-- that it has passed.
use ctx_ttl_oss.Prelude.{
  String, ◌≡◌, false, Option, none, some, [], ◌∷◌, ◌++◌, arith, nat_eq, string_eq, option_eq,
  list_eq, ok, any,
}
use ctx_ttl_oss.Models.Dimensions.{
  kind_eq, scope_eq, retention_eq, applicability_eq, authority_eq, status_eq, event_type_eq,
}
use ctx_ttl_oss.Models.Context.{ContextItem, OwnerKey, owner_key}
use ctx_ttl_oss.Models.Event.{ContextEvent}
use ctx_ttl_oss.Storage.Tables.{Assertion, Db}
use ctx_ttl_oss.Storage.Rows.{
  event_id_is, item_id_is, assertion_of, clashes, insert_event, insert_item, insert_projection,
  insert_turn_lease, insert_assertion, insert_lease,
}

abbrev pub with_event : ContextEvent → Option String → Db → Db
with_event e id db = record db { events = db.events ++ record { event = e; item_id = id } ∷ [] }

abbrev pub with_item : ContextItem → OwnerKey → Db → Db
with_item i key db = record db {
  context_items = record { owner_key = key; item = i } ∷ db.context_items;
}

abbrev pub with_assertion : Assertion → Db → Db
with_assertion a db = record db { state_assertions = a ∷ db.state_assertions }

pub insert_event_inv :
    (e : ContextEvent) (id : Option String) (db : Db) {u : Unit} {db' : Db}
    → insert_event e id db ≡ ok (u, db')
    → (any (event_id_is e.id) db.events ≡ false) × (db' ≡ with_event e id db)
unfolding insert_event
insert_event_inv e id db h = ground arith

pub insert_item_inv :
    (i : ContextItem) (db : Db) {u : Unit} {db' : Db}
    → insert_item i db ≡ ok (u, db')
    → (key : OwnerKey) × (owner_key i ≡ ok key)
      × (any (item_id_is i.id) db.context_items ≡ false)
      × (db' ≡ with_item i key db)
unfolding insert_item
insert_item_inv i db h = ground arith

pub insert_projection_inv :
    (i : ContextItem) (subject : String) (key : OwnerKey) (db : Db) {u : Unit} {db' : Db}
    → i.subject ≡ some subject
    → owner_key i ≡ ok key
    → insert_projection i db ≡ ok (u, db')
    → (any (clashes (assertion_of i key subject)) db.state_assertions ≡ false)
      × (db' ≡ with_assertion (assertion_of i key subject) db)
unfolding insert_projection insert_assertion
insert_projection_inv i subject key db s k h = ground arith

pub insert_projection-none :
    (i : ContextItem) (db : Db) {u : Unit} {db' : Db}
    → i.subject ≡ none
    → insert_projection i db ≡ ok (u, db')
    → db' ≡ db
unfolding insert_projection insert_assertion
insert_projection-none i db s h = ground arith

-- a lease changes no other table
pub insert_turn_lease_inv :
    (i : ContextItem) (db : Db) {u : Unit} {db' : Db}
    → insert_turn_lease i db ≡ ok (u, db')
    → (db'.context_items ≡ db.context_items)
      × (db'.state_assertions ≡ db.state_assertions)
      × (db'.events ≡ db.events)
unfolding insert_turn_lease insert_lease
insert_turn_lease_inv i db h = ground arith
