-- ===== src/Storage/Queries.antt =====
-- storage/sqlite/store.py: the reads of context state, and `observe_turn`, which counts one logical
-- turn for each owner and reports the leases that are exhausted.
use ctx_ttl_oss.Prelude.{
  ℕ, ◌+◌, String, Bool, true, false, not, ◌&&◌, ◌||◌, Option, none, some, List, [], ◌∷◌, map, ◌==◌,
  nat_eq, string_eq, option_eq, list_eq, ltb, leb, if◌then◌else◌, value_error, Result, ok, err,
  take, keep, any, contains,
}
use ctx_ttl_oss.Models.Dimensions.{
  ContextStatus, kind_eq, scope_eq, retention_eq, applicability_eq, authority_eq, status_eq,
  event_type_eq,
}
use ctx_ttl_oss.Models.Context.{ContextItem, OwnerKey}
use ctx_ttl_oss.Models.Event.{ContextEvent}
use ctx_ttl_oss.Storage.Tables.{EventRow, ItemRow, TurnObservation, TurnLease, Db}
use text.Mathlib.Text.{is_le}
use Prim.Native.String.{compare}
use ctx_ttl_oss.Prelude.Sort.{sorted}
use ctx_ttl_oss.Storage.Store.{get_item}

-- `ORDER BY created_at, id`: ISO texts in UTC are ordered as the times are
abbrev pub created_before : ContextItem → ContextItem → Bool
created_before a b =
    ltb a.created_at b.created_at || a.created_at == b.created_at && is_le (compare a.id b.id)

abbrev pub items_of : List ItemRow → List ContextItem
items_of [] = []
items_of (r ∷ rows) = r.item ∷ items_of rows

unfoldable pub list_active : List OwnerKey → Db → List ContextItem
unfolding sorted
list_active owner_keys db = sorted created_before (
    items_of (
      keep (λ r. r.item.status == ContextStatus.active && contains r.owner_key owner_keys)
        db.context_items))

abbrev pub status_fits : Option ContextStatus → ContextStatus → Bool
status_fits none s = true
status_fits (some t) s = s == t

unfoldable pub list_items :
    List OwnerKey → Option ContextStatus → ℕ → Db → Result (List ContextItem)
unfolding sorted
list_items [] status limit db = ok []
list_items (k ∷ ks) status limit db =
    if not (leb 1 limit && leb limit 1000)
    then err value_error
    else ok (
        take limit (
          sorted (λ a b. created_before b a)
            (items_of (
              keep (λ r. contains r.owner_key (k ∷ ks) && status_fits status r.item.status)
                db.context_items))))

abbrev pub is_from : Option String → EventRow → Bool
is_from none r = true
is_from (some s) r = r.event.source.session_id == s

abbrev pub events_of : List EventRow → List ContextEvent
events_of [] = []
events_of (r ∷ rows) = r.event ∷ events_of rows

unfoldable pub list_events : Option String → Db → List ContextEvent
list_events session_id db = events_of (keep (is_from session_id) db.events)

-- `dict.fromkeys`: the first of equal keys stays
abbrev pub distinct_from : List OwnerKey → List OwnerKey → List OwnerKey
distinct_from seen [] = []
distinct_from seen (k ∷ ks) =
    let rest = distinct_from (k ∷ seen) ks in
    if contains k seen then distinct_from seen ks else k ∷ rest

abbrev pub observed : OwnerKey → String → String → TurnObservation → Bool
observed key session_id turn_id o =
    o.owner_key == key && o.session_id == session_id && o.turn_id == turn_id

-- `SET consumed_turns = consumed_turns + 1 WHERE owner_key = ?`
abbrev pub consume : OwnerKey → TurnLease → TurnLease
consume key l = if l.owner_key == key then record l { consumed_turns = l.consumed_turns + 1 } else l

-- one round of the loop: `INSERT OR IGNORE`, and the update if a row was inserted
unfoldable pub observe_owner : String → String → OwnerKey → Db → Db
observe_owner session_id turn_id key db =
    if any (observed key session_id turn_id) db.turn_observations then db else record db {
      turn_observations =
          record { owner_key = key; session_id = session_id; turn_id = turn_id }
          ∷ db.turn_observations;
      context_turn_leases = map (consume key) db.context_turn_leases;
    }

unfoldable pub observe_owners : String → String → List OwnerKey → Db → Db
unfolding observe_owner
observe_owners session_id turn_id [] db = db
observe_owners session_id turn_id (k ∷ ks) db =
    observe_owners session_id turn_id ks (observe_owner session_id turn_id k db)

abbrev is_active_item : Option ContextItem → Bool
is_active_item none = false
is_active_item (some i) = i.status == ContextStatus.active

-- the rows of the last query: leases of these owners, spent, of items that are active
abbrev pub is_exhausted : List OwnerKey → Db → TurnLease → Bool
is_exhausted owner_keys db l =
    contains l.owner_key owner_keys
    && ltb l.ttl_turns l.consumed_turns
    && is_active_item (get_item l.context_item_id db)

abbrev pub ids_of : List TurnLease → List String
ids_of [] = []
ids_of (l ∷ ls) = l.context_item_id ∷ ids_of ls

unfoldable pub exhausted_ids : List OwnerKey → Db → List String
unfolding sorted get_item
exhausted_ids owner_keys db =
    sorted (λ a b. is_le (compare a b))
      (ids_of (keep (is_exhausted owner_keys db) db.context_turn_leases))

unfoldable pub observe_turn : List OwnerKey → String → String → Db → List String × Db
unfolding observe_owners exhausted_ids
observe_turn [] session_id turn_id db = ([], db)
observe_turn (k ∷ ks) session_id turn_id db =
    let db' = observe_owners session_id turn_id (distinct_from [] (k ∷ ks)) db in
    (exhausted_ids (k ∷ ks) db', db')
