-- ===== src/Storage/Store/Ended.antt =====
-- What each statement leaves of an item that is no longer active, and of the log.
use ctx_ttl_oss.Storage.Rows.Effects.{
  insert_item_inv, insert_projection_inv, insert_projection-none, insert_turn_lease_inv,
}
use ctx_ttl_oss.Storage.Transaction.Preserves.{Preserves, Any}
use ctx_ttl_oss.Storage.Transaction.{bind_inv}
use ctx_ttl_oss.Prelude.Unique.{All-weaken}
use ctx_ttl_oss.Storage.Store.Stored.{
  insert_event-Preserves, insert_active-Preserves, end_target-Preserves,
}
use ctx_ttl_oss.Storage.Store.Targets.{item_in, item_in-replaced}
use ctx_ttl_oss.Storage.Rows.{
  insert_event, replace_status, remove_projection, set_item, insert_item, insert_projection,
}
use ctx_ttl_oss.Storage.Store.{get_item, insert_active, end_target}
use ctx_ttl_oss.Storage.Tables.{Db, EventRow}
use ctx_ttl_oss.Models.Event.{ContextEvent}
use ctx_ttl_oss.Models.Context.{ContextItem, OwnerKey, owner_key}
use ctx_ttl_oss.Prelude.{
  String, ◌≡◌, sym, ap, subst, inl, inr, Bool, true, false, not, Option, some, List, map, ◌==◌,
  nat_eq, string_eq, option_eq, list_eq, Bool-cases, ok, ok_inj, All, ◌∙◌, Option-cases,
}
use ctx_ttl_oss.Models.Dimensions.{
  ContextStatus, EventType, kind_eq, scope_eq, retention_eq, applicability_eq, authority_eq,
  status_eq, event_type_eq,
}

-- the store has the item, and it is not active
abbrev pub IsEnded : String → Db → Type 0
IsEnded id db =
    (x : ContextItem) × (get_item id db ≡ some x) × ((x.status == ContextStatus.active) ≡ false)

abbrev pub ends_target : EventType → Bool
ends_target t = not (t == EventType.assert)

abbrev pub IsAnswered : (String → Type 0) → EventRow → Type 0
IsAnswered P row =
    (id : String)
    → ends_target row.event.event_type ≡ true
    → row.event.target_context_id ≡ some id
    → P id

-- every logged supersession, retraction and expiry has ended its target
abbrev pub IsLogged : Db → Type 0
IsLogged db = All (IsAnswered (λ id. IsEnded id db)) db.events

pub IsAnswered-weaken :
    (P Q : String → Type 0) (rows : List EventRow)
    → ((id : String) → P id → Q id)
    → All (IsAnswered P) rows
    → All (IsAnswered Q) rows
IsAnswered-weaken P Q rows f h =
    All-weaken (IsAnswered P) (IsAnswered Q) rows (λ row k id ends target. f id (k id ends target))
      h

pub IsEnded-insert_event :
    (e : ContextEvent) (event_item : Option String) (id : String) (db db' : Db) {u : Unit {0}}
    → insert_event e event_item db ≡ ok (u, db')
    → IsEnded id db
    → IsEnded id db'
IsEnded-insert_event e event_item id db db' {u} h (x, found, ended) =
    (x, ((insert_event-Preserves id x e event_item).at db u db' h found).0, ended)

IsEnded-insert_active :
    (i : ContextItem) (id : String) (db db' : Db) {u : Unit {0}}
    → insert_active i db ≡ ok (u, db')
    → IsEnded id db
    → IsEnded id db'
IsEnded-insert_active i id db db' {u} h (x, found, ended) =
    (x, ((insert_active-Preserves id x i).at db u db' h found).0, ended)

-- the target is the item that its replacement leaves
module _ (t : ContextItem) (s : ContextStatus) (ended : (s == ContextStatus.active) ≡ false) where
  pub end_target-ends :
      (db db' : Db) (x : ContextItem) {u : Unit {0}}
      → end_target t s db ≡ ok (u, db')
      → get_item t.id db ≡ some x
      → IsEnded t.id db'
  unfolding end_target replace_status remove_projection get_item
  end_target-ends db db' x {u} h found =
      let items : db'.context_items ≡ map (set_item (record t { status = s })) db.context_items =
        ap (λ (p : Unit {0} × Db). p.1.context_items) (sym (ok_inj h)) in
      (
        record t { status = s },
        subst (λ rows. item_in t.id rows ≡ some (record t { status = s })) (sym items)
            (item_in-replaced (record t { status = s }) x db.context_items found),
        ended,
      )

  pub IsEnded-end_target :
      (id : String) (db db' : Db) {u : Unit {0}}
      → end_target t s db ≡ ok (u, db')
      → IsEnded id db
      → IsEnded id db'
  IsEnded-end_target id db db' {u} h (x, found, over) = elim (Bool-cases (t.id == id)) [
    | inl same ↦
        let e : t.id ≡ id = (string_eq.beq_iff t.id id).0 same in
        subst (λ j. IsEnded j db') e
          (end_target-ends db db' x h (subst (λ j. get_item j db ≡ some x) (sym e) found))
    | inr different ↦ (x, ((end_target-Preserves id x t s different).at db u db' h found).0, over)
  ]

pub end_target_events :
    (t : ContextItem) (s : ContextStatus) (db db' : Db) {u : Unit {0}}
    → end_target t s db ≡ ok (u, db')
    → db'.events ≡ db.events
unfolding end_target replace_status remove_projection
end_target_events t s db db' h = ap (λ (p : Unit {0} × Db). p.1.events) (sym (ok_inj h))

insert_projection_events :
    (i : ContextItem) (key : OwnerKey) (db db' : Db) {u : Unit {0}}
    → owner_key i ≡ ok key
    → insert_projection i db ≡ ok (u, db')
    → db'.events ≡ db.events
insert_projection_events i key db db' owner h = elim (Option-cases i.subject) [
  | inl unnamed ↦ ap (λ (d : Db). d.events) (insert_projection-none i db unnamed h)
  | inr (subject, named) ↦
      ap (λ (d : Db). d.events) (insert_projection_inv i subject key db named owner h).1
]

insert_active_events :
    (i : ContextItem) (db db' : Db) {u : Unit {0}}
    → insert_active i db ≡ ok (u, db')
    → db'.events ≡ db.events
unfolding insert_active
insert_active_events i db db' h =
    let (_, db₁, first, rest) = bind_inv (insert_item i) _ db h in
    let (_, db₂, second, third) = bind_inv (insert_projection i) _ db₁ rest in
    let (key, owner, _, after) = insert_item_inv i db first in
    let (_, _, events) = insert_turn_lease_inv i db₂ third in
    events ∙ insert_projection_events i key db₁ db₂ owner second ∙ ap (λ (d : Db). d.events) after

pub insert_active-IsLogged : (i : ContextItem) → Preserves IsLogged Any (insert_active i)
insert_active-IsLogged i = record {
  at = λ db u db' h logged. (
    subst (All (IsAnswered (λ id. IsEnded id db'))) (sym (insert_active_events i db db' h)) (
        IsAnswered-weaken (λ id. IsEnded id db) (λ id. IsEnded id db') db.events
          (λ id x. IsEnded-insert_active i id db db' h x) logged),
    tt,
  );
}

pub end_target_items :
    (t : ContextItem) (s : ContextStatus) (db db' : Db) {u : Unit {0}}
    → end_target t s db ≡ ok (u, db')
    → db'.context_items ≡ map (set_item (record t { status = s })) db.context_items
unfolding end_target replace_status remove_projection
end_target_items t s db db' h = ap (λ (p : Unit {0} × Db). p.1.context_items) (sym (ok_inj h))
