-- ===== src/Storage/Store/Logged.antt =====
-- The log and the items agree: what a logged event has ended stays ended.
use ctx_ttl_oss.Storage.Store.Ended.{
  IsEnded, IsAnswered, IsLogged, IsAnswered-weaken, IsEnded-insert_event, end_target-ends,
  IsEnded-end_target, end_target_events, insert_active-IsLogged,
}
use ctx_ttl_oss.Storage.Store.Invariant.{insert_request_inv}
use ctx_ttl_oss.Storage.Store.Steps.{apply-preserves, apply_idempotent-preserves}
use ctx_ttl_oss.Storage.Store.Checks.{
  required_active_target-IsReadOnly, validate_replacement-IsReadOnly,
}
use ctx_ttl_oss.Storage.Rows.Effects.{insert_event_inv}
use ctx_ttl_oss.Storage.Transaction.Preserves.{Preserves, Any, Preserves-bind}
use ctx_ttl_oss.Storage.Transaction.{bind_inv, ◌>>=◌}
use ctx_ttl_oss.Storage.Store.Stored.{insert_event-Preserves, IsStored-same}
use ctx_ttl_oss.Storage.Store.Targets.{target_known, get_item-id, required_active_target_inv}
use ctx_ttl_oss.Storage.Rows.{insert_event}
use ctx_ttl_oss.Storage.Store.{
  get_item, insert_active, end_target, get_target, required_active_target, IdempotencyRequest,
  apply, apply_idempotent, ApplyResult, validate_replacement, project_event, insert_request,
}
use ctx_ttl_oss.Storage.Tables.{Db, empty_db}
use ctx_ttl_oss.Models.Event.{ContextEvent}
use ctx_ttl_oss.Models.Context.{ContextItem, OwnerKey}
use ctx_ttl_oss.Prelude.{
  String, ◌≡◌, sym, ap, subst, inl, inr, false, Option, some, List, ◌==◌, nat_eq, string_eq,
  option_eq, list_eq, Bool-cases, ok, All, ◌∙◌, none, [], ◌∷◌, All-append, refl, any,
}
use ctx_ttl_oss.Models.Dimensions.{
  ContextStatus, EventType, kind_eq, scope_eq, retention_eq, applicability_eq, authority_eq,
  status_eq, event_type_eq,
}
use ctx_ttl_oss.Storage.Queries.{
  observed, distinct_from, observe_owner, observe_owners, observe_turn,
}

-- the log of an event that ends the target that was found, once the target is ended
ended-IsLogged :
    (e : ContextEvent) (event_item : Option String) (t : ContextItem) (s : ContextStatus)
    (db db₁ db₂ : Db) {u v : Unit {0}}
    → (s == ContextStatus.active) ≡ false
    → get_target e.target_context_id db ≡ some t
    → insert_event e event_item db ≡ ok (u, db₁)
    → end_target t s db₁ ≡ ok (v, db₂)
    → IsLogged db
    → IsLogged db₂
ended-IsLogged e event_item t s db db₁ db₂ {u} {v} over found wrote ended h =
    let known : get_item t.id db ≡ some t = target_known e.target_context_id db t found in
    let still : get_item t.id db₁ ≡ some t =
      ((insert_event-Preserves t.id t e event_item).at db u db₁ wrote known).0 in
    let done : IsEnded t.id db₂ = end_target-ends t s over db₁ db₂ t ended still in
    let new : IsAnswered (λ id. IsEnded id db₂) (record { event = e; item_id = event_item }) =
      λ id _ target.
        subst (λ j. IsEnded j db₂) (target_id e.target_context_id id t db found target) done in
    let old : All (IsAnswered (λ id. IsEnded id db₂)) db.events =
      IsAnswered-weaken (λ id. IsEnded id db) (λ id. IsEnded id db₂) db.events
        (λ id x.
          IsEnded-end_target t s over id db₁ db₂ ended
            (IsEnded-insert_event e event_item id db db₁ wrote x))
        h in
    subst (All (IsAnswered (λ id. IsEnded id db₂)))
      (sym (
        end_target_events t s db₁ db₂ ended
        ∙ ap (λ (d : Db). d.events) (insert_event_inv e event_item db wrote).1))
      (All-append (IsAnswered (λ id. IsEnded id db₂)) db.events
        (record { event = e; item_id = event_item } ∷ []) old (new, tt))
  where
    target_id :
        (target : Option String) (id : String) (t : ContextItem) (db : Db)
        → get_target target db ≡ some t
        → target ≡ some id
        → t.id ≡ id
    target_id none id t db found e = absurd (cc)
    target_id (some j) id t db found e =
        get_item-id j db t found ∙ (let k : some j ≡ some id = e in cc)

asserted-IsLogged :
    (e : ContextEvent) (event_item : Option String)
    → e.event_type ≡ EventType.assert
    → Preserves IsLogged Any (insert_event e event_item)
asserted-IsLogged e event_item asserts = record {
  at = λ db u db' h logged.
      let new : IsAnswered (λ id. IsEnded id db') (record { event = e; item_id = event_item }) =
        λ id ends _. absurd (let ends' = rw asserts at ends in cc) in
      let old : All (IsAnswered (λ id. IsEnded id db')) db.events =
        IsAnswered-weaken (λ id. IsEnded id db) (λ id. IsEnded id db') db.events
          (λ id x. IsEnded-insert_event e event_item id db db' h x) logged in
      (
        subst (All (IsAnswered (λ id. IsEnded id db')))
            (sym (ap (λ (d : Db). d.events) (insert_event_inv e event_item db h).1))
            (All-append (IsAnswered (λ id. IsEnded id db')) db.events
              (record { event = e; item_id = event_item } ∷ []) old (new, tt)),
        tt,
      );
}

-- the target that was found, before and after reads of the store
found-IsLogged :
    (e : ContextEvent) (event_item : Option String) (s : ContextStatus) (t : ContextItem)
    (db db₁ db₂ db₃ : Db) {u v : Unit {0}}
    → (s == ContextStatus.active) ≡ false
    → required_active_target e db ≡ ok (t, db₁)
    → insert_event e event_item db₁ ≡ ok (u, db₂)
    → end_target t s db₂ ≡ ok (v, db₃)
    → IsLogged db
    → IsLogged db₃
found-IsLogged e event_item s t db db₁ db₂ db₃ over found wrote ended logged =
    let same : db₁ ≡ db = (required_active_target-IsReadOnly e).at db t db₁ found in
    let known = (required_active_target_inv e db t db₁ found).0 in
    let here : get_target e.target_context_id db₁ ≡ some t =
      subst (λ d. get_target e.target_context_id d ≡ some t) (sym same) known in
    ended-IsLogged e event_item t s db₁ db₂ db₃ over here wrote ended
      (subst IsLogged (sym same) logged)

ender-IsLogged :
    (e : ContextEvent) (s : ContextStatus)
    → (s == ContextStatus.active) ≡ false
    → Preserves IsLogged Any
        (required_active_target e >>= λ t. insert_event e none >>= λ _. end_target t s)
ender-IsLogged e s over = record {
  at = λ db a db' h logged.
      let (t, db₁, found, r₁) = bind_inv (required_active_target e) _ db h in
      let (_, db₂, wrote, r₂) = bind_inv (insert_event e none) (λ _. end_target t s) db₁ r₁ in
      (found-IsLogged e none s t db db₁ db₂ db' over found wrote r₂ logged, tt);
}

superseded-IsLogged :
    (e : ContextEvent) (i : ContextItem)
    → Preserves IsLogged Any (project_event EventType.supersede e (some i))
unfolding project_event
superseded-IsLogged e i = record {
  at = λ db a db' h logged.
      let (t, db₁, found, r₁) = bind_inv (required_active_target e) _ db h in
      let (_, db₂, fits, r₂) = bind_inv (validate_replacement t i) _ db₁ r₁ in
      let (_, db₃, wrote, r₃) = bind_inv (insert_event e (some i.id)) _ db₂ r₂ in
      let (_, db₄, ended, r₄) =
        bind_inv (end_target t ContextStatus.superseded) (λ _. insert_active i) db₃ r₃ in
      let same : db₂ ≡ db₁ = (validate_replacement-IsReadOnly t i).at db₁ tt db₂ fits in
      let found' : required_active_target e db ≡ ok (t, db₂) =
        found ∙ ap (λ d. ok (t, d)) (sym same) in
      (insert_active-IsLogged i).at db₄ a db' r₄ (
        found-IsLogged e (some i.id) ContextStatus.superseded t db db₂ db₃ db₄ refl found' wrote
          ended logged);
}

project_event-IsLogged :
    (type : EventType) (e : ContextEvent) (item : Option ContextItem)
    → e.event_type ≡ type
    → Preserves IsLogged Any (project_event type e item)
unfolding project_event
project_event-IsLogged EventType.assert e none h = record { at = λ db a db' k. absurd (cc) }
project_event-IsLogged EventType.assert e (some i) h =
    Preserves-bind IsLogged Any Any (insert_event e (some i.id)) _
      (asserted-IsLogged e (some i.id) h) (λ _ _. insert_active-IsLogged i)
project_event-IsLogged EventType.supersede e none h = record { at = λ db a db' k. absurd (cc) }
project_event-IsLogged EventType.supersede e (some i) h = superseded-IsLogged e i
project_event-IsLogged EventType.retract e item h = ender-IsLogged e ContextStatus.retracted refl
project_event-IsLogged EventType.expire e item h = ender-IsLogged e ContextStatus.expired refl

IsLogged-same :
    (db db' : Db)
    → db'.context_items ≡ db.context_items
    → db'.events ≡ db.events
    → IsLogged db
    → IsLogged db'
IsLogged-same db db' items events h = subst (All (IsAnswered (λ id. IsEnded id db'))) (sym events) (
    IsAnswered-weaken (λ id. IsEnded id db) (λ id. IsEnded id db') db.events
      (λ id (x, found, ended). (x, IsStored-same id x db db' items found, ended)) h)

-- A log that agrees with the items agrees with them after every event that is applied, whether the
-- call succeeds or raises.
pub apply-IsLogged :
    (e : ContextEvent) (item : Option ContextItem) (db : Db)
    → IsLogged db
    → IsLogged (apply e item db).1
apply-IsLogged e item db h =
    apply-preserves IsLogged e (λ item. project_event-IsLogged e.event_type e item refl) item db h

insert_request-IsLogged :
    (q : IdempotencyRequest) (r : ApplyResult) → Preserves IsLogged Any (insert_request q r)
unfolding insert_request
insert_request-IsLogged q r = record {
  at = λ db u db' h logged.
      let (items, _, events) = insert_request_inv q r db h in
      (IsLogged-same db db' items events logged, tt);
}

pub apply_idempotent-IsLogged :
    (e : ContextEvent) (item : Option ContextItem) (q : IdempotencyRequest) (db : Db)
    → IsLogged db
    → IsLogged (apply_idempotent e item q db).1
apply_idempotent-IsLogged e item q db h =
    apply_idempotent-preserves IsLogged e (λ item. project_event-IsLogged e.event_type e item refl)
      insert_request-IsLogged item q db h

pub IsLogged-empty_db : IsLogged empty_db
IsLogged-empty_db = tt

observe_owners-IsLogged :
    (session_id turn_id : String) (keys : List OwnerKey) (db : Db)
    → IsLogged db
    → IsLogged (observe_owners session_id turn_id keys db)
unfolding observe_owners observe_owner
observe_owners-IsLogged s t [] db h = h
observe_owners-IsLogged s t (k ∷ ks) db h =
    observe_owners-IsLogged s t ks (observe_owner s t k db)
      (elim (Bool-cases (any (observed k s t) db.turn_observations)) [
        | inl old ↦ rw old h
        | inr new ↦ IsLogged-same db (observe_owner s t k db) (rw new refl) (rw new refl) h
      ])

pub observe_turn-IsLogged :
    (keys : List OwnerKey) (session_id turn_id : String) (db : Db)
    → IsLogged db
    → IsLogged (observe_turn keys session_id turn_id db).1
unfolding observe_turn
observe_turn-IsLogged [] s t db h = h
observe_turn-IsLogged (k ∷ ks) s t db h =
    observe_owners-IsLogged s t (distinct_from [] (k ∷ ks)) db h
