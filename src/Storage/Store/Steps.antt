-- ===== src/Storage/Store/Steps.antt =====
-- What `apply` preserves follows from what the statements of its branches preserve.
use ctx_ttl_oss.Storage.Transaction.ReadOnly.{IsReadOnly-pure, IsReadOnly-gets}
use ctx_ttl_oss.Storage.Transaction.Preserves.{
  Preserves, Any, Preserves-read_only, Preserves-bind, Preserves-transaction,
}
use ctx_ttl_oss.Storage.Store.Checks.{
  duplicate_result-IsReadOnly, validate_event_item-IsReadOnly, validate_replacement-IsReadOnly,
  stored_request-IsReadOnly,
}
use ctx_ttl_oss.Storage.Rows.{insert_event}
use ctx_ttl_oss.Storage.Store.{
  IdempotencyRequest, apply, apply_idempotent, ApplyResult, duplicate_result, validate_event_item,
  required_active_target, validate_replacement, insert_active, end_target, project_event,
  fresh_result, or_fresh, apply_in_transaction, request_is, stored_request, insert_request,
  apply_and_record, idempotent_in_transaction,
}
use ctx_ttl_oss.Storage.Tables.{Db}
use ctx_ttl_oss.Models.Event.{ContextEvent}
use ctx_ttl_oss.Models.Context.{ContextItem}
use ctx_ttl_oss.Prelude.{
  String, ◌≡◌, refl, false, Option, none, some, ◌==◌, nat_eq, string_eq, option_eq, list_eq, find,
}
use ctx_ttl_oss.Models.Dimensions.{
  ContextStatus, EventType, kind_eq, scope_eq, retention_eq, applicability_eq, authority_eq,
  status_eq, event_type_eq,
}
use ctx_ttl_oss.Storage.Transaction.{gets, ◌>>=◌}

-- a property that each statement of an event preserves; `IsTarget` holds of the items that it ends
pub record Steps (P : Db → Type 0) (e : ContextEvent) (IsTarget : ContextItem → Type 0)
    : Type 0 where
  pub logs : (id : Option String) → Preserves P Any (insert_event e id)
  pub adds : (i : ContextItem) → Preserves P Any (insert_active i)
  pub finds : Preserves P IsTarget (required_active_target e)
  pub ends :
      (t : ContextItem) (s : ContextStatus)
      → (s == ContextStatus.active) ≡ false
      → IsTarget t
      → Preserves P Any (end_target t s)

module _ (P : Db → Type 0) (e : ContextEvent) (IsTarget : ContextItem → Type 0)
    (k : Steps P e IsTarget) where
  ended :
      (s : ContextStatus)
      → (s == ContextStatus.active) ≡ false
      → Preserves P Any
          (required_active_target e >>= λ t. insert_event e none >>= λ _. end_target t s)
  ended s h = Preserves-bind P IsTarget Any (required_active_target e) _ k.finds (λ t q.
      Preserves-bind P Any Any (insert_event e none) _ (k.logs none) (λ _ _. k.ends t s h q))

  superseded : (i : ContextItem) → Preserves P Any (project_event EventType.supersede e (some i))
  unfolding project_event
  superseded i = Preserves-bind P IsTarget Any (required_active_target e) _ k.finds (λ t q.
      Preserves-bind P Any Any (validate_replacement t i) _
        (Preserves-read_only P (validate_replacement t i) (validate_replacement-IsReadOnly t i))
        (λ _ _. Preserves-bind P Any Any (insert_event e (some i.id)) _ (k.logs (some i.id)) (λ _ _.
          Preserves-bind P Any Any (end_target t ContextStatus.superseded) _
            (k.ends t ContextStatus.superseded refl q) (λ _ _. k.adds i))))

  projected :
      (type : EventType) (item : Option ContextItem) → Preserves P Any (project_event type e item)
  unfolding project_event
  projected EventType.assert none = record { at = λ db a db' h. absurd (cc) }
  projected EventType.assert (some i) =
      Preserves-bind P Any Any (insert_event e (some i.id)) _ (k.logs (some i.id)) (λ _ _. k.adds i)
  projected EventType.supersede none = record { at = λ db a db' h. absurd (cc) }
  projected EventType.supersede (some i) = superseded i
  projected EventType.retract item = ended ContextStatus.retracted refl
  projected EventType.expire item = ended ContextStatus.expired refl

  pub projected_own :
      (item : Option ContextItem) → Preserves P Any (project_event e.event_type e item)
  projected_own item = projected e.event_type item

module _ (P : Db → Type 0) (e : ContextEvent)
    (projects : (item : Option ContextItem)
      → Preserves P Any (project_event e.event_type e item)) where
  completed : (item : Option ContextItem) → Preserves P Any (fresh_result e item)
  unfolding fresh_result
  completed item =
      Preserves-bind P Any Any (validate_event_item e item) _
        (Preserves-read_only P (validate_event_item e item) (validate_event_item-IsReadOnly e item))
        (λ _ _.
          Preserves-bind P Any Any (project_event e.event_type e item) _ (projects item)
            (λ _ _. Preserves-read_only P _ (IsReadOnly-pure _)))

  or_completed :
      (item : Option ContextItem) (d : Option ApplyResult) → Preserves P Any (or_fresh e item d)
  or_completed item none = completed item
  or_completed item (some r) = Preserves-read_only P _ (IsReadOnly-pure r)

  in_transaction : (item : Option ContextItem) → Preserves P Any (apply_in_transaction e item)
  unfolding apply_in_transaction
  in_transaction item =
      Preserves-bind P Any Any (duplicate_result e item) _
        (Preserves-read_only P (duplicate_result e item) (duplicate_result-IsReadOnly e item))
        (λ d _. or_completed item d)

  pub apply-preserves : (item : Option ContextItem) (db : Db) → P db → P (apply e item db).1
  unfolding apply
  apply-preserves item db h =
      Preserves-transaction P Any (apply_in_transaction e item) db (in_transaction item) h

  module _
      (requests : (q : IdempotencyRequest) (r : ApplyResult)
        → Preserves P Any (insert_request q r)) where
    recorded :
        (item : Option ContextItem) (q : IdempotencyRequest) (d : Option ApplyResult)
        → Preserves P Any (apply_and_record e item q d)
    unfolding apply_and_record
    recorded item q (some r) = Preserves-read_only P _ (IsReadOnly-pure r)
    recorded item q none =
        Preserves-bind P Any Any (apply_in_transaction e item) _ (in_transaction item) (λ r _.
          Preserves-bind P Any Any (insert_request q r) _ (requests q r)
            (λ _ _. Preserves-read_only P _ (IsReadOnly-pure r)))

    pub apply_idempotent-preserves :
        (item : Option ContextItem) (q : IdempotencyRequest) (db : Db)
        → P db
        → P (apply_idempotent e item q db).1
    unfolding apply_idempotent idempotent_in_transaction
    apply_idempotent-preserves item q db h =
        Preserves-transaction P Any (idempotent_in_transaction e item q) db
          (Preserves-bind P Any Any (gets (λ db. find (request_is q) db.mutation_requests)) _
            (Preserves-read_only P _
              (IsReadOnly-gets (λ db. find (request_is q) db.mutation_requests)))
            (λ row _.
              Preserves-bind P Any Any (stored_request q row) _
                (Preserves-read_only P (stored_request q row) (stored_request-IsReadOnly q row))
                (λ d _. recorded item q d)))
          h
