-- ===== src/Storage/Store/Invariant.antt =====
-- Every event that the store accepts keeps the projection consistent.
use ctx_ttl_oss.Storage.Store.Checks.{
  duplicate_result-IsReadOnly, validate_event_item-IsReadOnly, required_active_target-IsReadOnly,
  validate_replacement-IsReadOnly, stored_request-IsReadOnly,
}
use ctx_ttl_oss.Prelude.{
  String, ◌≡◌, refl, sym, ap, subst, ◌∙◌, inl, inr, true, false, Option, none, some, arith, ◌==◌,
  nat_eq, string_eq, option_eq, list_eq, Option-cases, Result, ok, err, any, find,
}
use ctx_ttl_oss.Models.Dimensions.{
  ContextStatus, EventType, kind_eq, scope_eq, retention_eq, applicability_eq, authority_eq,
  status_eq, event_type_eq,
}
use ctx_ttl_oss.Models.Context.{ContextItem}
use ctx_ttl_oss.Models.Event.{ContextEvent}
use ctx_ttl_oss.Storage.Tables.{Db}
use ctx_ttl_oss.Storage.Transaction.{
  Tx, ◌>>=◌, pure, transaction, bind_inv, transaction-ok, transaction-err,
}
use ctx_ttl_oss.Storage.Rows.{
  assertion_of, clashes, insert_event, insert_item, insert_projection, replace_status,
  remove_projection,
}
use ctx_ttl_oss.Storage.Rows.Effects.{
  with_assertion, insert_event_inv, insert_item_inv, insert_projection_inv, insert_projection-none,
  insert_turn_lease_inv,
}
use ctx_ttl_oss.Storage.Store.{
  ApplyResult, IdempotencyRequest, duplicate_result, validate_event_item, required_active_target,
  validate_replacement, insert_active, end_target, project_event, fresh_result, or_fresh,
  apply_in_transaction, apply, request_is, stored_request, insert_request, apply_and_record,
  idempotent_in_transaction, apply_idempotent,
}
use ctx_ttl_oss.Storage.Store.Consistent.{
  IsConsistent, IsConsistent-with_event, IsConsistent-with_active, IsConsistent-with_unnamed,
  IsConsistent-ended,
}

IsConsistent-same_tables :
    (db db' : Db)
    → db'.context_items ≡ db.context_items
    → db'.state_assertions ≡ db.state_assertions
    → IsConsistent db
    → IsConsistent db'
IsConsistent-same_tables db db' p q c = record {
  unique_items = rw p c.unique_items;
  unique_assertions = rw q c.unique_assertions;
  covered = rw (p, q) c.covered;
}

insert_event-IsConsistent :
    (e : ContextEvent) (id : Option String) (db : Db) {u : Unit} {db' : Db}
    → insert_event e id db ≡ ok (u, db')
    → IsConsistent db
    → IsConsistent db'
insert_event-IsConsistent e id db h c =
    subst IsConsistent (sym (insert_event_inv e id db h).1) (IsConsistent-with_event e id db c)

insert_projected :
    (i : ContextItem) (db db' : Db) {u v : Unit} {db'' : Db}
    → insert_item i db ≡ ok (u, db')
    → insert_projection i db' ≡ ok (v, db'')
    → IsConsistent db
    → IsConsistent db''
insert_projected i db db' h k c =
    let (key, owner, fresh, after) = insert_item_inv i db h in
    elim (Option-cases i.subject) [
      | inl unnamed ↦
          subst IsConsistent (sym (insert_projection-none i db' unnamed k ∙ after))
            (IsConsistent-with_unnamed i key db unnamed fresh c)
      | inr (s, named) ↦
          let (free, last) = insert_projection_inv i s key db' named owner k in
          subst IsConsistent (sym (last ∙ ap (with_assertion (assertion_of i key s)) after)) (
            IsConsistent-with_active i key s db named fresh
              (subst (λ (d : Db). any (clashes (assertion_of i key s)) d.state_assertions ≡ false)
                after free)
              c)
    ]

insert_active-IsConsistent :
    (i : ContextItem) (db : Db) {u : Unit} {db' : Db}
    → insert_active i db ≡ ok (u, db')
    → IsConsistent db
    → IsConsistent db'
unfolding insert_active
insert_active-IsConsistent i db {u} {db'} h c =
    let (_, db₁, first, rest) = bind_inv (insert_item i) _ db h in
    let (_, db₂, second, third) = bind_inv (insert_projection i) _ db₁ rest in
    let (items, assertions, _) = insert_turn_lease_inv i db₂ third in
    IsConsistent-same_tables db₂ db' items assertions (insert_projected i db db₁ first second c)

end_target-IsConsistent :
    (t : ContextItem) (s : ContextStatus) (db : Db) {u : Unit} {db' : Db}
    → (s == ContextStatus.active) ≡ false
    → end_target t s db ≡ ok (u, db')
    → IsConsistent db
    → IsConsistent db'
unfolding end_target replace_status remove_projection
end_target-IsConsistent t s db ended h c =
    subst IsConsistent (ground arith) (IsConsistent-ended (record t { status = s }) ended db c)

end_branch :
    (e : ContextEvent) (id : Option String) (s : ContextStatus) (db : Db) {u : Unit} {db' : Db}
    → (s == ContextStatus.active) ≡ false
    → (required_active_target e >>= λ t. insert_event e id >>= λ _. end_target t s) db ≡ ok (u, db')
    → IsConsistent db
    → IsConsistent db'
end_branch e id s db ended h c =
    let (t, db₁, found, rest) = bind_inv (required_active_target e) _ db h in
    let (_, db₂, logged, last) = bind_inv (insert_event e id) _ db₁ rest in
    end_target-IsConsistent t s db₂ ended last (
      insert_event-IsConsistent e id db₁ logged
        (subst IsConsistent (sym ((required_active_target-IsReadOnly e).at db t db₁ found)) c))

supersede_branch :
    (e : ContextEvent) (i : ContextItem) (db : Db) {u : Unit} {db' : Db}
    → project_event EventType.supersede e (some i) db ≡ ok (u, db')
    → IsConsistent db
    → IsConsistent db'
unfolding project_event
supersede_branch e i db h c =
    let (t, db₁, found, rest₁) = bind_inv (required_active_target e) _ db h in
    let (_, db₂, fits, rest₂) = bind_inv (validate_replacement t i) _ db₁ rest₁ in
    let (_, db₃, logged, rest₃) = bind_inv (insert_event e (some i.id)) _ db₂ rest₂ in
    let (_, db₄, dropped, last) =
      bind_inv (end_target t ContextStatus.superseded) (λ _. insert_active i) db₃ rest₃ in
    insert_active-IsConsistent i db₄ last (
      end_target-IsConsistent t ContextStatus.superseded db₃ refl dropped (
        insert_event-IsConsistent e (some i.id) db₂ logged (
          subst IsConsistent
            (sym (
              (validate_replacement-IsReadOnly t i).at db₁ tt db₂ fits
              ∙ (required_active_target-IsReadOnly e).at db t db₁ found))
            c)))

pub project_event-IsConsistent :
    (type : EventType) (e : ContextEvent) (item : Option ContextItem) (db : Db) {u : Unit}
    {db' : Db}
    → project_event type e item db ≡ ok (u, db')
    → IsConsistent db
    → IsConsistent db'
unfolding project_event
project_event-IsConsistent EventType.assert e none db h c = absurd (cc)
project_event-IsConsistent EventType.assert e (some i) db h c =
    let (_, db₁, logged, last) = bind_inv (insert_event e (some i.id)) _ db h in
    insert_active-IsConsistent i db₁ last (insert_event-IsConsistent e (some i.id) db logged c)
project_event-IsConsistent EventType.supersede e none db h c = absurd (cc)
project_event-IsConsistent EventType.supersede e (some i) db h c = supersede_branch e i db h c
project_event-IsConsistent EventType.retract e item db h c =
    end_branch e none ContextStatus.retracted db refl h c
project_event-IsConsistent EventType.expire e item db h c =
    end_branch e none ContextStatus.expired db refl h c

fresh_result-IsConsistent :
    (e : ContextEvent) (item : Option ContextItem) (db : Db) {r : ApplyResult} {db' : Db}
    → fresh_result e item db ≡ ok (r, db')
    → IsConsistent db
    → IsConsistent db'
unfolding fresh_result
fresh_result-IsConsistent e item db {r} {db'} h c =
    let (_, db₁, valid, rest) = bind_inv (validate_event_item e item) _ db h in
    let (_, db₂, projected, last) =
      bind_inv (project_event e.event_type e item)
        (λ _. pure (record { event = e; item = item; applied = true })) db₁ rest in
    let same : db₂ ≡ db' = ground arith in
    subst IsConsistent same (
      project_event-IsConsistent e.event_type e item db₁ projected
        (subst IsConsistent (sym ((validate_event_item-IsReadOnly e item).at db tt db₁ valid)) c))

or_fresh-IsConsistent :
    (e : ContextEvent) (item : Option ContextItem) (d : Option ApplyResult) (db : Db)
    {r : ApplyResult} {db' : Db}
    → or_fresh e item d db ≡ ok (r, db')
    → IsConsistent db
    → IsConsistent db'
or_fresh-IsConsistent e item none db h c = fresh_result-IsConsistent e item db h c
or_fresh-IsConsistent e item (some d) db h c = subst IsConsistent (ground arith) c

pub apply_in_transaction-IsConsistent :
    (e : ContextEvent) (item : Option ContextItem) (db : Db) {r : ApplyResult} {db' : Db}
    → apply_in_transaction e item db ≡ ok (r, db')
    → IsConsistent db
    → IsConsistent db'
unfolding apply_in_transaction
apply_in_transaction-IsConsistent e item db h c =
    let (d, db₁, looked, last) = bind_inv (duplicate_result e item) _ db h in
    or_fresh-IsConsistent e item d db₁ last
      (subst IsConsistent (sym ((duplicate_result-IsReadOnly e item).at db d db₁ looked)) c)

transaction-IsConsistent :
    {A : Type 0} (m : Tx A) (db : Db)
    → ((a : A) (db' : Db) → m db ≡ ok (a, db') → IsConsistent db')
    → IsConsistent db
    → IsConsistent (transaction m db).1
transaction-IsConsistent {A = A} m db step c = go (transaction m db) refl
  where
    go : (p : Result A × Db) → transaction m db ≡ p → IsConsistent p.1
    go (ok a, db') e = step a db' (transaction-ok m db e)
    go (err x, db') e = subst IsConsistent (sym (transaction-err m db e)) c

-- Whatever event is applied, and whether the call succeeds or raises, a consistent projection stays
-- consistent: item ids and projection rows stay unique, and every active item with a subject has
-- its projection row.
pub apply-IsConsistent :
    (e : ContextEvent) (item : Option ContextItem) (db : Db)
    → IsConsistent db
    → IsConsistent (apply e item db).1
unfolding apply
apply-IsConsistent e item db c =
    transaction-IsConsistent (apply_in_transaction e item) db
      (λ r db' h. apply_in_transaction-IsConsistent e item db h c) c

pub insert_request_inv :
    (q : IdempotencyRequest) (r : ApplyResult) (db : Db) {u : Unit} {db' : Db}
    → insert_request q r db ≡ ok (u, db')
    → (db'.context_items ≡ db.context_items)
      × (db'.state_assertions ≡ db.state_assertions)
      × (db'.events ≡ db.events)
unfolding insert_request
insert_request_inv q r db h = ground arith

apply_and_record-IsConsistent :
    (e : ContextEvent) (item : Option ContextItem) (q : IdempotencyRequest) (d : Option ApplyResult)
    (db : Db) {r : ApplyResult} {db' : Db}
    → apply_and_record e item q d db ≡ ok (r, db')
    → IsConsistent db
    → IsConsistent db'
unfolding apply_and_record
apply_and_record-IsConsistent e item q (some d) db h c = subst IsConsistent (ground arith) c
apply_and_record-IsConsistent e item q none db {r} {db'} h c =
    let (r₁, db₁, applied, rest) = bind_inv (apply_in_transaction e item) _ db h in
    let (_, db₂, noted, last) = bind_inv (insert_request q r₁) (λ _. pure r₁) db₁ rest in
    let (items, assertions, _) = insert_request_inv q r₁ db₁ noted in
    let same : db₂ ≡ db' = ground arith in
    subst IsConsistent same (
      IsConsistent-same_tables db₁ db₂ items assertions
        (apply_in_transaction-IsConsistent e item db applied c))

idempotent-IsConsistent :
    (e : ContextEvent) (item : Option ContextItem) (q : IdempotencyRequest) (db : Db)
    {r : ApplyResult} {db' : Db}
    → idempotent_in_transaction e item q db ≡ ok (r, db')
    → IsConsistent db
    → IsConsistent db'
unfolding idempotent_in_transaction
idempotent-IsConsistent e item q db h c =
    let (d, db₁, looked, last) =
      bind_inv (stored_request q (find (request_is q) db.mutation_requests))
        (apply_and_record e item q) db h in
    apply_and_record-IsConsistent e item q d db₁ last (
      subst IsConsistent
        (sym (
          (stored_request-IsReadOnly q (find (request_is q) db.mutation_requests)).at db d db₁
            looked))
        c)

-- An idempotent mutation keeps the projection consistent as well, also when it is answered from the
-- stored request or raises.
pub apply_idempotent-IsConsistent :
    (e : ContextEvent) (item : Option ContextItem) (q : IdempotencyRequest) (db : Db)
    → IsConsistent db
    → IsConsistent (apply_idempotent e item q db).1
unfolding apply_idempotent
apply_idempotent-IsConsistent e item q db c =
    transaction-IsConsistent (idempotent_in_transaction e item q) db
      (λ r db' h. idempotent-IsConsistent e item q db h c) c
