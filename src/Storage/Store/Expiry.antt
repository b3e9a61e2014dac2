-- ===== src/Storage/Store/Expiry.antt =====
-- An expiry that succeeds has ended its target, also where its event was already in the log.
use ctx_ttl_oss.Storage.Store.{item_id}
use ctx_ttl_oss.Storage.Store.Targets.{get_item-id, required_active_target_inv, raise_if_inv}
use ctx_ttl_oss.Storage.Store.Stored.{insert_event-Preserves}
use ctx_ttl_oss.Storage.Store.Checks.{required_active_target-IsReadOnly}
use ctx_ttl_oss.Storage.Transaction.{raise_if, pure, transaction, bind_inv, transaction-ok}
use ctx_ttl_oss.Storage.Store.Ended.{IsEnded, IsAnswered, IsLogged, end_target-ends}
use ctx_ttl_oss.Storage.Rows.{event_id_is, insert_event}
use ctx_ttl_oss.Storage.Equality.{event_eq}
use ctx_ttl_oss.Storage.Store.{
  ApplyResult, get_item, duplicate_of, duplicate_result, apply, validate_event_item, get_target,
  required_active_target, end_target, project_event, fresh_result, or_fresh, apply_in_transaction,
}
use ctx_ttl_oss.Storage.Tables.{Db, EventRow}
use ctx_ttl_oss.Models.Event.{ContextEvent}
use ctx_ttl_oss.Models.Context.{ContextItem}
use ctx_ttl_oss.Prelude.{
  ◌≡◌, refl, sym, subst, ◌∙◌, inl, inr, Bool, true, false, Option, none, some, List, [], ◌∷◌, arith,
  ◌==◌, optional_iff, nat_eq, string_eq, option_eq, list_eq, Bool-cases, ok, find, All, ap, not,
  ◌||◌, event_conflict, Result, err, ok_inj,
}
use ctx_ttl_oss.Models.Dimensions.{
  ContextStatus, EventType, kind_eq, scope_eq, retention_eq, applicability_eq, authority_eq,
  status_eq, event_type_eq,
}

find-All :
    (Q : EventRow → Type 0) (p : EventRow → Bool) (rows : List EventRow) (row : EventRow)
    → All Q rows
    → find p rows ≡ some row
    → Q row
find-All Q p [] row h e = absurd (cc)
find-All Q p (r ∷ rows) row h e = elim (Bool-cases (p r)) [
  | inl here ↦
      let e' = rw here at e in
      let same : some r ≡ some row = e' in let equal : r ≡ row = cc in subst Q equal h.0
  | inr there ↦ find-All Q p rows row h.1 (let e' = rw there at e in e')
]

event_parts :
    (a b : ContextEvent)
    → event_eq a b ≡ true
    → (a.event_type ≡ b.event_type) × (a.target_context_id ≡ b.target_context_id)
unfolding event_eq
event_parts a b h = ground (
  arith,
  event_type_eq.beq_iff a.event_type b.event_type,
  optional_iff a.target_context_id b.target_context_id,
)

module _ (e : ContextEvent) (t : ContextItem) (expires : e.event_type ≡ EventType.expire)
    (targets : e.target_context_id ≡ some t.id)
    (active : (t.status == ContextStatus.active) ≡ true) where
  -- the log holds no copy of the event while its target is active
  unlogged :
      (row : EventRow) (db : Db)
      → IsAnswered (λ id. IsEnded id db) row
      → event_eq row.event e ≡ true
      → get_item t.id db ≡ some t
      → ⊥
  unlogged row db answered same found =
      let (type, target) = event_parts row.event e same in
      let (x, is_x, over) = answered t.id (rw (type, expires) refl) (target ∙ targets) in
      let both : some x ≡ some t = sym is_x ∙ found in
      let equal : x ≡ t = cc in
      let clash : (t.status == ContextStatus.active) ≡ false =
        subst (λ (y : ContextItem). (y.status == ContextStatus.active) ≡ false) equal over in
      absurd (cc)

  duplicate_of-none :
      (row : Option EventRow) (db : Db) (d : Option ApplyResult) (db' : Db)
      → find (event_id_is e.id) db.events ≡ row
      → duplicate_of e none row db ≡ ok (d, db')
      → IsLogged db
      → get_item t.id db ≡ some t
      → d ≡ none
  unfolding duplicate_of
  duplicate_of-none none db d db' known h logged found = sym (ap (λ p. p.0) (ok_inj h))
  duplicate_of-none (some row) db d db' known h logged found =
      let differs = not (event_eq row.event e) || not (row.item_id == item_id none) in
      let (_, db₁, passed, _) = bind_inv (raise_if differs event_conflict) _ db h in
      let fits : differs ≡ false = raise_if_inv differs event_conflict db passed in
      let same : event_eq row.event e ≡ true = ground arith in
      absurd (
        unlogged row db
          (find-All (IsAnswered (λ id. IsEnded id db)) (event_id_is e.id) db.events row logged
            known)
          same found)

  duplicate_result-none :
      (db : Db) (d : Option ApplyResult) (db' : Db)
      → duplicate_result e none db ≡ ok (d, db')
      → IsLogged db
      → get_item t.id db ≡ some t
      → d ≡ none
  unfolding duplicate_result
  duplicate_result-none db d db' h =
      duplicate_of-none (find (event_id_is e.id) db.events) db d db' refl h

  -- the branch of an expiry
  expired_branch :
      (db db' : Db) {u : Unit {0}}
      → project_event EventType.expire e none db ≡ ok (u, db')
      → IsEnded t.id db'
  unfolding project_event
  expired_branch db db' {u} h =
      let (x, db₁, looked, r₁) = bind_inv (required_active_target e) _ db h in
      let (_, db₂, wrote, r₂) =
        bind_inv (insert_event e none) (λ _. end_target x ContextStatus.expired) db₁ r₁ in
      let same : db₁ ≡ db = (required_active_target-IsReadOnly e).at db x db₁ looked in
      let is_target = (required_active_target_inv e db x db₁ looked).0 in
      let under : get_item t.id db ≡ some x =
        subst (λ o. get_target o db ≡ some x) targets is_target in
      let id : x.id ≡ t.id = get_item-id t.id db x under in
      let known : get_item x.id db₁ ≡ some x =
        subst (λ d. get_item x.id d ≡ some x) (sym same)
          (subst (λ j. get_item j db ≡ some x) (sym id) under) in
      let still : get_item x.id db₂ ≡ some x =
        ((insert_event-Preserves x.id x e none).at db₁ tt db₂ wrote known).0 in
      subst (λ j. IsEnded j db') id
        (end_target-ends x ContextStatus.expired refl db₂ db' x r₂ still)

  fresh-ends :
      (db : Db) (r : ApplyResult) (db' : Db)
      → fresh_result e none db ≡ ok (r, db')
      → IsEnded t.id db'
  unfolding fresh_result
  fresh-ends db r db' h =
      let (_, db₁, valid, r₁) = bind_inv (validate_event_item e none) _ db h in
      let (_, db₂, projected, last) =
        bind_inv (project_event e.event_type e none)
          (λ _. pure (record { event = e; item = none; applied = true })) db₁ r₁ in
      let same : db₂ ≡ db' = ap (λ p. p.1) (ok_inj last) in
      subst (IsEnded t.id) same (
        expired_branch db₁ db₂
          (subst (λ type. project_event type e none db₁ ≡ ok (tt, db₂)) expires projected))

  -- Where an expiry of an active item returns on a store whose log agrees with its items, the item is
  -- ended.
  pub apply-ends :
      (db : Db) (r : ApplyResult)
      → IsLogged db
      → get_item t.id db ≡ some t
      → (apply e none db).0 ≡ ok r
      → IsEnded t.id (apply e none db).1
  unfolding apply
  apply-ends db r logged found h = go (transaction (apply_in_transaction e none) db) refl h
    where
      or_fresh-ends :
          (d : Option ApplyResult) (db₁ : Db) (r : ApplyResult) (db' : Db)
          → d ≡ none
          → or_fresh e none d db₁ ≡ ok (r, db')
          → IsEnded t.id db'
      or_fresh-ends none db₁ r db' e k = fresh-ends db₁ r db' k
      or_fresh-ends (some x) db₁ r db' e k = absurd (cc)

      go :
          (p : Result ApplyResult × Db)
          → transaction (apply_in_transaction e none) db ≡ p
          → p.0 ≡ ok r
          → IsEnded t.id p.1
      go (err x, db') same h = absurd (cc)
      go (ok a, db') same h =
          in_transaction a db' (transaction-ok (apply_in_transaction e none) db same)
        where
          in_transaction :
              (a : ApplyResult) (db' : Db)
              → apply_in_transaction e none db ≡ ok (a, db')
              → IsEnded t.id db'
          in_transaction a db' k =
              let (d, db₁, looked, last) =
                bind_inv (duplicate_result e none) (or_fresh e none) db k in
              or_fresh-ends d db₁ a db' (duplicate_result-none db d db₁ looked logged found) last
