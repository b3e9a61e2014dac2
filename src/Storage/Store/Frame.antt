-- ===== src/Storage/Store/Frame.antt =====
-- Which items an event leaves as they are: those that it may not end.
use ctx_ttl_oss.Storage.Queries.{observed}
use ctx_ttl_oss.Storage.Store.Targets.{target_known, required_active_target_inv}
use ctx_ttl_oss.Storage.Store.Stored.{
  IsStored, IsStored-same, insert_event-Preserves, insert_active-Preserves, end_target-Preserves,
}
use ctx_ttl_oss.Storage.Queries.{distinct_from, observe_owner, observe_owners, observe_turn}
use ctx_ttl_oss.Storage.Store.Steps.{
  Steps, apply-preserves, apply_idempotent-preserves, projected_own,
}
use ctx_ttl_oss.Storage.Store.Invariant.{insert_request_inv}
use ctx_ttl_oss.Storage.Store.Checks.{required_active_target-IsReadOnly}
use ctx_ttl_oss.Storage.Transaction.Preserves.{Preserves, Any}
use ctx_ttl_oss.Storage.Store.{
  get_item, required_active_target, IdempotencyRequest, apply, apply_idempotent, ApplyResult,
  insert_request,
}
use ctx_ttl_oss.Storage.Tables.{Db}
use ctx_ttl_oss.Models.Event.{ContextEvent, event_owner_key}
use ctx_ttl_oss.Models.Context.{ContextItem, OwnerKey, owner_key, key_for, ContextOwner}
use ctx_ttl_oss.Prelude.{
  String, ◌≡◌, refl, sym, ap, subst, ◌∙◌, inl, inr, false, Option, some, List, [], ◌∷◌, ◌==◌,
  nat_eq, string_eq, option_eq, list_eq, Bool-cases, ok, any, ◌⊎◌,
}
use ctx_ttl_oss.Models.Dimensions.{
  ContextStatus, kind_eq, scope_eq, retention_eq, applicability_eq, authority_eq, status_eq,
  event_type_eq, ContextScope,
}

-- the owner may end no item with this key
abbrev pub IsForeign : ContextOwner → OwnerKey → Type 0
IsForeign o key =
    (scope : ContextScope) (turn_id : Option String) → ¬ (key_for o scope turn_id ≡ ok key)

-- an active item only ends on behalf of an owner whose keys contain its own
abbrev pub IsBeyond : ContextOwner → ContextItem → Type 0
IsBeyond o item =
    ((item.status == ContextStatus.active) ≡ false)
    ⊎ ((key : OwnerKey) × (owner_key item ≡ ok key) × IsForeign o key)

module _ (e : ContextEvent) (j : String) (item : ContextItem) (beyond : IsBeyond e.owner item) where
  IsStored-other_target :
      (db : Db) (t : ContextItem) (db' : Db)
      → required_active_target e db ≡ ok (t, db')
      → IsStored j item db
      → (t.id == j) ≡ false
  unfolding event_owner_key
  IsStored-other_target db t db' h stored =
      let (found, active, key, of_event, of_target) = required_active_target_inv e db t db' h in
      elim (Bool-cases (t.id == j)) [
        | inl same ↦
            let known : get_item j db ≡ some t =
              subst (λ x. get_item x db ≡ some t) ((string_eq.beq_iff t.id j).0 same)
                (target_known e.target_context_id db t found) in
            let both : some t ≡ some item = sym known ∙ stored in
            let is_item : t ≡ item = cc in
            absurd (elim beyond [
              | inl ended ↦
                  absurd (
                    let h = ap (λ (x : ContextItem). x.status == ContextStatus.active) is_item in
                    cc)
              | inr (k, keyed, foreign) ↦
                  foreign e.scope e.source.turn_id
                    (of_event ∙ sym of_target ∙ ap owner_key is_item ∙ keyed)
            ])
        | inr another ↦ another
      ]

  required_active_target-Preserves :
      Preserves (IsStored j item) (λ t. (t.id == j) ≡ false) (required_active_target e)
  required_active_target-Preserves = record {
    at = λ db t db' h stored. (
      subst (IsStored j item) (sym ((required_active_target-IsReadOnly e).at db t db' h)) stored,
      IsStored-other_target db t db' h stored,
    );
  }

  frame_steps : Steps (IsStored j item) e (λ t. (t.id == j) ≡ false)
  frame_steps = record {
    logs = insert_event-Preserves j item e;
    adds = insert_active-Preserves j item;
    finds = required_active_target-Preserves;
    ends = λ t s _ another. end_target-Preserves j item t s another;
  }

  insert_request-Preserves :
      (q : IdempotencyRequest) (r : ApplyResult)
      → Preserves (IsStored j item) Any (insert_request q r)
  unfolding insert_request
  insert_request-Preserves q r = record {
    at = λ db u db' h stored.
        (IsStored-same j item db db' (insert_request_inv q r db h).0 stored, tt);
  }

-- An item that an event may not end is left as it is by the event, whatever item comes with it and
-- whether the call succeeds or raises.
pub apply-frame :
    (e : ContextEvent) (new : Option ContextItem) (j : String) (item : ContextItem) (db : Db)
    → IsBeyond e.owner item
    → get_item j db ≡ some item
    → get_item j (apply e new db).1 ≡ some item
apply-frame e new j item db beyond h =
    apply-preserves (IsStored j item) e
      (projected_own (IsStored j item) e (λ t. (t.id == j) ≡ false) (frame_steps e j item beyond))
      new db h

pub apply_idempotent-frame :
    (e : ContextEvent) (new : Option ContextItem) (q : IdempotencyRequest) (j : String)
    (item : ContextItem) (db : Db)
    → IsBeyond e.owner item
    → get_item j db ≡ some item
    → get_item j (apply_idempotent e new q db).1 ≡ some item
apply_idempotent-frame e new q j item db beyond h =
    apply_idempotent-preserves (IsStored j item) e
      (projected_own (IsStored j item) e (λ t. (t.id == j) ≡ false) (frame_steps e j item beyond))
      (insert_request-Preserves e j item beyond) new q db h

observe_owners_items :
    (session_id turn_id : String) (keys : List OwnerKey) (db : Db)
    → (observe_owners session_id turn_id keys db).context_items ≡ db.context_items
unfolding observe_owners observe_owner
observe_owners_items s t [] db = refl
observe_owners_items s t (k ∷ ks) db =
    observe_owners_items s t ks (observe_owner s t k db)
    ∙ elim (Bool-cases (any (observed k s t) db.turn_observations)) [
      | inl old ↦ rw old refl
      | inr new ↦ rw new refl
    ]

pub observe_turn-IsStored :
    (keys : List OwnerKey) (session_id turn_id j : String) (item : ContextItem) (db : Db)
    → IsStored j item db
    → IsStored j item (observe_turn keys session_id turn_id db).1
unfolding observe_turn
observe_turn-IsStored [] s t j item db h = h
observe_turn-IsStored (k ∷ ks) s t j item db h =
    IsStored-same j item db (observe_owners s t (distinct_from [] (k ∷ ks)) db)
      (observe_owners_items s t (distinct_from [] (k ∷ ks)) db) h
