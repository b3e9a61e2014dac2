-- ===== src/Storage/Store/Stored.antt =====
-- What each statement leaves of one stored item.
use ctx_ttl_oss.Storage.Store.Targets.{item_in, item_in-known, item_in-set_item}
use ctx_ttl_oss.Storage.Transaction.Preserves.{Preserves, Any}
use ctx_ttl_oss.Storage.Rows.Effects.{
  with_event, with_item, insert_event_inv, insert_item_inv, insert_projection_inv,
  insert_projection-none, insert_turn_lease_inv,
}
use ctx_ttl_oss.Storage.Rows.{
  item_id_is, insert_event, insert_item, insert_projection, replace_status, remove_projection,
  set_item,
}
use ctx_ttl_oss.Storage.Store.{get_item, insert_active, end_target}
use ctx_ttl_oss.Storage.Transaction.{bind_inv}
use ctx_ttl_oss.Storage.Tables.{Db}
use ctx_ttl_oss.Models.Event.{ContextEvent}
use ctx_ttl_oss.Models.Context.{ContextItem, OwnerKey, owner_key}
use ctx_ttl_oss.Prelude.{
  String, ◌≡◌, refl, sym, ap, subst, ◌∙◌, inl, inr, true, false, Option, some, map, ◌==◌, nat_eq,
  string_eq, option_eq, list_eq, Bool-cases, Option-cases, ok, ok_inj, any,
}
use ctx_ttl_oss.Models.Dimensions.{
  ContextStatus, kind_eq, scope_eq, retention_eq, applicability_eq, authority_eq, status_eq,
  event_type_eq,
}

module _ (j : String) (item : ContextItem) where
  -- the store has the item under the id
  abbrev pub IsStored : Db → Type 0
  IsStored db = get_item j db ≡ some item

  pub IsStored-same :
      (db db' : Db) → db'.context_items ≡ db.context_items → IsStored db → IsStored db'
  unfolding get_item
  IsStored-same db db' e h = rw e h

  IsStored-with_item :
      (i : ContextItem) (key : OwnerKey) (db : Db)
      → any (item_id_is i.id) db.context_items ≡ false
      → IsStored db
      → IsStored (with_item i key db)
  unfolding get_item
  IsStored-with_item i key db fresh h = elim (Bool-cases (i.id == j)) [
    | inl same ↦
        let e : i.id ≡ j = (string_eq.beq_iff i.id j).0 same in
        let known : any (item_id_is i.id) db.context_items ≡ true =
          subst (λ x. any (item_id_is x) db.context_items ≡ true) (sym e)
            (item_in-known j db.context_items item h) in
        absurd (cc)
    | inr other ↦ rw (other, get_item) h
  ]

  pub insert_event-Preserves :
      (e : ContextEvent) (id : Option String) → Preserves IsStored Any (insert_event e id)
  insert_event-Preserves e id = record {
    at = λ db u db' h stored. (
      subst IsStored (sym (insert_event_inv e id db h).1)
          (IsStored-same db (with_event e id db) refl stored),
      tt,
    );
  }

  insert_projection_items :
      (i : ContextItem) (key : OwnerKey) (db db' : Db) {u : Unit {0}}
      → owner_key i ≡ ok key
      → insert_projection i db ≡ ok (u, db')
      → db'.context_items ≡ db.context_items
  insert_projection_items i key db db' owner h = elim (Option-cases i.subject) [
    | inl unnamed ↦ ap (λ (d : Db). d.context_items) (insert_projection-none i db unnamed h)
    | inr (subject, named) ↦
        ap (λ (d : Db). d.context_items) (insert_projection_inv i subject key db named owner h).1
  ]

  pub insert_active-Preserves : (i : ContextItem) → Preserves IsStored Any (insert_active i)
  unfolding insert_active
  insert_active-Preserves i = record {
    at = λ db u db' h stored.
        let (_, db₁, first, rest) = bind_inv (insert_item i) _ db h in
        let (_, db₂, second, third) = bind_inv (insert_projection i) _ db₁ rest in
        let (key, owner, fresh, after) = insert_item_inv i db first in
        let (items, _, _) = insert_turn_lease_inv i db₂ third in
        let stored₁ : IsStored db₁ =
          subst IsStored (sym after) (IsStored-with_item i key db fresh stored) in
        (
          IsStored-same db₁ db' (items ∙ insert_projection_items i key db₁ db₂ owner second)
              stored₁,
          tt,
        );
  }

  pub end_target-Preserves :
      (t : ContextItem) (s : ContextStatus)
      → (t.id == j) ≡ false
      → Preserves IsStored Any (end_target t s)
  unfolding end_target replace_status remove_projection get_item
  end_target-Preserves t s other = record {
    at = λ db u db' h stored.
        let items : db'.context_items ≡ map (set_item (record t { status = s })) db.context_items =
          ap (λ (p : Unit {0} × Db). p.1.context_items) (sym (ok_inj h)) in
        (
          subst (λ rows. item_in j rows ≡ some item) (sym items)
              (item_in-set_item j (record t { status = s }) db.context_items other ∙ stored),
          tt,
        );
  }
