-- ===== src/Application/ContextManagement/Missed.antt =====
-- No active item appears while items are expired, so that none that is due is missed.
use ctx_ttl_oss.Application.ContextManagement.Fresh.{witness}
use ctx_ttl_oss.Application.ContextManagement.Fresh.{any-items}
use ctx_ttl_oss.Application.Service.Keeps.{Expirer}
use ctx_ttl_oss.Application.ContextManagement.{is_due}
use ctx_ttl_oss.Prelude.Sort.{any-sorted}
use ctx_ttl_oss.Storage.Store.Ended.{end_target_items}
use ctx_ttl_oss.Prelude.Unique.{any-keep, any_mono}
use ctx_ttl_oss.Storage.Transaction.Preserves.{Preserves, Any}
use ctx_ttl_oss.Storage.Rows.Effects.{insert_event_inv}
use ctx_ttl_oss.Storage.Store.Checks.{required_active_target-IsReadOnly}
use ctx_ttl_oss.Storage.Store.Steps.{apply-preserves}
use ctx_ttl_oss.Storage.Store.{required_active_target, end_target, project_event}
use ctx_ttl_oss.Storage.Rows.{insert_event, set_item}
use ctx_ttl_oss.Storage.Queries.{created_before, items_of, list_active}
use ctx_ttl_oss.Storage.Transaction.{bind_inv}
use ctx_ttl_oss.Storage.Tables.{ItemRow, Db}
use ctx_ttl_oss.Models.Event.{ContextEvent}
use ctx_ttl_oss.Models.Context.{ContextOwner, ContextItem, OwnerKey}
use ctx_ttl_oss.Prelude.{
  ℕ, ◌≡◌, refl, sym, ap, subst, ◌∙◌, inl, inr, Bool, true, false, not, ◌&&◌, Option, none, List, [],
  ◌∷◌, map, arith, ◌==◌, ==-refl, nat_eq, string_eq, option_eq, list_eq, Bool-cases, ok, keep, any,
  contains,
}
use ctx_ttl_oss.Models.Dimensions.{
  ContextStatus, EventType, kind_eq, scope_eq, retention_eq, applicability_eq, authority_eq,
  status_eq, event_type_eq,
}

abbrev pub is_candidate : List OwnerKey → ItemRow → Bool
is_candidate keys r = r.item.status == ContextStatus.active && contains r.owner_key keys

-- an active row that is due, and that no due item of the list stands for
abbrev pub is_missed : List OwnerKey → ℕ → List ContextItem → ItemRow → Bool
is_missed keys now items r =
    is_candidate keys r
    && is_due r.item now
    && not (any (λ x. is_due x now && x.id == r.item.id) items)

abbrev pub NoneMissed : List OwnerKey → ℕ → List ContextItem → Db → Type 0
NoneMissed keys now items db = any (is_missed keys now items) db.context_items ≡ false

any-map-false :
    (p : ItemRow → Bool) (f : ItemRow → ItemRow) (rows : List ItemRow)
    → ((r : ItemRow) → p r ≡ false → p (f r) ≡ false)
    → any p rows ≡ false
    → any p (map f rows) ≡ false
any-map-false p f [] k h = refl
any-map-false p f (r ∷ rows) k h = ground (arith, k r, any-map-false p f rows k)

module _ (keys : List OwnerKey) (now : ℕ) (items : List ContextItem) where
  missed-set_item :
      (t : ContextItem) (r : ItemRow)
      → (t.status == ContextStatus.active) ≡ false
      → is_missed keys now items r ≡ false
      → is_missed keys now items (set_item t r) ≡ false
  missed-set_item t r ended h = elim (Bool-cases (r.item.id == t.id)) [
    | inl same ↦ rw (same, ended) refl
    | inr different ↦ rw different h
  ]

  expiry-NoneMissed :
      (e : ContextEvent) (item : Option ContextItem)
      → Preserves (NoneMissed keys now items) Any (project_event EventType.expire e item)
  unfolding project_event
  expiry-NoneMissed e item = record {
    at = λ db u db' h none_missed.
        let (t, db₁, found, r₁) = bind_inv (required_active_target e) _ db h in
        let (_, db₂, wrote, r₂) =
          bind_inv (insert_event e none) (λ _. end_target t ContextStatus.expired) db₁ r₁ in
        let same : db₁ ≡ db = (required_active_target-IsReadOnly e).at db t db₁ found in
        let items₂ : db₂.context_items ≡ db.context_items =
          ap (λ (d : Db). d.context_items) ((insert_event_inv e none db₁ wrote).1)
          ∙ ap (λ (d : Db). d.context_items) same in
        (
          ended t db₂ db' r₂ (
              subst (λ rows. any (is_missed keys now items) rows ≡ false) (sym items₂) none_missed),
          tt,
        );
  }
    where
      ended :
          (t : ContextItem) (db db' : Db) {u : Unit {0}}
          → end_target t ContextStatus.expired db ≡ ok (u, db')
          → NoneMissed keys now items db
          → NoneMissed keys now items db'
      ended t db db' h none_missed =
          subst (λ rows. any (is_missed keys now items) rows ≡ false)
            (sym (end_target_items t ContextStatus.expired db db' h))
            (any-map-false (is_missed keys now items)
              (set_item (record t { status = ContextStatus.expired })) db.context_items
              (λ r. missed-set_item (record t { status = ContextStatus.expired }) r refl)
              none_missed)

  pub NoneMissed-Expirer : (o : ContextOwner) → Expirer (NoneMissed keys now items) o
  NoneMissed-Expirer o = record {
    expires = λ e db _ type h.
        apply-preserves (NoneMissed keys now items) e
          (λ item.
            subst (λ t. Preserves (NoneMissed keys now items) Any (project_event t e item))
              (sym type) (expiry-NoneMissed e item))
          none db h;
  }

-- at the time that the list is read, it stands for every due row
pub NoneMissed-listed :
    (keys : List OwnerKey) (now : ℕ) (db : Db) → NoneMissed keys now (list_active keys db) db
unfolding list_active
NoneMissed-listed keys now db =
    elim (Bool-cases (any (is_missed keys now (list_active keys db)) db.context_items)) [
      | inl missed ↦
          let (r, bad, known) =
            witness (is_missed keys now (list_active keys db)) db.context_items missed in
          let f : ContextItem → Bool = λ x. is_due x now && x.id == r.item.id in
          let here : any (λ x. is_candidate keys x && f x.item) db.context_items ≡ true =
            known (λ x. is_candidate keys x && f x.item) (ground (arith, ==-refl r.item.id)) in
          let kept : any (λ x. is_candidate keys x && f x.item)
                (keep (is_candidate keys) db.context_items)
              ≡ true =
            any-keep (λ x. is_candidate keys x && f x.item) (is_candidate keys) db.context_items
              (λ x k. ground arith) here in
          let listed : any f (list_active keys db) ≡ true =
            any-sorted created_before f (items_of (keep (is_candidate keys) db.context_items))
            ∙ any-items f (keep (is_candidate keys) db.context_items)
            ∙ any_mono (λ x. is_candidate keys x && f x.item) (λ x. f x.item)
                (keep (is_candidate keys) db.context_items) (λ x k. ground arith) kept in
          let missing : not (any f (list_active keys db)) ≡ true = ground arith in absurd (cc)
      | inr fine ↦ fine
    ]
