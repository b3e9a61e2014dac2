-- ===== src/Storage/Store/Targets.antt =====
-- What an item under an id is, and what the lookup of a target has found out of it.
use ctx_ttl_oss.Storage.Rows.{item_id_is, set_item}
use ctx_ttl_oss.Storage.Store.{get_item, required_active_target, get_target}
use ctx_ttl_oss.Storage.Transaction.{raise_if, bind_inv, pure, lift}
use ctx_ttl_oss.Storage.Tables.{ItemRow, Db}
use ctx_ttl_oss.Models.Event.{ContextEvent, event_owner_key}
use ctx_ttl_oss.Models.Context.{ContextItem, OwnerKey, owner_key}
use ctx_ttl_oss.Prelude.{
  String, ◌≡◌, refl, sym, ap, subst, ◌∙◌, inl, inr, true, false, Option, none, some, List, [], ◌∷◌,
  map, arith, ◌==◌, nat_eq, string_eq, option_eq, list_eq, Bool-cases, ok, ok_inj, any, find, Bool,
  not, ◌||◌, texts_iff, or_text, Error, context_conflict, context_not_found, Result, err, ==-refl,
}
use ctx_ttl_oss.Models.Dimensions.{
  ContextStatus, kind_eq, scope_eq, retention_eq, applicability_eq, authority_eq, status_eq,
  event_type_eq,
}

module _ (j : String) where
  abbrev pub item_in : List ItemRow → Option ContextItem
  item_in rows = elim (find (item_id_is j) rows) [ none ↦ none | some r ↦ some r.item ]

  pub in_rows : (db : Db) → get_item j db ≡ item_in db.context_items
  unfolding get_item
  in_rows db = refl

  item_in-id : (rows : List ItemRow) (i : ContextItem) → item_in rows ≡ some i → i.id ≡ j
  item_in-id [] i h = absurd (cc)
  item_in-id (r ∷ rows) i h = elim (Bool-cases (r.item.id == j)) [
    | inl same ↦
        let h' = rw (same, item_in) at h in
        let e : some r.item ≡ some i = h' in ground (arith, string_eq.beq_iff r.item.id j)
    | inr other ↦ item_in-id rows i (let h' = rw (other, item_in) at h in h')
  ]

  pub item_in-known :
      (rows : List ItemRow) (i : ContextItem)
      → item_in rows ≡ some i
      → any (item_id_is j) rows ≡ true
  item_in-known [] i h = absurd (cc)
  item_in-known (r ∷ rows) i h = elim (Bool-cases (r.item.id == j)) [
    | inl same ↦ rw same refl
    | inr other ↦ rw other (item_in-known rows i (let h' = rw (other, item_in) at h in h'))
  ]

  -- replacing an item changes no other item
  pub item_in-set_item :
      (t : ContextItem) (rows : List ItemRow)
      → (t.id == j) ≡ false
      → item_in (map (set_item t) rows) ≡ item_in rows
  item_in-set_item t [] h = refl
  item_in-set_item t (r ∷ rows) h = ground (
    arith,
    item_in-set_item t rows h,
    string_eq.beq_iff r.item.id t.id,
    string_eq.beq_iff r.item.id j,
    string_eq.beq_iff t.id j,
  )

-- an item under an id has that id
pub get_item-id : (j : String) (db : Db) (i : ContextItem) → get_item j db ≡ some i → i.id ≡ j
get_item-id j db i h = item_in-id j db.context_items i (sym (in_rows j db) ∙ h)

lift_inv :
    {A : Type 0} (r : Result A) (db : Db) {a : A} {db' : Db} → lift r db ≡ ok (a, db') → r ≡ ok a
lift_inv (ok b) db h = ap (λ p. ok p.0) (ok_inj h)
lift_inv (err e) db h = absurd (cc)

pub raise_if_inv :
    (b : Bool) (e : Error) (db : Db) {u : Unit {0}} {db' : Db}
    → raise_if b e db ≡ ok (u, db')
    → b ≡ false
raise_if_inv true e db h = absurd (cc)
raise_if_inv false e db h = refl

pub found_inv :
    (found : Option ContextItem) (t : ContextItem)
    → (elim found [ none ↦ err context_not_found | some t ↦ ok t ]) ≡ ok t
    → found ≡ some t
found_inv none t h = absurd (cc)
found_inv (some x) t h = ap some (ok_inj h)

pub target_known :
    (target : Option String) (db : Db) (t : ContextItem)
    → get_target target db ≡ some t
    → get_item t.id db ≡ some t
target_known none db t h = absurd (cc)
target_known (some id) db t h = subst (λ x. get_item x db ≡ some t) (sym (get_item-id id db t h)) h

-- what `required_active_target` has found out of the item that it returns
pub required_active_target_inv :
    (e : ContextEvent) (db : Db) (t : ContextItem) (db' : Db)
    → required_active_target e db ≡ ok (t, db')
    → (get_target e.target_context_id db ≡ some t)
      × ((t.status == ContextStatus.active) ≡ true)
      × (key : OwnerKey) × (event_owner_key e ≡ ok key)
      × (owner_key t ≡ ok key)
unfolding required_active_target
required_active_target_inv e db t db' h =
    let (x, db₁, h₁, r₁) =
      bind_inv
        (lift (elim (get_target e.target_context_id db) [
          | none ↦ err context_not_found
          | some t ↦ ok t
        ]))
        _ db h in
    let (_, db₂, h₂, r₂) =
      bind_inv (raise_if (not (x.status == ContextStatus.active)) context_conflict) _ db₁ r₁ in
    let (k, db₃, h₃, r₃) = bind_inv (lift (event_owner_key e)) _ db₂ r₂ in
    let (l, db₄, h₄, r₄) = bind_inv (lift (owner_key x)) _ db₃ r₃ in
    let differ =
      not (k == l) || not (e.scope == x.scope) || not (e.subject == or_text x.subject x.id) in
    let (_, db₅, h₅, r₅) = bind_inv (raise_if differ context_conflict) (λ _. pure x) db₄ r₄ in
    let same : x ≡ t = ap (λ p. p.0) (ok_inj r₅) in
    let active : not (x.status == ContextStatus.active) ≡ false =
      raise_if_inv (not (x.status == ContextStatus.active)) context_conflict db₁ h₂ in
    let met : differ ≡ false = raise_if_inv differ context_conflict db₄ h₅ in
    let equal : (k == l) ≡ true = ground arith in
    let keys : k ≡ l = (texts_iff k l).0 equal in
    (
      found_inv (get_target e.target_context_id db) x (lift_inv _ db h₁) ∙ ap some same,
      subst (λ (y : ContextItem). (y.status == ContextStatus.active) ≡ true) same (ground arith),
      k,
      lift_inv (event_owner_key e) db₂ h₃,
      subst (λ (y : ContextItem). owner_key y ≡ ok k) same
          (lift_inv (owner_key x) db₃ h₄ ∙ ap ok (sym keys)),
    )

-- a replaced item is found under its id
pub item_in-replaced :
    (t x : ContextItem) (rows : List ItemRow)
    → item_in t.id rows ≡ some x
    → item_in t.id (map (set_item t) rows) ≡ some t
item_in-replaced t x [] h = absurd (cc)
item_in-replaced t x (r ∷ rows) h = elim (Bool-cases (r.item.id == t.id)) [
  | inl same ↦ rw (same, item_in, ==-refl t.id) refl
  | inr different ↦
      rw (different, item_in, different)
        (item_in-replaced t x rows (let h' = rw (different, item_in) at h in h'))
]
