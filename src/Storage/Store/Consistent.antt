-- ===== src/Storage/Store/Consistent.antt =====
-- The invariant of the projection: ids are unique, the uniqueness constraints of
-- `state_assertions` hold, and every active item with a subject has its row there.
use ctx_ttl_oss.Prelude.{
  String, ◌≡◌, refl, ◌∙◌, inl, inr, Bool, true, false, not, ◌&&◌, Option, none, some, List, [], ◌∷◌,
  map, arith, ◌==◌, ==-refl, nat_eq, string_eq, option_eq, list_eq, Bool-cases, is_some, keep, any,
  All,
}
use ctx_ttl_oss.Models.Dimensions.{
  ContextStatus, kind_eq, scope_eq, retention_eq, applicability_eq, authority_eq, status_eq,
  event_type_eq,
}
use ctx_ttl_oss.Models.Context.{ContextItem, OwnerKey}
use ctx_ttl_oss.Models.Event.{ContextEvent}
use ctx_ttl_oss.Storage.Tables.{ItemRow, Assertion, Db, empty_db}
use ctx_ttl_oss.Storage.Rows.{item_id_is, assertion_of, clashes, asserted_by, set_item}
use ctx_ttl_oss.Storage.Rows.Effects.{with_event, with_item, with_assertion}
use ctx_ttl_oss.Prelude.Unique.{UniqueBy, any-keep, UniqueBy-keep, All-weaken, All-map}

abbrev pub same_item : ItemRow → ItemRow → Bool
same_item r s = r.item.id == s.item.id

-- the row takes part in the projection
abbrev pub is_live : ItemRow → Bool
is_live r = r.item.status == ContextStatus.active && is_some r.item.subject

abbrev pub asserts : ItemRow → Assertion → Bool
asserts r a =
    a.context_item_id == r.item.id
    && a.owner_key == r.owner_key
    && a.scope == r.item.scope
    && some a.subject == r.item.subject

abbrev pub IsCovered : List Assertion → ItemRow → Type 0
IsCovered as' r = is_live r ≡ true → any (asserts r) as' ≡ true

pub record IsConsistent (db : Db) : Type 0 where
  pub unique_items : UniqueBy same_item db.context_items
  pub unique_assertions : UniqueBy clashes db.state_assertions
  pub covered : All (IsCovered db.state_assertions) db.context_items

pub IsConsistent-with_event :
    (e : ContextEvent) (id : Option String) (db : Db)
    → IsConsistent db
    → IsConsistent (with_event e id db)
IsConsistent-with_event e id db c = record {
  unique_items = c.unique_items;
  unique_assertions = c.unique_assertions;
  covered = c.covered;
}

-- a test on ids of a list of items, as its two readers state it
any-same_item :
    (key : OwnerKey) (i : ContextItem) (rows : List ItemRow)
    → any (item_id_is i.id) rows ≡ false
    → any (same_item (record { owner_key = key; item = i })) rows ≡ false
any-same_item key i [] e = refl
any-same_item key i (r ∷ rows) e = ground (
  arith,
  string_eq.beq_iff r.item.id i.id,
  string_eq.beq_iff i.id r.item.id,
  any-same_item key i rows,
)

IsCovered-cons :
    (a : Assertion) (as' : List Assertion) (r : ItemRow) → IsCovered as' r → IsCovered (a ∷ as') r
IsCovered-cons a as' r h live = ground (arith, h live)

asserts_own :
    (i : ContextItem) (key : OwnerKey) (s : String)
    → i.subject ≡ some s
    → asserts (record { owner_key = key; item = i }) (assertion_of i key s) ≡ true
asserts_own i key s e = simp (==-refl, e) (==-refl s)

-- A new item whose projection row is inserted with it keeps the invariant.
pub IsConsistent-with_active :
    (i : ContextItem) (key : OwnerKey) (s : String) (db : Db)
    → i.subject ≡ some s
    → any (item_id_is i.id) db.context_items ≡ false
    → any (clashes (assertion_of i key s)) db.state_assertions ≡ false
    → IsConsistent db
    → IsConsistent (with_assertion (assertion_of i key s) (with_item i key db))
IsConsistent-with_active i key s db e fresh free c = record {
  unique_items = (any-same_item key i db.context_items fresh, c.unique_items);
  unique_assertions = (free, c.unique_assertions);
  covered = (
    λ live. ground (arith, asserts_own i key s e),
    All-weaken (IsCovered db.state_assertions)
        (IsCovered (assertion_of i key s ∷ db.state_assertions)) db.context_items
        (IsCovered-cons (assertion_of i key s) db.state_assertions) c.covered,
  );
}

-- An item without a subject takes no part in the projection.
pub IsConsistent-with_unnamed :
    (i : ContextItem) (key : OwnerKey) (db : Db)
    → i.subject ≡ none
    → any (item_id_is i.id) db.context_items ≡ false
    → IsConsistent db
    → IsConsistent (with_item i key db)
IsConsistent-with_unnamed i key db e fresh c = record {
  unique_items = (any-same_item key i db.context_items fresh, c.unique_items);
  unique_assertions = c.unique_assertions;
  covered = (λ live. ground arith, c.covered);
}

module _ (t : ContextItem) (ended : (t.status == ContextStatus.active) ≡ false) where
  id-set_item : (r : ItemRow) → (set_item t r).item.id ≡ r.item.id
  id-set_item r = ground (arith, string_eq.beq_iff r.item.id t.id)

  any-set_item :
      (x : ItemRow) (rows : List ItemRow)
      → any (same_item (set_item t x)) (map (set_item t) rows) ≡ any (same_item x) rows
  any-set_item x [] = refl
  any-set_item x (r ∷ rows) = simp (id-set_item, any-set_item x rows)

  UniqueBy-set_item :
      (rows : List ItemRow) → UniqueBy same_item rows → UniqueBy same_item (map (set_item t) rows)
  UniqueBy-set_item [] u = tt
  UniqueBy-set_item (r ∷ rows) u = (any-set_item r rows ∙ u.0, UniqueBy-set_item rows u.1)

  asserts-kept :
      (r : ItemRow) (a : Assertion)
      → (r.item.id == t.id) ≡ false
      → asserts r a ≡ true
      → not (asserted_by t.id a) ≡ true
  asserts-kept r a other h = ground (arith, string_eq.beq_iff a.context_item_id r.item.id)

  IsCovered-set_item :
      (as' : List Assertion) (r : ItemRow)
      → IsCovered as' r
      → IsCovered (keep (λ a. not (asserted_by t.id a)) as') (set_item t r)
  IsCovered-set_item as' r h = elim (Bool-cases (r.item.id == t.id)) [
    | inl same ↦ rw same (λ live. ground arith)
    | inr other ↦ rw other (λ live.
        any-keep (asserts r) (λ a. not (asserted_by t.id a)) as' (λ a. asserts-kept r a other)
          (h live))
  ]

  -- Ending the lifecycle of an item and dropping its projection row keeps the invariant.
  pub IsConsistent-ended :
      (db : Db)
      → IsConsistent db
      → IsConsistent (record db {
        context_items = map (set_item t) db.context_items;
        state_assertions = keep (λ a. not (asserted_by t.id a)) db.state_assertions;
      })
  IsConsistent-ended db c = record {
    unique_items = UniqueBy-set_item db.context_items c.unique_items;
    unique_assertions =
        UniqueBy-keep clashes (λ a. not (asserted_by t.id a)) db.state_assertions
          c.unique_assertions;
    covered =
        All-map (IsCovered db.state_assertions)
          (IsCovered (keep (λ a. not (asserted_by t.id a)) db.state_assertions)) (set_item t)
          db.context_items (IsCovered-set_item db.state_assertions) c.covered;
  }

pub IsConsistent-empty_db : IsConsistent empty_db
IsConsistent-empty_db = record { unique_items = tt; unique_assertions = tt; covered = tt }
