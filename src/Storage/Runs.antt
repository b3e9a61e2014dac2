-- ===== src/Storage/Runs.antt =====
-- Runs of the store: in every state that a sequence of mutations reaches, one subject of one owner
-- and scope has one active item at most.
use ctx_ttl_oss.Prelude.{
  ◌≤◌, String, ◌≡◌, refl, inl, inr, Bool, true, false, ◌&&◌, Option, some, List, [], ◌∷◌, arith,
  ◌==◌, texts_iff, optional_iff, nat_eq, string_eq, option_eq, list_eq, Bool-cases, any, count_by,
  All,
}
use ctx_ttl_oss.Models.Dimensions.{
  ContextScope, ContextStatus, kind_eq, scope_eq, retention_eq, applicability_eq, authority_eq,
  status_eq, event_type_eq,
}
use ctx_ttl_oss.Models.Context.{ContextItem, OwnerKey}
use ctx_ttl_oss.Models.Event.{ContextEvent}
use ctx_ttl_oss.Storage.Tables.{ItemRow, Assertion, Db}
use ctx_ttl_oss.Storage.Store.{IdempotencyRequest, apply, apply_idempotent}
use ctx_ttl_oss.Storage.Store.Consistent.{same_item, asserts, IsCovered, IsConsistent}
use ctx_ttl_oss.Storage.Store.Invariant.{apply-IsConsistent, apply_idempotent-IsConsistent}
use ctx_ttl_oss.Storage.Queries.{
  distinct_from, observed, observe_owner, observe_owners, observe_turn,
}
use ctx_ttl_oss.Prelude.Unique.{UniqueBy, any_both}
use ctx_ttl_oss.Storage.Rows.{clashes}

pub data Mutation : Type 0 where
  applied : ContextEvent → Option ContextItem → Mutation
  applied_once : ContextEvent → Option ContextItem → IdempotencyRequest → Mutation
  turn_observed : List OwnerKey → String → String → Mutation

unfoldable pub mutate : Mutation → Db → Db
unfolding apply apply_idempotent observe_turn
mutate (applied e item) db = (apply e item db).1
mutate (applied_once e item q) db = (apply_idempotent e item q db).1
mutate (turn_observed keys session_id turn_id) db = (observe_turn keys session_id turn_id db).1

unfoldable pub run : List Mutation → Db → Db
unfolding mutate
run [] db = db
run (m ∷ ms) db = run ms (mutate m db)

-- an active item with this owner key, scope and subject
abbrev pub is_live_at : OwnerKey → ContextScope → String → ItemRow → Bool
is_live_at key scope subject r =
    r.item.status == ContextStatus.active
    && r.owner_key == key
    && r.item.scope == scope
    && r.item.subject == some subject

observe_owners-IsConsistent :
    (session_id turn_id : String) (keys : List OwnerKey) (db : Db)
    → IsConsistent db
    → IsConsistent (observe_owners session_id turn_id keys db)
unfolding observe_owners observe_owner
observe_owners-IsConsistent s t [] db c = c
observe_owners-IsConsistent s t (k ∷ ks) db c =
    observe_owners-IsConsistent s t ks (observe_owner s t k db)
      (elim (Bool-cases (any (observed k s t) db.turn_observations)) [
        | inl old ↦ rw old c
        | inr new ↦ rw new (record {
          unique_items = c.unique_items;
          unique_assertions = c.unique_assertions;
          covered = c.covered;
        })
      ])

pub observe_turn-IsConsistent :
    (keys : List OwnerKey) (s t : String) (db : Db)
    → IsConsistent db
    → IsConsistent (observe_turn keys s t db).1
unfolding observe_turn
observe_turn-IsConsistent [] s t db c = c
observe_turn-IsConsistent (k ∷ ks) s t db c =
    observe_owners-IsConsistent s t (distinct_from [] (k ∷ ks)) db c

run-IsConsistent : (ms : List Mutation) (db : Db) → IsConsistent db → IsConsistent (run ms db)
unfolding run mutate
run-IsConsistent [] db c = c
run-IsConsistent (applied e item ∷ ms) db c = run-IsConsistent ms _ (apply-IsConsistent e item db c)
run-IsConsistent (applied_once e item q ∷ ms) db c =
    run-IsConsistent ms _ (apply_idempotent-IsConsistent e item q db c)
run-IsConsistent (turn_observed keys s t ∷ ms) db c =
    run-IsConsistent ms _ (observe_turn-IsConsistent keys s t db c)

live_at_parts :
    (key : OwnerKey) (scope : ContextScope) (subject : String) (r : ItemRow)
    → is_live_at key scope subject r ≡ true
    → (r.owner_key ≡ key) × (r.item.scope ≡ scope) × (r.item.subject ≡ some subject)
live_at_parts key scope subject r h = ground (
  arith,
  texts_iff r.owner_key key,
  scope_eq.beq_iff r.item.scope scope,
  optional_iff r.item.subject (some subject),
)

asserts_parts :
    (r : ItemRow) (a : Assertion)
    → asserts r a ≡ true
    → (a.context_item_id ≡ r.item.id)
      × (a.owner_key ≡ r.owner_key)
      × (a.scope ≡ r.item.scope)
      × (some a.subject ≡ r.item.subject)
asserts_parts r a h = ground (
  arith,
  string_eq.beq_iff a.context_item_id r.item.id,
  texts_iff a.owner_key r.owner_key,
  scope_eq.beq_iff a.scope r.item.scope,
  optional_iff (some a.subject) r.item.subject,
)

clashes_of_eq :
    (a b : Assertion)
    → a.owner_key ≡ b.owner_key
    → a.scope ≡ b.scope
    → a.subject ≡ b.subject
    → clashes a b ≡ true
clashes_of_eq a b k c s = ground (
  arith,
  texts_iff a.owner_key b.owner_key,
  scope_eq.beq_iff a.scope b.scope,
  string_eq.beq_iff a.subject b.subject,
)

module _ (key : OwnerKey) (scope : ContextScope) (subject : String) (as' : List Assertion) where
  live-asserts :
      (r : ItemRow)
      → IsCovered as' r
      → is_live_at key scope subject r ≡ true
      → any (asserts r) as' ≡ true
  live-asserts r c h = c (ground (arith, optional_iff r.item.subject (some subject)))

  clash :
      (r s : ItemRow) (a b : Assertion)
      → is_live_at key scope subject r ≡ true
      → is_live_at key scope subject s ≡ true
      → asserts r a ≡ true
      → asserts s b ≡ true
      → clashes a b ≡ true
  clash r s a b hr hs ha hb =
      let (k₁, c₁, j₁) = live_at_parts key scope subject r hr in
      let (k₂, c₂, j₂) = live_at_parts key scope subject s hs in
      let (_, k₃, c₃, j₃) = asserts_parts r a ha in
      let (_, k₄, c₄, j₄) = asserts_parts s b hb in clashes_of_eq a b (cc) (cc) (cc)

  same_id :
      (r s : ItemRow) (a : Assertion)
      → asserts r a ≡ true
      → asserts s a ≡ true
      → same_item r s ≡ true
  same_id r s a hr hs = ground (
    arith,
    string_eq.beq_iff a.context_item_id r.item.id,
    string_eq.beq_iff a.context_item_id s.item.id,
    string_eq.beq_iff r.item.id s.item.id,
  )

  none_beside :
      (r : ItemRow) (rows : List ItemRow)
      → UniqueBy clashes as'
      → is_live_at key scope subject r ≡ true
      → any (asserts r) as' ≡ true
      → All (IsCovered as') rows
      → any (same_item r) rows ≡ false
      → count_by (is_live_at key scope subject) rows ≡ 0
  none_beside r [] u live a c n = refl
  none_beside r (s ∷ rows) u live a c n = elim (Bool-cases (is_live_at key scope subject s)) [
    | inl also ↦
        let (x, xr, xs) =
          any_both clashes (asserts r) (asserts s) as'
            (λ x y px qy. (clash r s x y live also px qy, clash s r y x also live qy px)) u a
            (live-asserts s c.0 also) in
        absurd (cc (same_id r s x xr xs, n))
    | inr other ↦ rw other (omega (arith, none_beside r rows u live a c.1 (ground arith)))
  ]

  count_live :
      (rows : List ItemRow)
      → UniqueBy clashes as'
      → UniqueBy same_item rows
      → All (IsCovered as') rows
      → count_by (is_live_at key scope subject) rows ≤ 1
  count_live [] u v c = omega arith
  count_live (r ∷ rows) u v c = elim (Bool-cases (is_live_at key scope subject r)) [
    | inl live ↦
        rw live (omega (arith, none_beside r rows u live (live-asserts r c.0 live) c.1 v.0))
    | inr other ↦ rw other (omega (arith, count_live rows u v.1 c.1))
  ]

-- After any sequence of applied events, idempotent mutations and observed turns on a consistent
-- database, successful or not, at most one active item has a given owner key, scope and subject: a
-- correction leaves one active decision.
pub one_live_item :
    (ms : List Mutation) (db : Db) (key : OwnerKey) (scope : ContextScope) (subject : String)
    → IsConsistent db
    → count_by (is_live_at key scope subject) (run ms db).context_items ≤ 1
one_live_item ms db key scope subject c =
    let d = run-IsConsistent ms db c in
    count_live key scope subject (run ms db).state_assertions (run ms db).context_items
      d.unique_assertions d.unique_items d.covered
