-- ===== src/Application/ContextManagement/Listed.antt =====
-- The active items that a request is given are not due.
use ctx_ttl_oss.Application.ContextManagement.Missed.{
  is_candidate, is_missed, NoneMissed, NoneMissed-Expirer, NoneMissed-listed,
}
use ctx_ttl_oss.Application.ContextManagement.Fresh.{
  DueEnded, expire_all-Ensures, found_unique, any-items,
}
use ctx_ttl_oss.Application.ContextManagement.Keeps.{expire_all-Keeps}
use ctx_ttl_oss.Application.Service.Keeps.{Expirer, resumed_inv}
use ctx_ttl_oss.Application.ContextManagement.{
  list_active_of, or_option, both_differ, effective_turn, is_due, expire_all, expire_due,
}
use ctx_ttl_oss.Application.Service.{Stamps, World, reads}
use ctx_ttl_oss.Prelude.Sort.{any-sorted}
use ctx_ttl_oss.Identity.Reach.{all_keys, reachable_total}
use ctx_ttl_oss.Storage.Store.Targets.{in_rows}
use ctx_ttl_oss.Storage.Store.Ended.{IsLogged}
use ctx_ttl_oss.Storage.Queries.{created_before, items_of, list_active}
use ctx_ttl_oss.Storage.Store.Invariant.{apply-IsConsistent}
use ctx_ttl_oss.Storage.Store.Consistent.{IsConsistent}
use ctx_ttl_oss.Storage.Tables.{ItemRow, Db}
use ctx_ttl_oss.Identity.{RequestIdentity, owner_of}
use ctx_ttl_oss.Models.Context.{ContextOwner, ContextItem, OwnerKey}
use ctx_ttl_oss.Prelude.{
  ℕ, suc, String, ◌≡◌, sym, subst, ◌∙◌, inl, inr, Bool, true, false, ◌&&◌, Option, none, some, List,
  [], ◌∷◌, arith, ◌==◌, nat_eq, string_eq, option_eq, list_eq, Bool-cases, ok, ok_inj, keep, any,
}
use ctx_ttl_oss.Models.Dimensions.{
  ContextStatus, kind_eq, scope_eq, retention_eq, applicability_eq, authority_eq, status_eq,
  event_type_eq,
}

any-of_keep :
    (f q : ItemRow → Bool) (rows : List ItemRow)
    → any f (keep q rows) ≡ true
    → any (λ r. q r && f r) rows ≡ true
any-of_keep f q [] h = h
any-of_keep f q (r ∷ rows) h = ground (arith, any-of_keep f q rows)

-- what is due and listed is listed by a row that is not missed, so it is ended, which no row of it is
fresh_list :
    (keys : List OwnerKey) (now : ℕ) (items : List ContextItem) (db : Db)
    → DueEnded now items db
    → NoneMissed keys now items db
    → IsConsistent db
    → any (λ x. is_due x now) (list_active keys db) ≡ false
unfolding list_active
fresh_list keys now items db ended none_missed consistent =
    elim (Bool-cases (any (λ x. is_due x now) (list_active keys db))) [
      | inl due ↦
          let kept : any (λ r. is_due r.item now) (keep (is_candidate keys) db.context_items)
              ≡ true =
            sym (
              any-sorted created_before (λ x. is_due x now)
                (items_of (keep (is_candidate keys) db.context_items))
              ∙ any-items (λ x. is_due x now) (keep (is_candidate keys) db.context_items))
            ∙ due in
          let (r, passes, found, known) =
            found_unique (λ r. is_candidate keys r && is_due r.item now) db.context_items
              consistent.unique_items
              (any-of_keep (λ r. is_due r.item now) (is_candidate keys) db.context_items kept) in
          let covered : any (λ x. is_due x now && x.id == r.item.id) items ≡ true =
            elim (Bool-cases (any (λ x. is_due x now && x.id == r.item.id) items)) [
              | inl yes_covered ↦ yes_covered
              | inr uncovered ↦
                  let missed : is_missed keys now items r ≡ true = ground arith in
                  let clash = known (is_missed keys now items) missed in absurd (cc)
            ] in
          let (x, is_x, over) = ended r.item.id covered in
          let both : some x ≡ some r.item = sym is_x ∙ in_rows r.item.id db ∙ found in
          let same : x ≡ r.item = cc in
          let inactive : (r.item.status == ContextStatus.active) ≡ false =
            subst (λ (y : ContextItem). (y.status == ContextStatus.active) ≡ false) same over in
          let active : (r.item.status == ContextStatus.active) ≡ true = ground arith in absurd (cc)
      | inr fresh ↦ fresh
    ]

IsConsistent-Expirer : (o : ContextOwner) → Expirer IsConsistent o
IsConsistent-Expirer o = record { expires = λ e db _ _ c. apply-IsConsistent e none db c }

-- Where the active items of a request are listed, on a store that is consistent and whose log agrees
-- with its items, none that is returned has an expiry at or before the time that the service read.
pub list_active_of-fresh :
    (s : Stamps) (i : RequestIdentity) (turn_id : Option String) (w : World)
    (items : List ContextItem)
    → IsLogged w.db
    → IsConsistent w.db
    → (list_active_of s i turn_id w).0 ≡ ok items
    → any (λ x. is_due x (s.time w.drawn)) items ≡ false
unfolding list_active_of effective_turn expire_due
list_active_of-fresh s i turn_id w items logged consistent h =
    elim (Bool-cases (both_differ i.turn_id turn_id)) [
      | inl differs ↦ absurd (let h' = rw differs at h in cc)
      | inr agrees ↦
          let turn = or_option i.turn_id turn_id in
          let keys = all_keys i turn in
          let now = s.time w.drawn in
          let listed = list_active keys w.db in
          let w₁ : World = record w { drawn = suc w.drawn } in
          let h' = rw (agrees, reachable_total i turn) at h in
          let (u, first, last) =
            resumed_inv (expire_all s now i turn listed w₁) (λ _. reads (list_active keys)) items
              h' in
          let ended = (expire_all-Ensures s i now turn listed).at w₁ u logged first in
          let none_missed =
            (expire_all-Keeps (NoneMissed keys now listed) s i
                (NoneMissed-Expirer keys now listed (owner_of i)) now turn listed).at
              w₁ (NoneMissed-listed keys now w.db) in
          let kept =
            (expire_all-Keeps IsConsistent s i (IsConsistent-Expirer (owner_of i)) now turn
                listed).at
              w₁ consistent in
          subst (λ l. any (λ x. is_due x now) l ≡ false) (ok_inj last)
            (fresh_list keys now listed (expire_all s now i turn listed w₁).1.db ended none_missed
              kept)
    ]
