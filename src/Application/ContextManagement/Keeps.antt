-- ===== src/Application/ContextManagement/Keeps.antt =====
-- A request to the context management keeps what the store keeps for the owner of the request.
use ctx_ttl_oss.Storage.Store.{get_item}
use ctx_ttl_oss.Application.ContextState.Keeps.{
  required_item-Keeps, end_lifecycle-Keeps, expire-Keeps,
}
use ctx_ttl_oss.Application.Service.Keeps.{
  Keeps, Keeper, Keeps-pure, Keeps-raise, Keeps-commits, keeps_rules, Keeps-reads, Keeps-bind,
  Expirer, Keeper-Expirer,
}
use ctx_ttl_oss.Application.ContextState.{retract, expire}
use ctx_ttl_oss.Application.ContextManagement.{
  new_source, LifecycleInput, effective_turn, required_reachable, refreshed, after_conflict,
  expire_item, expire_all, expire_due, list_items_of, list_active_of, expire_exhausted, observe,
  advance_turn, list_for_compilation, is_due_now, get_item_of, retract_of, expire_of, is_due,
}
use ctx_ttl_oss.Application.Service.{Stamps, commits, pure, reads}
use ctx_ttl_oss.Storage.Queries.{list_items}
use ctx_ttl_oss.Storage.Tables.{Db}
use ctx_ttl_oss.Identity.{RequestIdentity, owner_of}
use ctx_ttl_oss.Models.Context.{ContextItem, OwnerKey}
use ctx_ttl_oss.Prelude.{
  ℕ, String, Option, none, some, List, ◌∷◌, ◌==◌, nat_eq, string_eq, option_eq, list_eq,
  if◌then◌else◌, assertion_error, [],
}
use ctx_ttl_oss.Models.Dimensions.{
  ContextStatus, kind_eq, scope_eq, retention_eq, applicability_eq, authority_eq, status_eq,
  event_type_eq,
}

module _ (P : Db → Type 0) where
  effective_turn-Keeps :
      (i : RequestIdentity) (turn : Option String) → Keeps P (effective_turn i turn)
  unfolding effective_turn
  effective_turn-Keeps i turn = search keeps_rules

  required_reachable-Keeps :
      (id : String) (i : RequestIdentity) (turn : Option String)
      → Keeps P (required_reachable id i turn)
  unfolding required_reachable
  required_reachable-Keeps id i turn = search (keeps_rules, required_item-Keeps) depth 12

  pub new_source-Keeps :
      (s : Stamps) (i : RequestIdentity) (turn : Option String) → Keeps P (new_source s i turn)
  unfolding new_source
  new_source-Keeps s i turn = search keeps_rules

  after_conflict-Keeps : (id : String) → Keeps P (after_conflict id)
  unfolding after_conflict
  after_conflict-Keeps id = search keeps_rules

  is_due_now-Keeps : (s : Stamps) (item : ContextItem) → Keeps P (is_due_now s item)
  unfolding is_due_now
  is_due_now-Keeps s item = search keeps_rules

  refreshed-Keeps : (found : Option ContextItem) → Keeps P (refreshed found)
  refreshed-Keeps none = Keeps-raise P assertion_error
  refreshed-Keeps (some i) = Keeps-pure P i

  listed-Keeps :
      (keys : List OwnerKey) (status : Option ContextStatus) (limit : ℕ)
      → Keeps P (commits (λ db. (list_items keys status limit db, db)))
  listed-Keeps keys status limit = Keeps-commits P _ (λ db h. h)

module _ (P : Db → Type 0) (s : Stamps) (i : RequestIdentity) (k : Expirer P (owner_of i)) where
  pub expire_item-Keeps :
      (item : ContextItem) (turn : Option String) (reason : String)
      → Keeps P (expire_item s item i turn reason)
  unfolding expire_item
  expire_item-Keeps item turn reason =
      search (keeps_rules, expire-Keeps, new_source-Keeps, after_conflict-Keeps) depth 12

  pub expire_all-Keeps :
      (now : ℕ) (turn : Option String) (items : List ContextItem)
      → Keeps P (expire_all s now i turn items)
  unfolding expire_all
  expire_all-Keeps now turn [] = Keeps-pure P tt
  expire_all-Keeps now turn (item ∷ items) =
      Keeps-bind P
        (if is_due item now then expire_item s item i turn "expires_at elapsed" else pure tt) _
        (search (keeps_rules, expire_item-Keeps) depth 12) (λ _. expire_all-Keeps now turn items)

  pub expire_due-Keeps :
      (keys : List OwnerKey) (turn : Option String) → Keeps P (expire_due s i keys turn)
  unfolding expire_due
  expire_due-Keeps keys turn = search (keeps_rules, expire_all-Keeps) depth 12

module _ (P : Db → Type 0) (s : Stamps) (i : RequestIdentity) (k : Keeper P (owner_of i)) where
  expirer_item :
      (item : ContextItem) (turn : Option String) (reason : String)
      → Keeps P (expire_item s item i turn reason)
  expirer_item = expire_item-Keeps P s i (Keeper-Expirer P (owner_of i) k)

  expirer_due : (keys : List OwnerKey) (turn : Option String) → Keeps P (expire_due s i keys turn)
  expirer_due = expire_due-Keeps P s i (Keeper-Expirer P (owner_of i) k)

  found_expired-Keeps :
      (turn : String) (found : Option ContextItem)
      → Keeps P (elim found [
        | none ↦ pure tt
        | some item ↦
            if item.status == ContextStatus.active
            then expire_item s item i (some turn) "ttl_turns exhausted"
            else pure tt
      ])
  found_expired-Keeps turn none = Keeps-pure P tt
  found_expired-Keeps turn (some item) = search (keeps_rules, expirer_item) depth 12

  expire_exhausted-Keeps :
      (turn : String) (ids : List String) → Keeps P (expire_exhausted s i turn ids)
  unfolding expire_exhausted
  expire_exhausted-Keeps turn [] = Keeps-pure P tt
  expire_exhausted-Keeps turn (id ∷ ids) =
      Keeps-bind P (reads (get_item id)) _ (Keeps-reads P (get_item id)) (λ found.
        Keeps-bind P _ _ (found_expired-Keeps turn found) (λ _. expire_exhausted-Keeps turn ids))

  observe-Keeps : (keys : List OwnerKey) (turn : String) → Keeps P (observe keys i.session_id turn)
  observe-Keeps keys turn = Keeps-commits P _ (λ db h. k.observes keys i.session_id turn db h)

  advance_turn-Keeps :
      (keys : List OwnerKey) (turn : Option String) → Keeps P (advance_turn s i keys turn)
  unfolding advance_turn
  advance_turn-Keeps keys none = Keeps-pure P tt
  advance_turn-Keeps keys (some turn) =
      search (keeps_rules, observe-Keeps, expire_exhausted-Keeps) depth 12

  pub list_items_of-Keeps :
      (status : Option ContextStatus) (limit : ℕ) (turn : Option String)
      → Keeps P (list_items_of s i status limit turn)
  unfolding list_items_of
  list_items_of-Keeps status limit turn =
      search (keeps_rules, effective_turn-Keeps, expirer_due, listed-Keeps) depth 12

  pub list_active_of-Keeps : (turn : Option String) → Keeps P (list_active_of s i turn)
  unfolding list_active_of
  list_active_of-Keeps turn = search (keeps_rules, effective_turn-Keeps, expirer_due) depth 12

  pub list_for_compilation-Keeps : Keeps P (list_for_compilation s i)
  unfolding list_for_compilation
  list_for_compilation-Keeps = search (keeps_rules, advance_turn-Keeps, expirer_due) depth 12

  pub get_item_of-Keeps : (id : String) (turn : Option String) → Keeps P (get_item_of s id i turn)
  unfolding get_item_of
  get_item_of-Keeps id turn =
      search
        (
          keeps_rules, effective_turn-Keeps, required_reachable-Keeps, is_due_now-Keeps,
          refreshed-Keeps, expirer_item,
        )
        depth 14

  pub retract_of-Keeps : (id : String) (r : LifecycleInput) → Keeps P (retract_of s id i r)
  unfolding retract_of retract
  retract_of-Keeps id r =
      search
        (
          keeps_rules, effective_turn-Keeps, required_reachable-Keeps, new_source-Keeps,
          end_lifecycle-Keeps,
        )
        depth 12

  pub expire_of-Keeps : (id : String) (r : LifecycleInput) → Keeps P (expire_of s id i r)
  unfolding expire_of expire
  expire_of-Keeps id r =
      search
        (
          keeps_rules, effective_turn-Keeps, required_reachable-Keeps, new_source-Keeps,
          end_lifecycle-Keeps,
        )
        depth 12
