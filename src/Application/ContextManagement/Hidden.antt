-- ===== src/Application/ContextManagement/Hidden.antt =====
-- What a request is told of an item that it does not reach.
use ctx_ttl_oss.Application.ContextState.{required_item}
use ctx_ttl_oss.Application.ContextManagement.{
  LifecycleInput, get_item_of, retract_of, expire_of, or_option, both_differ, effective_turn,
  required_reachable,
}
use ctx_ttl_oss.Application.Service.{Stamps, World}
use ctx_ttl_oss.Storage.Store.{get_item}
use ctx_ttl_oss.Storage.Tables.{Db}
use ctx_ttl_oss.Identity.{RequestIdentity, reachable_owner_keys}
use ctx_ttl_oss.Models.Context.{ContextItem, OwnerKey, owner_key}
use ctx_ttl_oss.Prelude.{
  String, ◌≡◌, refl, ◌⊎◌, inl, inr, false, Option, none, some, nat_eq, string_eq, option_eq,
  list_eq, context_not_found, ok, err, contains, List, if◌then◌else◌, Bool-cases, Error,
  context_conflict,
}
use ctx_ttl_oss.Models.Dimensions.{
  kind_eq, scope_eq, retention_eq, applicability_eq, authority_eq, status_eq, event_type_eq,
}

-- the store has no item under the id, or one with a key that the request does not reach
abbrev pub IsHidden : String → RequestIdentity → Option String → Db → Type 0
IsHidden id i turn_id db =
    (get_item id db ≡ none)
    ⊎ ((item : ContextItem) × (key : OwnerKey) × (reachable : List OwnerKey) × (get_item id db
          ≡ some item)
        × (owner_key item ≡ ok key)
        × (reachable_owner_keys i turn_id ≡ ok reachable)
        × (contains key reachable ≡ false))

required_reachable-hidden :
    (id : String) (i : RequestIdentity) (turn_id : Option String) (w : World)
    → IsHidden id i turn_id w.db
    → required_reachable id i turn_id w ≡ (err context_not_found, w)
unfolding required_reachable required_item
required_reachable-hidden id i turn_id w (inl missing) = rw missing refl
required_reachable-hidden id i turn_id w
      (inr (item, key, reachable, found, keyed, reached, outside)) =
    rw (found, keyed, reached, outside) refl

-- what a request for a hidden item raises
abbrev pub refusal : RequestIdentity → Option String → Error
refusal i turn_id = if both_differ i.turn_id turn_id then context_conflict else context_not_found

module _ (s : Stamps) where
  -- A request that reads, retracts or expires an item that it does not reach, or one that does not
  -- exist, changes nothing and gets the same error: ContextConflict where the turns of the request
  -- and of its identity contradict each other, and ContextNotFound otherwise.
  pub hidden_not_found :
      (id : String) (i : RequestIdentity) (r : LifecycleInput) (w : World)
      → IsHidden id i (or_option i.turn_id r.turn_id) w.db
      → (get_item_of s id i r.turn_id w ≡ (err (refusal i r.turn_id), w))
        × (retract_of s id i r w ≡ (err (refusal i r.turn_id), w))
        × (expire_of s id i r w ≡ (err (refusal i r.turn_id), w))
  unfolding get_item_of retract_of expire_of effective_turn
  hidden_not_found id i r w hidden =
      let refused = required_reachable-hidden id i (or_option i.turn_id r.turn_id) w hidden in
      elim (Bool-cases (both_differ i.turn_id r.turn_id)) [
        | inl contrary ↦ rw contrary (refl, refl, refl)
        | inr agreed ↦
            (rw (agreed, refused) refl, rw (agreed, refused) refl, rw (agreed, refused) refl)
      ]
