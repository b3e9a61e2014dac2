-- ===== src/Application/ContextState/Keeps.antt =====
-- The operations of the lifecycle manager keep what the store keeps for the owner of their events.
use ctx_ttl_oss.Models.Context.{ContextOwner, SourceRef, ContextItem}
use ctx_ttl_oss.Application.Service.{Stamps, ◌>>=◌, lift, new_id, utc_now}
use ctx_ttl_oss.Prelude.{
  String, ◌≡◌, refl, sym, ap, ◌∙◌, Option, none, some, nat_eq, string_eq, option_eq, list_eq, ok,
  ok_inj, >>=_inv,
}
use ctx_ttl_oss.Models.Dimensions.{
  Authority, EventType, kind_eq, scope_eq, retention_eq, applicability_eq, authority_eq, status_eq,
  event_type_eq,
}
use ctx_ttl_oss.Models.Event.{construct_event, ContextEvent, validate_operation}
use ctx_ttl_oss.Storage.Store.{IdempotencyRequest, apply, apply_idempotent}
use ctx_ttl_oss.Storage.Tables.{Db}
use ctx_ttl_oss.Application.Service.Keeps.{
  Keeps, Keeper, Keeps-commits, keeps_rules, Gives, Gives-lift, Gives-bind, Keeps-lift, Keeps-bind,
  Keeps-then, Expirer,
}
use ctx_ttl_oss.Application.ContextState.{
  validate_new_item, apply_event, required_item, item_event, end_lifecycle, assert_item, supersede,
  new_item_event, expire,
}

module _ (P : Db → Type 0) where
  validate_new_item-Keeps : (i : ContextItem) → Keeps P (validate_new_item i)
  unfolding validate_new_item
  validate_new_item-Keeps i = search keeps_rules

  pub required_item-Keeps : (id : String) → Keeps P (required_item id)
  unfolding required_item
  required_item-Keeps id = search keeps_rules

module _ (P : Db → Type 0) (o : ContextOwner) (k : Keeper P o) where
  apply_event-Keeps :
      (e : ContextEvent) (item : Option ContextItem) (q : Option IdempotencyRequest)
      → e.owner ≡ o
      → Keeps P (apply_event e item q)
  unfolding apply_event
  apply_event-Keeps e item none h = Keeps-commits P (apply e item) (λ db. k.applies e item db h)
  apply_event-Keeps e item (some q) h =
      Keeps-commits P (apply_idempotent e item q) (λ db. k.repeats e item q db h)

pub construct_event-kept : (e a : ContextEvent) → construct_event e ≡ ok a → a ≡ e
unfolding construct_event
construct_event-kept e a h =
    let (_, _, last) = >>=_inv (validate_operation e) (λ _. ok e) h in sym (ok_inj last)

construct_event-owner :
    (e : ContextEvent) (a : ContextEvent) → construct_event e ≡ ok a → a.owner ≡ e.owner
construct_event-owner e a h = ap (λ (x : ContextEvent). x.owner) (construct_event-kept e a h)

Gives-construct :
    (o : ContextOwner) (e : ContextEvent)
    → e.owner ≡ o
    → Gives (λ x. x.owner ≡ o) (lift (construct_event e))
Gives-construct o e h =
    Gives-lift (λ x. x.owner ≡ o) (construct_event e) (λ a k. construct_event-owner e a k ∙ h)

item_event-Gives :
    (s : Stamps) (type : EventType) (i : ContextItem) (target reason : Option String)
    → Gives (λ e. e.owner ≡ i.owner) (item_event s type i target reason)
unfolding item_event
item_event-Gives s type i target reason =
    Gives-bind (λ e. e.owner ≡ i.owner) (new_id s) _
      (λ id.
        Gives-bind (λ e. e.owner ≡ i.owner) (utc_now s) _
          (λ t. Gives-construct i.owner (new_item_event type i target reason id t) refl))

item_event-Keeps :
    (P : Db → Type 0) (s : Stamps) (type : EventType) (i : ContextItem)
    (target reason : Option String)
    → Keeps P (item_event s type i target reason)
unfolding item_event
item_event-Keeps P s type i target reason = search keeps_rules

module _ (P : Db → Type 0) (s : Stamps) (o : ContextOwner) (k : Keeper P o) where
  -- an event of the owner is built and applied
  event_applied :
      (e : ContextEvent) (item : Option ContextItem) (q : Option IdempotencyRequest)
      → e.owner ≡ o
      → Keeps P (lift (construct_event e) >>= λ a. apply_event a item q)
  event_applied e item q h =
      Keeps-then (λ a. a.owner ≡ o) P (lift (construct_event e)) _
        (Keeps-lift P (construct_event e)) (Gives-construct o e h)
        (λ a own. apply_event-Keeps P o k a item q own)

  pub end_lifecycle-Keeps :
      (type : EventType) (target : String) (source : SourceRef) (a : Authority)
      (reason : Option String)
      → Keeps P (end_lifecycle s type target o source a reason)
  unfolding end_lifecycle
  end_lifecycle-Keeps type target source a reason =
      search (keeps_rules, event_applied, required_item-Keeps) depth 12

  item_applied :
      (type : EventType) (i : ContextItem) (target reason : Option String)
      (f : ContextEvent → ContextItem) (q : Option IdempotencyRequest)
      → i.owner ≡ o
      → Keeps P (item_event s type i target reason >>= λ e. apply_event e (some (f e)) q)
  item_applied type i target reason f q h =
      Keeps-then (λ e. e.owner ≡ i.owner) P (item_event s type i target reason) _
        (item_event-Keeps P s type i target reason) (item_event-Gives s type i target reason)
        (λ e own. apply_event-Keeps P o k e (some (f e)) q (own ∙ h))

  pub assert_item-Keeps :
      (i : ContextItem) (reason : Option String) (q : Option IdempotencyRequest)
      → i.owner ≡ o
      → Keeps P (assert_item s i reason q)
  unfolding assert_item
  assert_item-Keeps i reason q h =
      Keeps-bind P (validate_new_item i) _ (validate_new_item-Keeps P i)
        (λ _. item_applied EventType.assert i none reason _ q h)

  pub supersede-Keeps :
      (target : String) (i : ContextItem) (reason : Option String) (q : Option IdempotencyRequest)
      → i.owner ≡ o
      → Keeps P (supersede s target i reason q)
  unfolding supersede
  supersede-Keeps target i reason q h =
      search (keeps_rules, item_applied, required_item-Keeps, validate_new_item-Keeps) depth 12

module _ (P : Db → Type 0) (s : Stamps) (o : ContextOwner) (k : Expirer P o) where
  expiry_applied :
      (e : ContextEvent)
      → e.owner ≡ o
      → e.event_type ≡ EventType.expire
      → Keeps P (lift (construct_event e) >>= λ a. apply_event a none none)
  unfolding apply_event
  expiry_applied e own type =
      Keeps-then (λ a. a ≡ e) P (lift (construct_event e)) _ (Keeps-lift P (construct_event e))
        (Gives-lift (λ a. a ≡ e) (construct_event e) (λ a. construct_event-kept e a))
        (λ a same. Keeps-commits P (apply a none) (λ db.
          k.expires a db (ap (λ (x : ContextEvent). x.owner) same ∙ own)
            (ap (λ (x : ContextEvent). x.event_type) same ∙ type)))

  pub expire-Keeps :
      (target : String) (source : SourceRef) (a : Authority) (reason : Option String)
      → Keeps P (expire s target o source a reason)
  unfolding expire end_lifecycle
  expire-Keeps target source a reason =
      search (keeps_rules, expiry_applied, required_item-Keeps) depth 12
