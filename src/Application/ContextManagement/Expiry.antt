-- ===== src/Application/ContextManagement/Expiry.antt =====
-- What is left of the items that are due once they have been expired.
use ctx_ttl_oss.Application.ContextManagement.Keeps.{new_source-Keeps}
use ctx_ttl_oss.Application.ContextManagement.{
  new_source, ended_meanwhile, after_conflict, expire_item,
}
use ctx_ttl_oss.Storage.Store.Logged.{apply-IsLogged}
use ctx_ttl_oss.Identity.{RequestIdentity, owner_of}
use ctx_ttl_oss.Application.ContextState.Keeps.{construct_event-kept, expire-Keeps}
use ctx_ttl_oss.Application.Service.Keeps.{keeps_rules, Expirer, Keeps-pure, Keeps-bind}
use ctx_ttl_oss.Application.Service.Ensures.{
  Ensures, Ensures-lift, Ensures-reads, Ensures-bind, Ensures-skip, Ensures-catch, Ensures-raise_if,
}
use ctx_ttl_oss.Application.ContextState.{
  apply_event, required_item, end_event, end_lifecycle, expire,
}
use ctx_ttl_oss.Storage.Store.Expiry.{apply-ends}
use ctx_ttl_oss.Storage.Store.Targets.{get_item-id, found_inv}
use ctx_ttl_oss.Storage.Store.Ended.{IsEnded, IsLogged}
use ctx_ttl_oss.Storage.Store.{apply, get_item}
use ctx_ttl_oss.Storage.Tables.{Db}
use ctx_ttl_oss.Models.Event.{ContextEvent, construct_event}
use ctx_ttl_oss.Models.Context.{key_for, ContextOwner, SourceRef, ContextItem, owner_key}
use ctx_ttl_oss.Application.Service.{
  raise_if, lift, Stamps, reads, commits, new_id, utc_now, ◌>>=◌, ◌>>◌, pure, World,
}
use ctx_ttl_oss.Prelude.{
  ℕ, String, ◌≡◌, sym, ap, subst, ◌∙◌, false, not, Option, none, some, arith, ◌==◌, nat_eq,
  string_eq, option_eq, list_eq, context_conflict, context_not_found, ok, err, inl, inr, Bool-cases,
}
use ctx_ttl_oss.Models.Dimensions.{
  Authority, ContextStatus, EventType, kind_eq, scope_eq, retention_eq, applicability_eq,
  authority_eq, status_eq, event_type_eq,
}

-- the log agrees with the items, and the store has this item under the id
abbrev HasItem : String → ContextItem → Db → Type 0
HasItem id t db = IsLogged db × (get_item id db ≡ some t)

abbrev HasActive : String → ContextItem → Db → Type 0
HasActive id t db = HasItem id t db × (not (t.status == ContextStatus.active) ≡ false)

abbrev Ends : String → {A : Type 0} → A → Db → Type 0
Ends id _ db = IsEnded id db

required_item-Ensures :
    (id : String) → Ensures IsLogged (λ t db. HasItem id t db) (required_item id)
unfolding required_item
required_item-Ensures id =
    Ensures-bind IsLogged (λ found db. IsLogged db × (get_item id db ≡ found))
      (λ t db. HasItem id t db) (reads (get_item id))
      (λ found. lift (elim found [ none ↦ err context_not_found | some i ↦ ok i ]))
      (Ensures-reads IsLogged (get_item id))
      (λ found. record { at = λ w t h e. (h.0, h.1 ∙ found_inv found t e) })

module _ (s : Stamps) (id : String) (o : ContextOwner) (source : SourceRef) (a : Authority)
    (reason : Option String) where
  applied-Ensures :
      (t : ContextItem) (uuid : String) (now : ℕ)
      → Ensures
          (HasActive id t)
          (λ r db. IsEnded id db)
          (lift (construct_event (end_event EventType.expire t o source a reason uuid now)) >>= λ e.
            apply_event e none none)
  unfolding apply_event
  applied-Ensures t uuid now =
      let e = end_event EventType.expire t o source a reason uuid now in
      Ensures-bind (HasActive id t) (λ x db. HasActive id t db × (construct_event e ≡ ok x))
        (λ r db. IsEnded id db) (lift (construct_event e)) (λ x. commits (apply x none))
        (Ensures-lift (HasActive id t) (construct_event e))
        (λ x. record {
          at = λ w r h k.
              let ((logged, found), active) = h.0 in
              let same : x ≡ e = construct_event-kept e x h.1 in
              let own : t.id ≡ id = get_item-id id w.db t found in
              subst (λ j. IsEnded j (apply x none w.db).1) own
                (apply-ends x t (ap (λ (y : ContextEvent). y.event_type) same)
                  (ap (λ (y : ContextEvent). y.target_context_id) same) (ground arith) w.db r logged
                  (subst (λ j. get_item j w.db ≡ some t) (sym own) found) k);
        })

  checked-Ensures :
      (t : ContextItem)
      → Ensures
          (HasActive id t)
          (λ r db. IsEnded id db)
          (do
            key ← lift (key_for o t.scope source.turn_id)
            target_key ← lift (owner_key t)
            raise_if (not (key == target_key)) context_conflict
            uuid ← new_id s
            now ← utc_now s
            e ← lift (construct_event (end_event EventType.expire t o source a reason uuid now))
            apply_event e none none)
  checked-Ensures t = search (Ensures-skip, applied-Ensures, keeps_rules) depth 16

  expire-Ensures : Ensures IsLogged (λ r db. IsEnded id db) (expire s id o source a reason)
  unfolding expire end_lifecycle
  expire-Ensures =
      Ensures-bind IsLogged (λ t db. HasItem id t db) (λ r db. IsEnded id db) (required_item id) _
        (required_item-Ensures id)
        (λ t.
          Ensures-bind (HasItem id t) (λ _ db. HasActive id t db) (λ r db. IsEnded id db)
            (raise_if (not (t.status == ContextStatus.active)) context_conflict) _
            (Ensures-raise_if (HasItem id t) (not (t.status == ContextStatus.active))
              context_conflict)
            (λ _. checked-Ensures t))

pub IsLogged-Expirer : (o : ContextOwner) → Expirer IsLogged o
IsLogged-Expirer o = record { expires = λ e db _ _ h. apply-IsLogged e none db h }

after_conflict-Ensures :
    (id : String) → Ensures IsLogged (λ _ db. IsEnded id db) (after_conflict id)
unfolding after_conflict
after_conflict-Ensures id =
    Ensures-bind IsLogged (λ found db. IsLogged db × (get_item id db ≡ found))
      (λ _ db. IsEnded id db) (reads (get_item id))
      (λ current. raise_if (not (ended_meanwhile current)) context_conflict)
      (Ensures-reads IsLogged (get_item id))
      (λ current. record { at = λ w u h e. ended_now current w u h.1 e })
  where
    ended_now :
        (current : Option ContextItem) (w : World) (u : Unit {0})
        → get_item id w.db ≡ current
        → (raise_if (not (ended_meanwhile current)) context_conflict w).0 ≡ ok u
        → IsEnded id (raise_if (not (ended_meanwhile current)) context_conflict w).1.db
    ended_now none w u found e = absurd (cc)
    ended_now (some x) w u found e = elim (Bool-cases (x.status == ContextStatus.active)) [
      | inl going ↦ absurd (let e' = rw going at e in cc)
      | inr over ↦ rw over (x, found, over)
    ]

module _ (s : Stamps) (i : RequestIdentity) where
  pub expire_item-Ensures :
      (item : ContextItem) (turn_id : Option String) (reason : String)
      → Ensures IsLogged (λ _ db. IsEnded item.id db) (expire_item s item i turn_id reason)
  unfolding expire_item
  expire_item-Ensures item turn_id reason =
      Ensures-skip IsLogged (λ _ db. IsEnded item.id db) (new_source s i turn_id) _
        (new_source-Keeps IsLogged s i turn_id)
        (λ source.
          Ensures-catch IsLogged (λ _ db. IsEnded item.id db)
            (expire s item.id (owner_of i) source Authority.system (some reason) >>= λ _. pure tt)
            (after_conflict item.id)
            (Keeps-bind IsLogged
              (expire s item.id (owner_of i) source Authority.system (some reason)) _
              (expire-Keeps IsLogged s (owner_of i) (IsLogged-Expirer (owner_of i)) item.id source
                Authority.system (some reason))
              (λ _. Keeps-pure IsLogged tt))
            (Ensures-bind IsLogged (λ r db. IsEnded item.id db) (λ _ db. IsEnded item.id db)
              (expire s item.id (owner_of i) source Authority.system (some reason)) _
              (expire-Ensures s item.id (owner_of i) source Authority.system (some reason))
              (λ r. record { at = λ w u h e. h }))
            (after_conflict-Ensures item.id))
