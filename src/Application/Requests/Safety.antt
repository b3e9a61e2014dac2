-- ===== src/Application/Requests/Safety.antt =====
-- What every sequence of requests keeps of the store.
use ctx_ttl_oss.Storage.Store.Logged.{
  apply-IsLogged, apply_idempotent-IsLogged, observe_turn-IsLogged,
}
use ctx_ttl_oss.Storage.Store.Ended.{IsLogged}
use ctx_ttl_oss.Storage.Store.Stored.{IsStored}
use ctx_ttl_oss.Storage.Runs.{run}
use ctx_ttl_oss.Storage.Store.Frame.{
  IsForeign, IsBeyond, apply-frame, apply_idempotent-frame, observe_turn-IsStored,
}
use ctx_ttl_oss.Storage.Store.{get_item}
use ctx_ttl_oss.Storage.Runs.{is_live_at, observe_turn-IsConsistent, one_live_item}
use ctx_ttl_oss.Storage.Store.Invariant.{apply-IsConsistent, apply_idempotent-IsConsistent}
use ctx_ttl_oss.Storage.Store.Consistent.{IsConsistent}
use ctx_ttl_oss.Models.Context.{ContextOwner, ContextItem, OwnerKey, owner_key}
use ctx_ttl_oss.Application.StructuredIngestion.Keeps.{ingest-Keeps}
use ctx_ttl_oss.Application.ContextManagement.Keeps.{
  list_items_of-Keeps, list_active_of-Keeps, list_for_compilation-Keeps, get_item_of-Keeps,
  retract_of-Keeps, expire_of-Keeps,
}
use ctx_ttl_oss.Application.Service.Keeps.{Keeps, Keeper, keeps_rules}
use ctx_ttl_oss.Application.StructuredIngestion.{StructuredContextInput}
use ctx_ttl_oss.Application.Requests.{
  Request, identity_of, serve, serve_all, ingested, items_listed, active_listed, compiled,
  item_read, item_retracted, item_expired,
}
use ctx_ttl_oss.Application.Service.{Stamps, World}
use ctx_ttl_oss.Storage.Tables.{Db}
use ctx_ttl_oss.Identity.{RequestIdentity, owner_of}
use ctx_ttl_oss.Prelude.{
  String, List, [], ◌∷◌, nat_eq, string_eq, option_eq, list_eq, All, ◌≤◌, ◌≡◌, sym, subst, inl, inr,
  false, some, ◌==◌, ok, count_by,
}
use ctx_ttl_oss.Models.Dimensions.{
  kind_eq, scope_eq, retention_eq, applicability_eq, authority_eq, status_eq, event_type_eq,
  ContextScope, ContextStatus,
}

module _ (s : Stamps) (fingerprint : RequestIdentity → StructuredContextInput → String)
    (P : Db → Type 0) where
  pub serve-Keeps :
      (r : Request) → Keeper P (owner_of (identity_of r)) → Keeps P (serve s fingerprint r)
  unfolding serve
  serve-Keeps (ingested r i request_id) k = search (keeps_rules, ingest-Keeps) depth 12
  serve-Keeps (items_listed i status limit turn_id) k =
      search (keeps_rules, list_items_of-Keeps) depth 12
  serve-Keeps (active_listed i turn_id) k = search (keeps_rules, list_active_of-Keeps) depth 12
  serve-Keeps (compiled i) k = search (keeps_rules, list_for_compilation-Keeps) depth 12
  serve-Keeps (item_read id i turn_id) k = search (keeps_rules, get_item_of-Keeps) depth 12
  serve-Keeps (item_retracted id i r) k = search (keeps_rules, retract_of-Keeps) depth 12
  serve-Keeps (item_expired id i r) k = search (keeps_rules, expire_of-Keeps) depth 12

  pub serve_all-keeps :
      (rs : List Request) (w : World)
      → All (λ r. Keeper P (owner_of (identity_of r))) rs
      → P w.db
      → P (serve_all s fingerprint rs w).db
  unfolding serve_all
  serve_all-keeps [] w k h = h
  serve_all-keeps (r ∷ rs) w k h =
      serve_all-keeps rs (serve s fingerprint r w).1 k.1 ((serve-Keeps r k.0).at w h)

module _ (s : Stamps) (fingerprint : RequestIdentity → StructuredContextInput → String) where
  IsConsistent-Keeper : (o : ContextOwner) → Keeper IsConsistent o
  IsConsistent-Keeper o = record {
    applies = λ e item db _ c. apply-IsConsistent e item db c;
    repeats = λ e item q db _ c. apply_idempotent-IsConsistent e item q db c;
    observes =
        λ keys session_id turn_id db c. observe_turn-IsConsistent keys session_id turn_id db c;
  }

  pub IsConsistent-keepers :
      (rs : List Request) → All (λ r. Keeper IsConsistent (owner_of (identity_of r))) rs
  IsConsistent-keepers [] = tt
  IsConsistent-keepers (r ∷ rs) =
      (IsConsistent-Keeper (owner_of (identity_of r)), IsConsistent-keepers rs)

  -- After any list of requests to the services, served one after the other on a consistent database,
  -- whether they return or raise, at most one active item has a given owner key, scope and subject.
  pub requests_keep_one_live :
      (rs : List Request) (w : World) (key : OwnerKey) (scope : ContextScope) (subject : String)
      → IsConsistent w.db
      → count_by (is_live_at key scope subject) (serve_all s fingerprint rs w).db.context_items ≤ 1
  unfolding run
  requests_keep_one_live rs w key scope subject c =
      one_live_item [] (serve_all s fingerprint rs w).db key scope subject
        (serve_all-keeps s fingerprint IsConsistent rs w (IsConsistent-keepers rs) c)

  IsStored-Keeper :
      (o : ContextOwner) (j : String) (item : ContextItem)
      → IsBeyond o item
      → Keeper (IsStored j item) o
  IsStored-Keeper o j item beyond = record {
    applies = λ e new db own h.
        apply-frame e new j item db (subst (λ x. IsBeyond x item) (sym own) beyond) h;
    repeats = λ e new q db own h.
        apply_idempotent-frame e new q j item db (subst (λ x. IsBeyond x item) (sym own) beyond) h;
    observes =
        λ keys session_id turn_id db h. observe_turn-IsStored keys session_id turn_id j item db h;
  }

  IsStored-keepers :
      (rs : List Request) (j : String) (item : ContextItem)
      → All (λ r. IsBeyond (owner_of (identity_of r)) item) rs
      → All (λ r. Keeper (IsStored j item) (owner_of (identity_of r))) rs
  IsStored-keepers [] j item beyond = tt
  IsStored-keepers (r ∷ rs) j item beyond = (
    IsStored-Keeper (owner_of (identity_of r)) j item beyond.0,
    IsStored-keepers rs j item beyond.1,
  )

  -- An item with an owner key that none of the requesting identities has, for any scope and turn, is
  -- the same after the requests as before, whether they return or raise.
  pub requests_isolated :
      (rs : List Request) (w : World) (j : String) (item : ContextItem) (key : OwnerKey)
      → owner_key item ≡ ok key
      → All (λ r. IsForeign (owner_of (identity_of r)) key) rs
      → get_item j w.db ≡ some item
      → get_item j (serve_all s fingerprint rs w).db ≡ some item
  requests_isolated rs w j item key keyed foreign h =
      serve_all-keeps s fingerprint (IsStored j item) rs w
        (IsStored-keepers rs j item (beyond rs foreign)) h
    where
      beyond :
          (rs : List Request)
          → All (λ r. IsForeign (owner_of (identity_of r)) key) rs
          → All (λ r. IsBeyond (owner_of (identity_of r)) item) rs
      beyond [] foreign = tt
      beyond (r ∷ rs) foreign = (inr (key, keyed, foreign.0), beyond rs foreign.1)

  -- An item that is no longer active is never changed again by any requests: a lifecycle ends once.
  pub requests_never_revive :
      (rs : List Request) (w : World) (j : String) (item : ContextItem)
      → (item.status == ContextStatus.active) ≡ false
      → get_item j w.db ≡ some item
      → get_item j (serve_all s fingerprint rs w).db ≡ some item
  requests_never_revive rs w j item ended h =
      serve_all-keeps s fingerprint (IsStored j item) rs w (IsStored-keepers rs j item (beyond rs))
        h
    where
      beyond : (rs : List Request) → All (λ r. IsBeyond (owner_of (identity_of r)) item) rs
      beyond [] = tt
      beyond (r ∷ rs) = (inl ended, beyond rs)

  IsLogged-Keeper : (o : ContextOwner) → Keeper IsLogged o
  IsLogged-Keeper o = record {
    applies = λ e item db _ h. apply-IsLogged e item db h;
    repeats = λ e item q db _ h. apply_idempotent-IsLogged e item q db h;
    observes = λ keys session_id turn_id db h. observe_turn-IsLogged keys session_id turn_id db h;
  }

  IsLogged-keepers : (rs : List Request) → All (λ r. Keeper IsLogged (owner_of (identity_of r))) rs
  IsLogged-keepers [] = tt
  IsLogged-keepers (r ∷ rs) = (IsLogged-Keeper (owner_of (identity_of r)), IsLogged-keepers rs)

  -- After any list of requests on a store whose log agrees with its items, whether they return or
  -- raise, every supersession, retraction and expiry in the log names an item that the store has and
  -- that is not active.
  pub requests_keep_log :
      (rs : List Request) (w : World) → IsLogged w.db → IsLogged (serve_all s fingerprint rs w).db
  requests_keep_log rs w h = serve_all-keeps s fingerprint IsLogged rs w (IsLogged-keepers rs) h
