-- ===== src/Application/StructuredIngestion/Keeps.antt =====
-- An ingestion keeps what the store keeps for the owner of the request.
use ctx_ttl_oss.Application.ContextState.Keeps.{assert_item-Keeps, supersede-Keeps}
use ctx_ttl_oss.Application.Service.Keeps.{
  Keeps, Gives, Keeper, Gives-lift, Gives-bind, Keeps-then, keeps_rules,
}
use ctx_ttl_oss.Application.StructuredIngestion.{
  StructuredContextInput, ingested_turn, validate_identity_for_scope, ingested_item, idempotency_of,
  build_item, submit, ingest,
}
use ctx_ttl_oss.Application.ContextManagement.{new_source}
use ctx_ttl_oss.Application.Service.{lift, Stamps}
use ctx_ttl_oss.Storage.Tables.{Db}
use ctx_ttl_oss.Identity.{RequestIdentity, owner_of}
use ctx_ttl_oss.Models.Context.{
  ContextItem, construct_item, SourceRef, validate_lifecycle, validate_fields,
}
use ctx_ttl_oss.Prelude.{
  ◌≡◌, nat_eq, string_eq, option_eq, list_eq, ok, ℕ, String, sym, ap, Option, none, some, >>=_inv,
  ok_inj,
}
use ctx_ttl_oss.Models.Dimensions.{
  kind_eq, scope_eq, retention_eq, applicability_eq, authority_eq, status_eq, event_type_eq,
}

pub construct_item-kept : (i a : ContextItem) → construct_item i ≡ ok a → a ≡ i
unfolding construct_item
construct_item-kept i a h =
    let (_, _, last) = >>=_inv (validate_fields i) _ h in
    let (_, _, same) = >>=_inv (validate_lifecycle i) (λ _. ok i) last in sym (ok_inj same)

Gives-ingested :
    (r : StructuredContextInput) (i : RequestIdentity) (source : SourceRef) (id : String) (now : ℕ)
    → Gives
        (λ item. item.owner ≡ owner_of i)
        (lift (construct_item (ingested_item r (owner_of i) source id now)))
Gives-ingested r i source id now =
    Gives-lift (λ item. item.owner ≡ owner_of i)
      (construct_item (ingested_item r (owner_of i) source id now))
      (λ a h.
        ap (λ (x : ContextItem). x.owner)
          (construct_item-kept (ingested_item r (owner_of i) source id now) a h))

module _ (s : Stamps) (fingerprint : RequestIdentity → StructuredContextInput → String) where
  build_item-Keeps :
      (P : Db → Type 0) (r : StructuredContextInput) (i : RequestIdentity)
      → Keeps P (build_item s r i)
  unfolding build_item ingested_turn validate_identity_for_scope new_source
  build_item-Keeps P r i = search keeps_rules depth 16

  build_item-Gives :
      (r : StructuredContextInput) (i : RequestIdentity)
      → Gives (λ item. item.owner ≡ owner_of i) (build_item s r i)
  unfolding build_item
  build_item-Gives r i = search (Gives-bind, Gives-ingested) depth 16

  pub ingest-Keeps :
      (P : Db → Type 0) (r : StructuredContextInput) (i : RequestIdentity)
      (request_id : Option String)
      → Keeper P (owner_of i)
      → Keeps P (ingest s fingerprint r i request_id)
  unfolding ingest
  ingest-Keeps P r i request_id k =
      Keeps-then (λ item. item.owner ≡ owner_of i) P (build_item s r i) _ (build_item-Keeps P r i)
        (build_item-Gives r i) (λ item own. submit-Keeps r.supersedes item own)
    where
      submit-Keeps :
          (target : Option String) (item : ContextItem)
          → item.owner ≡ owner_of i
          → Keeps P (submit s target item r.reason (idempotency_of fingerprint r i request_id))
      submit-Keeps none item own = assert_item-Keeps P s (owner_of i) k item r.reason _ own
      submit-Keeps (some target) item own =
          supersede-Keeps P s (owner_of i) k target item r.reason _ own
