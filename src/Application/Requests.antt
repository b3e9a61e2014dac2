-- ===== src/Application/Requests.antt =====
-- The requests that api/app.py hands to the ingestion and to the context management, and sequences
-- of them. A request's body is validated before the service runs.
pub mod Safety
pub mod Tests
use ctx_ttl_oss.Application.ContextManagement.{
  LifecycleInput, construct_input, list_items_of, list_active_of, list_for_compilation, get_item_of,
  retract_of, expire_of,
}
use ctx_ttl_oss.Application.StructuredIngestion.{
  StructuredContextInput, construct_structured, ingest,
}
use ctx_ttl_oss.Application.Service.{pure, lift, Stamps, World, Act, ◌>>=◌, ◌>>◌}
use ctx_ttl_oss.Storage.Store.{ApplyResult}
use ctx_ttl_oss.Identity.{RequestIdentity}
use ctx_ttl_oss.Models.Context.{ContextItem}
use ctx_ttl_oss.Prelude.{ℕ, String, Option, List, [], ◌∷◌, nat_eq, string_eq, option_eq, list_eq}
use ctx_ttl_oss.Models.Dimensions.{
  ContextStatus, kind_eq, scope_eq, retention_eq, applicability_eq, authority_eq, status_eq,
  event_type_eq,
}

pub data Request : Type 0 where
  ingested : StructuredContextInput → RequestIdentity → Option String → Request
  items_listed : RequestIdentity → Option ContextStatus → ℕ → Option String → Request
  active_listed : RequestIdentity → Option String → Request
  compiled : RequestIdentity → Request
  item_read : String → RequestIdentity → Option String → Request
  item_retracted : String → RequestIdentity → LifecycleInput → Request
  item_expired : String → RequestIdentity → LifecycleInput → Request

pub data Reply : Type 0 where
  items_found : List ContextItem → Reply
  item_found : ContextItem → Reply
  mutated : ApplyResult → Reply

abbrev pub identity_of : Request → RequestIdentity
identity_of (ingested r i request_id) = i
identity_of (items_listed i status limit turn_id) = i
identity_of (active_listed i turn_id) = i
identity_of (compiled i) = i
identity_of (item_read id i turn_id) = i
identity_of (item_retracted id i r) = i
identity_of (item_expired id i r) = i

module _ (s : Stamps) (fingerprint : RequestIdentity → StructuredContextInput → String) where
  unfoldable pub serve : Request → Act Reply
  serve (ingested r i request_id) = do
    valid ← lift (construct_structured r)
    result ← ingest s fingerprint valid i request_id
    pure (mutated result)
  serve (items_listed i status limit turn_id) = do
    items ← list_items_of s i status limit turn_id
    pure (items_found items)
  serve (active_listed i turn_id) = do items ← list_active_of s i turn_id; pure (items_found items)
  serve (compiled i) = do items ← list_for_compilation s i; pure (items_found items)
  serve (item_read id i turn_id) = do item ← get_item_of s id i turn_id; pure (item_found item)
  serve (item_retracted id i r) = do
    valid ← lift (construct_input r)
    result ← retract_of s id i valid
    pure (mutated result)
  serve (item_expired id i r) = do
    valid ← lift (construct_input r)
    result ← expire_of s id i valid
    pure (mutated result)

  unfoldable pub serve_all : List Request → World → World
  unfolding serve
  serve_all [] w = w
  serve_all (r ∷ rs) w = serve_all rs (serve r w).1
