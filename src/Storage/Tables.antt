-- ===== src/Storage/Tables.antt =====
-- storage/sqlite/schema.py: the tables that hold context state, after all migrations. A row keeps
-- the value that its JSON column holds; the columns that repeat fields of it are not kept twice.
use ctx_ttl_oss.Prelude.{ℕ, String, Option, List, [], nat_eq, string_eq, option_eq, list_eq}
use ctx_ttl_oss.Models.Dimensions.{
  ContextScope, kind_eq, scope_eq, retention_eq, applicability_eq, authority_eq, status_eq,
  event_type_eq,
}
use ctx_ttl_oss.Models.Context.{ContextItem, OwnerKey}
use ctx_ttl_oss.Models.Event.{ContextEvent}

pub record EventRow : Type 0 where
  pub event : ContextEvent
  pub item_id : Option String

-- the columns `status`, `source_event_id` and `supersedes` are those of the item
pub record ItemRow : Type 0 where
  pub owner_key : OwnerKey
  pub item : ContextItem

pub record Assertion : Type 0 where
  pub context_item_id : String
  pub owner_key : OwnerKey
  pub scope : ContextScope
  pub subject : String

pub record TurnObservation : Type 0 where
  pub owner_key : OwnerKey
  pub session_id : String
  pub turn_id : String

pub record TurnLease : Type 0 where
  pub context_item_id : String
  pub owner_key : OwnerKey
  pub ttl_turns : ℕ
  pub consumed_turns : ℕ

pub record MutationRequest : Type 0 where
  pub session_id : String
  pub request_id : String
  pub operation : String
  pub request_fingerprint : String
  pub event : ContextEvent
  pub item : Option ContextItem

-- Events stand in the order of their rowid; a new row of another table stands first.
pub record Db : Type 0 where
  pub events : List EventRow
  pub context_items : List ItemRow
  pub state_assertions : List Assertion
  pub turn_observations : List TurnObservation
  pub context_turn_leases : List TurnLease
  pub mutation_requests : List MutationRequest

abbrev pub empty_db : Db
empty_db = record {
  events = [];
  context_items = [];
  state_assertions = [];
  turn_observations = [];
  context_turn_leases = [];
  mutation_requests = [];
}
