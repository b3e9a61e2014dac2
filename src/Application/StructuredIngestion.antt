-- ===== src/Application/StructuredIngestion.antt =====
-- application/structured_ingestion.py: the translation of a client's assertion into a context item.
-- The fingerprint of a request, a SHA-256 of its JSON text, is a parameter.
pub mod Keeps
pub mod Checks
pub mod Outcome
use ctx_ttl_oss.Prelude.{
  ℕ, String, Bool, true, false, not, ◌&&◌, ◌||◌, Option, none, some, ◌==◌, nat_eq, string_eq,
  option_eq, list_eq, leb, if◌then◌else◌, is_some, is_none, value_error, structured_ingestion_error,
  Result, ok, err,
}
use ctx_ttl_oss.Models.Dimensions.{
  ContextKind, ContextScope, Retention, ContextApplicability, Authority, ContextStatus, kind_eq,
  scope_eq, retention_eq, applicability_eq, authority_eq, status_eq, event_type_eq,
}
use ctx_ttl_oss.Models.Context.{ContextOwner, SourceRef, ContextItem}
use ctx_ttl_oss.Json.{Json, Fields}
use ctx_ttl_oss.Storage.Store.{ApplyResult, IdempotencyRequest}
use ctx_ttl_oss.Application.Service.{
  Stamps, Act, ◌>>=◌, ◌>>◌, pure, raise_if, lift, new_id, utc_now,
}
use ctx_ttl_oss.Application.ContextState.{assert_item, supersede}
use ctx_ttl_oss.Identity.{RequestIdentity, owner_of}
use ctx_ttl_oss.Application.ContextManagement.{or_option, both_differ, new_source}
use ctx_ttl_oss.Models.Context.{construct_item, positive}
use Prim.Native.String.{count, ◌++◌ as ◌+++◌}

pub record StructuredContextInput : Type 0 where
  pub kind : ContextKind
  pub scope : ContextScope
  pub applicability : Option ContextApplicability
  pub subject : String
  pub value : Json
  pub priority : ℕ
  pub confidence : ℕ
  pub turn_id : Option String
  pub supersedes : Option String
  pub reason : Option String
  pub metadata : Fields
  pub expires_at : Option ℕ
  pub ttl_turns : Option ℕ

-- `_ALLOWED_KINDS`; `_ALLOWED_SCOPES` has every scope
abbrev pub allowed_kind : ContextKind → Bool
allowed_kind k =
    k == ContextKind.fact
    || k == ContextKind.decision
    || k == ContextKind.constraint
    || k == ContextKind.task_state

abbrev pub is_current_turn : Option ContextApplicability → Bool
is_current_turn none = false
is_current_turn (some a) = a == ContextApplicability.current_turn

abbrev pub leased_input : StructuredContextInput → Bool
leased_input r = is_some r.expires_at || is_some r.ttl_turns

-- `validate_supported_dimensions`
unfoldable pub validate_supported_dimensions : StructuredContextInput → Result (Unit {0})
validate_supported_dimensions r =
    if not (allowed_kind r.kind)
      || is_some r.expires_at && is_some r.ttl_turns
      || is_current_turn r.applicability && not (r.scope == ContextScope.turn)
      || is_current_turn r.applicability && leased_input r
      || r.scope == ContextScope.turn
        && is_some r.applicability
        && not (is_current_turn r.applicability)
    then err value_error
    else ok tt

abbrev pub text_bounds : ℕ → ℕ → String → Bool
text_bounds least most t = leb least (count t) && leb (count t) most

abbrev pub option_bounds : ℕ → ℕ → Option String → Bool
option_bounds least most none = true
option_bounds least most (some t) = text_bounds least most t

-- the bounds of the fields
unfoldable pub fields_fit : StructuredContextInput → Bool
fields_fit r =
    text_bounds 1 256 r.subject
    && leb r.priority 1000000
    && leb r.confidence 1000000
    && option_bounds 1 128 r.turn_id
    && option_bounds 1 128 r.supersedes
    && option_bounds 0 1000 r.reason
    && positive r.ttl_turns

-- `StructuredContextInput(...)`
unfoldable pub construct_structured : StructuredContextInput → Result StructuredContextInput
unfolding validate_supported_dimensions fields_fit
construct_structured r =
    if fields_fit r
    then elim (validate_supported_dimensions r) [ ok _ ↦ ok r | err e ↦ err e ]
    else err value_error

-- `_effective_turn_id`
unfoldable pub ingested_turn : Option String → RequestIdentity → Act (Option String)
ingested_turn requested i = do
  raise_if (both_differ i.turn_id requested) structured_ingestion_error
  pure (or_option i.turn_id requested)

-- the coordinate that a scope wants
abbrev pub lacks_coordinate : ContextScope → ContextOwner → Option String → Bool
lacks_coordinate ContextScope.turn owner turn_id = is_none turn_id
lacks_coordinate ContextScope.session owner turn_id = false
lacks_coordinate ContextScope.task owner turn_id = is_none owner.task_id
lacks_coordinate ContextScope.agent owner turn_id = is_none owner.agent_id
lacks_coordinate ContextScope.project owner turn_id = is_none owner.project_id
lacks_coordinate ContextScope.user owner turn_id = is_none owner.user_id

-- `_validate_identity_for_scope`
unfoldable pub validate_identity_for_scope :
    ContextScope → ContextOwner → Option String → Act (Unit {0})
validate_identity_for_scope scope owner turn_id =
    raise_if (lacks_coordinate scope owner turn_id) structured_ingestion_error

-- `request.applicability or (...)`
abbrev pub default_applicability : Option ContextApplicability → ContextScope → ContextApplicability
default_applicability (some a) scope = a
default_applicability none scope =
    if scope == ContextScope.turn
    then ContextApplicability.current_turn
    else ContextApplicability.selective

abbrev pub chosen_retention : ContextApplicability → StructuredContextInput → Retention
chosen_retention a r =
    if a == ContextApplicability.current_turn
    then Retention.ephemeral
    else if leased_input r
    then Retention.leased
    else Retention.persistent

abbrev pub ingested_item :
    StructuredContextInput → ContextOwner → SourceRef → String → ℕ → ContextItem
ingested_item r owner source id created_at =
    let applicability = default_applicability r.applicability r.scope in
    record {
      id = "ctx_" +++ id;
      kind = r.kind;
      scope = r.scope;
      retention = chosen_retention applicability r;
      applicability = applicability;
      authority = Authority.explicit_user;
      status = ContextStatus.active;
      subject = some r.subject;
      value = r.value;
      priority = r.priority;
      confidence = r.confidence;
      created_at = created_at;
      owner = owner;
      source = source;
      source_event_id = none;
      supersedes = none;
      token_cost = none;
      ttl_turns = r.ttl_turns;
      expires_at = r.expires_at;
      metadata = r.metadata;
    }

abbrev pub with_turn : StructuredContextInput → Option String → StructuredContextInput
with_turn r turn_id = record r { turn_id = turn_id }

module _ (fingerprint : RequestIdentity → StructuredContextInput → String) where
  -- `_idempotency`
  unfoldable pub idempotency_of :
      StructuredContextInput → RequestIdentity → Option String → Option IdempotencyRequest
  idempotency_of r i none = none
  idempotency_of r i (some request_id) =
      let turn_id = or_option i.turn_id r.turn_id in
      some (record {
        session_id = i.session_id;
        request_id = request_id;
        request_fingerprint = fingerprint (record i { turn_id = turn_id }) (with_turn r turn_id);
        operation = "context.ingest";
      })

module _ (s : Stamps) where
  -- the item of `ingest`
  unfoldable pub build_item : StructuredContextInput → RequestIdentity → Act ContextItem
  build_item r i = do
    turn_id ← ingested_turn r.turn_id i
    validate_identity_for_scope r.scope (owner_of i) turn_id
    raise_if (is_some r.ttl_turns && is_none turn_id) structured_ingestion_error
    source ← new_source s i turn_id
    id ← new_id s
    created_at ← utc_now s
    lift (construct_item (ingested_item r (owner_of i) source id created_at))

  abbrev pub submit :
      Option String → ContextItem → Option String → Option IdempotencyRequest → Act ApplyResult
  submit none item reason q = assert_item s item reason q
  submit (some target) item reason q = supersede s target item reason q

  unfoldable pub ingest :
      (RequestIdentity → StructuredContextInput → String)
      → StructuredContextInput
      → RequestIdentity
      → Option String
      → Act ApplyResult
  ingest fingerprint r i request_id = do
    item ← build_item r i
    submit r.supersedes item r.reason (idempotency_of fingerprint r i request_id)
