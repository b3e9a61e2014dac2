-- ===== src/Application/StructuredIngestion/Outcome.antt =====
-- What an accepted body of an ingestion becomes: the item, or an error of the item's own checks.
use ctx_ttl_oss.Application.StructuredIngestion.Checks.{constructed, accepted, dimension_parts}
use ctx_ttl_oss.Application.ContextManagement.{or_option, both_differ, new_source}
use ctx_ttl_oss.Application.Service.{Stamps, World, Act, resume}
use ctx_ttl_oss.Identity.{RequestIdentity, owner_of}
use ctx_ttl_oss.Application.StructuredIngestion.{
  lacks_coordinate, StructuredContextInput, construct_structured, leased_input, ingested_item,
  ingested_turn, validate_identity_for_scope, build_item, ingest, allowed_kind, is_current_turn,
  validate_supported_dimensions, fields_fit, default_applicability, chosen_retention,
}
use ctx_ttl_oss.Models.Context.{ContextItem, SourceRef, expires_early}
use ctx_ttl_oss.Models.Dimensions.{
  ContextScope, kind_eq, scope_eq, retention_eq, applicability_eq, authority_eq, status_eq,
  event_type_eq, Retention, ContextApplicability, Authority, ContextStatus,
}
use ctx_ttl_oss.Prelude.{
  String, ◌≡◌, refl, true, false, ◌||◌, Option, none, nat_eq, string_eq, option_eq, list_eq,
  if◌then◌else◌, is_none, Error, ok, err, ◌&&◌, arith, ◌==◌, is_some, value_error, ◌∙◌, Result, suc,
  ap, ◌⊎◌, inl, inr, Bool, not, some, Bool-cases,
}

abbrev pub or_selective : Option ContextApplicability → ContextApplicability
or_selective none = ContextApplicability.selective
or_selective (some a) = a

-- what an accepted body and an identity say of the item
pub record IsIngested (r : StructuredContextInput) (i : RequestIdentity) (item : ContextItem)
    : Type 0 where
  pub is_active : item.status ≡ ContextStatus.active
  pub of_user : item.authority ≡ Authority.explicit_user
  pub of_kind : item.kind ≡ r.kind
  pub in_scope : item.scope ≡ r.scope
  pub about : item.subject ≡ some r.subject
  pub says : item.value ≡ r.value
  pub ranked : (item.priority ≡ r.priority) × (item.confidence ≡ r.confidence)
  pub annotated : item.metadata ≡ r.metadata
  pub until : (item.expires_at ≡ r.expires_at) × (item.ttl_turns ≡ r.ttl_turns)
  pub replaces_nothing : item.supersedes ≡ none
  pub of_session : (item.owner.session_id ≡ i.session_id) × (item.source.session_id ≡ i.session_id)
  pub of_turn : item.source.turn_id ≡ or_option i.turn_id r.turn_id
  pub owned_by : (item.owner.user_id ≡ i.user_id) × (item.owner.task_id ≡ i.task_id)
  pub owned_in : (item.owner.agent_id ≡ i.agent_id) × (item.owner.project_id ≡ i.project_id)
  pub applied : item.applicability ≡ (
      if r.scope == ContextScope.turn
      then ContextApplicability.current_turn
      else or_selective r.applicability)
  pub retained : item.retention ≡ (
      if r.scope == ContextScope.turn
      then Retention.ephemeral
      else if is_some r.expires_at || is_some r.ttl_turns
      then Retention.leased
      else Retention.persistent)

applied_as :
    (a : Option ContextApplicability) (scope : ContextScope)
    → ((scope == ContextScope.turn) && is_some a && not (is_current_turn a)) ≡ false
    → default_applicability a scope
      ≡ (if scope == ContextScope.turn then ContextApplicability.current_turn else or_selective a)
applied_as none scope h = refl
applied_as (some ContextApplicability.current_turn) scope h = ground arith
applied_as (some ContextApplicability.selective) scope h = ground arith
applied_as (some ContextApplicability.required) scope h = ground arith

retained_as :
    (r : StructuredContextInput) (t leased : Bool) (a : Option ContextApplicability)
    → (is_current_turn a && not t) ≡ false
    → leased_input r ≡ leased
    → chosen_retention (if t then ContextApplicability.current_turn else or_selective a) r ≡ (
        if t
        then Retention.ephemeral
        else if leased
        then Retention.leased
        else Retention.persistent)
retained_as r true leased a h e = refl
retained_as r false leased none h e = rw e refl
retained_as r false leased (some ContextApplicability.current_turn) h e = absurd (cc)
retained_as r false leased (some ContextApplicability.selective) h e = rw e refl
retained_as r false leased (some ContextApplicability.required) h e = rw e refl

module _ (s : Stamps) where
  abbrev source_at : RequestIdentity → StructuredContextInput → World → SourceRef
  source_at i r w = record {
    session_id = i.session_id;
    turn_id = or_option i.turn_id r.turn_id;
    tool_call_id = none;
    document_id = none;
    timestamp = s.time w.drawn;
  }

  -- the item that `ingest` builds of a body in a world
  abbrev pub item_at : StructuredContextInput → RequestIdentity → World → ContextItem
  item_at r i w =
      ingested_item r (owner_of i) (source_at i r w) (s.uuid (suc w.drawn))
        (s.time (suc (suc w.drawn)))

  item_at-IsIngested :
      (r : StructuredContextInput) (i : RequestIdentity) (w : World)
      → construct_structured r ≡ ok r
      → IsIngested r i (item_at r i w)
  item_at-IsIngested r i w valid =
      let (h, _, l) = dimension_parts r ((accepted r valid).1) in
      let applied = applied_as r.applicability r.scope l in
      record {
        is_active = refl;
        of_user = refl;
        of_kind = refl;
        in_scope = refl;
        about = refl;
        says = refl;
        ranked = (refl, refl);
        annotated = refl;
        until = (refl, refl);
        replaces_nothing = refl;
        of_session = (refl, refl);
        of_turn = refl;
        owned_by = (refl, refl);
        owned_in = (refl, refl);
        applied = applied;
        retained =
            ap (λ a. chosen_retention a r) applied
            ∙ retained_as r (r.scope == ContextScope.turn) (leased_input r) r.applicability h refl;
      }

  built_at :
      (r : StructuredContextInput) (i : RequestIdentity) (w : World)
      → construct_structured r ≡ ok r
      → both_differ i.turn_id r.turn_id ≡ false
      → lacks_coordinate r.scope (owner_of i) (or_option i.turn_id r.turn_id) ≡ false
      → (is_some r.ttl_turns && is_none (or_option i.turn_id r.turn_id)) ≡ false
      → (build_item s r i w).0 ≡ (
          if r.scope == ContextScope.turn && leased_input r
            || expires_early r.expires_at (s.time (suc (suc w.drawn)))
          then err value_error
          else ok (item_at r i w))
  unfolding build_item ingested_turn validate_identity_for_scope new_source
  built_at r i w valid turn coordinate counts =
      rw (turn, coordinate, counts)
        (constructed r (owner_of i) (source_at i r w) (s.uuid (suc w.drawn))
          (s.time (suc (suc w.drawn))) valid refl coordinate)

  -- the body leases the scope of a turn, or has an expiry that is past when the item is made
  abbrev pub is_refused : StructuredContextInput → World → Bool
  is_refused r w =
      r.scope == ContextScope.turn && leased_input r
      || expires_early r.expires_at (s.time (suc (suc w.drawn)))

  -- For an accepted body whose turn does not contradict that of the request, with the coordinate that
  -- its scope wants and a turn where it counts turns, an item is built, unless the body gives a lease
  -- to the scope of a turn or an expiry that is past: then the checks of the item raise ValueError,
  -- which `StructuredIngestionError` is not. The item is active, has the authority of an explicit
  -- user, the coordinates of the request, and the content, scope and lease of the body; it is
  -- ephemeral and for the current turn where its scope is the turn, and otherwise leased just where
  -- the body has a lease.
  pub build_item-outcome :
      (r : StructuredContextInput) (i : RequestIdentity) (w : World)
      → construct_structured r ≡ ok r
      → both_differ i.turn_id r.turn_id ≡ false
      → lacks_coordinate r.scope (owner_of i) (or_option i.turn_id r.turn_id) ≡ false
      → (is_some r.ttl_turns && is_none (or_option i.turn_id r.turn_id)) ≡ false
      → ((is_refused r w ≡ true) × ((build_item s r i w).0 ≡ err value_error))
        ⊎ ((is_refused r w ≡ false)
            × ((item : ContextItem) × ((build_item s r i w).0 ≡ ok item) × IsIngested r i item))
  build_item-outcome r i w valid turn coordinate counts =
      let built = built_at r i w valid turn coordinate counts in
      elim (Bool-cases (is_refused r w)) [
        | inl refused ↦ inl (refused, (rw refused at built))
        | inr fits ↦ inr (fits, (item_at r i w, (rw fits at built), item_at-IsIngested r i w valid))
      ]

resumed_err :
    {A B : Type 0} (p : Result A × World) (f : A → Act B) (e : Error)
    → p.0 ≡ err e
    → (resume p f).0 ≡ err e
resumed_err (ok a, w) f e h = absurd (cc)
resumed_err (err x, w) f e h = cc

turn_lease-accepted :
    (r : StructuredContextInput)
    → fields_fit r ≡ true
    → allowed_kind r.kind ≡ true
    → r.applicability ≡ none
    → (is_some r.expires_at && is_some r.ttl_turns) ≡ false
    → construct_structured r ≡ ok r
unfolding construct_structured validate_supported_dimensions
turn_lease-accepted r fit kind unnamed single = rw (fit, kind, unnamed, single) (ground arith)

-- A body of the scope of a turn, of an allowed kind, with fields within their bounds, one lease and no
-- applicability passes its own validation, yet its ingestion raises ValueError, whatever the
-- fingerprint, where the request or the body names a turn and they do not contradict each other.
pub ingest-turn_lease :
    (s : Stamps) (fingerprint : RequestIdentity → StructuredContextInput → String)
    (r : StructuredContextInput) (i : RequestIdentity) (request_id : Option String) (w : World)
    → fields_fit r ≡ true
    → allowed_kind r.kind ≡ true
    → r.applicability ≡ none
    → (is_some r.expires_at && is_some r.ttl_turns) ≡ false
    → both_differ i.turn_id r.turn_id ≡ false
    → is_none (or_option i.turn_id r.turn_id) ≡ false
    → (r.scope == ContextScope.turn) ≡ true
    → leased_input r ≡ true
    → (construct_structured r ≡ ok r)
      × ((ingest s fingerprint r i request_id w).0 ≡ err value_error)
unfolding ingest
ingest-turn_lease s fingerprint r i request_id w fit kind unnamed single turn known is_turn leased =
    let scope : r.scope ≡ ContextScope.turn =
      (scope_eq.beq_iff r.scope ContextScope.turn).0 is_turn in
    let valid = turn_lease-accepted r fit kind unnamed single in
    (
      valid,
      resumed_err (build_item s r i w) _ value_error
          (built_at s r i w valid turn (rw scope known) (ground arith) ∙ rw (is_turn, leased) refl),
    )
