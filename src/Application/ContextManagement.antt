-- ===== src/Application/ContextManagement.antt =====
-- application/context_management.py: `ContextManagementService`, the queries and lifecycle
-- operations that a request may run on the context that it reaches.
pub mod Keeps
pub mod Hidden
pub mod Expiry
pub mod Fresh
pub mod Missed
pub mod Listed
use ctx_ttl_oss.Compiler.Compile.Tests.{request}
use ctx_ttl_oss.Prelude.{
  ℕ, zero, suc, ◌+◌, ◌-◌, ◌*◌, ◌/◌, ◌%◌, ◌≤◌, ◌<◌, String, ◌≡◌, refl, sym, ap, subst, ◌∙◌, ◌≢◌, ◌↔◌,
  ◌⊎◌, inl, inr, Bool, true, false, not, ◌&&◌, ◌||◌, Option, none, some, List, [], ◌∷◌, ◌++◌, map,
  arith, Eq, ◌==◌, ==-refl, texts_iff, optional_iff, nat_eq, string_eq, option_eq, list_eq, nat_beq,
  ltb, leb, if◌then◌else◌, Bool-cases, Option-cases, is_some, is_none, or_else, or_text, Error,
  value_error, runtime_error, assertion_error, type_error, integrity_error, context_conflict,
  context_not_found, event_conflict, request_conflict, protocol_violation, token_budget_exceeded,
  structured_ingestion_error, invalid_identity, missing_session_identity, Result, ok, err, ok_inj,
  length, get_elem?, take, keep, any, all, find, sum_by, count_by, sum_by-append, count_by-append,
  length-append, all-keep, sum_by-split, keep-append, keep-keep, All-append, All, contains,
}
use ctx_ttl_oss.Models.Dimensions.{
  ContextKind, ContextScope, Retention, ContextApplicability, Authority, ContextStatus, EventType,
  kind_eq, scope_eq, retention_eq, applicability_eq, authority_eq, status_eq, event_type_eq,
}
use ctx_ttl_oss.Models.Context.{
  key_for, with_project, ContextOwner, SourceRef, ContextItem, OwnerKey, owner_key, scope_value,
}
use ctx_ttl_oss.Models.Event.{ContextEvent, event_owner_key}
use ctx_ttl_oss.Storage.Store.{
  get_item, ApplyResult, IdempotencyRequest, apply_in_transaction, apply, request_is,
  stored_request, insert_request, apply_and_record, idempotent_in_transaction, apply_idempotent,
}
use ctx_ttl_oss.Storage.Tables.{MutationRequest, Db}
use ctx_ttl_oss.Application.Service.{
  Stamps, World, Act, ◌>>=◌, ◌>>◌, pure, raise, raise_if, lift, reads, commits, draw, new_id,
  utc_now, catch_conflict,
}
use ctx_ttl_oss.Storage.Queries.{
  list_active, list_items, list_events, observe_turn, items_of, created_before, status_fits,
  distinct_from, observed, observe_owner, observe_owners, exhausted_ids,
}
use ctx_ttl_oss.Application.ContextState.{
  validate_new_item, apply_event, required_item, empty_fields, item_event, assert_item, supersede,
  end_lifecycle, retract, expire,
}
use ctx_ttl_oss.Identity.{
  RequestIdentity, owner_of, effective_turn_id, append_key, reachable_owner_keys,
}
use Prim.Native.String.{count}

pub record LifecycleInput : Type 0 where
  pub reason : Option String
  pub turn_id : Option String

-- the bounds on lengths: `max_length=1_000`, and `min_length=1, max_length=128`
abbrev pub at_most : ℕ → Option String → Bool
at_most n none = true
at_most n (some s) = leb (count s) n

abbrev pub is_empty : Option String → Bool
is_empty none = false
is_empty (some s) = s == ""

unfoldable pub construct_input : LifecycleInput → Result LifecycleInput
construct_input r =
    if at_most 1000 r.reason && not (is_empty r.turn_id) && at_most 128 r.turn_id
    then ok r
    else err value_error

-- `identity.turn_id or requested_turn_id`
abbrev pub or_option : Option String → Option String → Option String
or_option none b = b
or_option (some a) b = if a == "" then b else some a

abbrev pub both_differ : Option String → Option String → Bool
both_differ (some a) (some b) = not (a == b)
both_differ _ _ = false

-- `_effective_turn_id`
unfoldable pub effective_turn : RequestIdentity → Option String → Act (Option String)
effective_turn i requested = do
  raise_if (both_differ i.turn_id requested) context_conflict
  pure (or_option i.turn_id requested)

-- `_is_due`
abbrev pub is_due : ContextItem → ℕ → Bool
is_due i now = elim i.expires_at [ none ↦ false | some t ↦ leb t now ]

-- `_required_reachable`
unfoldable pub required_reachable : String → RequestIdentity → Option String → Act ContextItem
required_reachable id i turn_id = do
  item ← required_item id
  key ← lift (owner_key item)
  keys ← lift (reachable_owner_keys i turn_id)
  raise_if (not (contains key keys)) context_not_found
  pure item

abbrev pub ended_meanwhile : Option ContextItem → Bool
ended_meanwhile none = false
ended_meanwhile (some i) = not (i.status == ContextStatus.active)

-- the item that `get_item` reads again; its absence fails an `assert`
abbrev pub refreshed : Option ContextItem → Act ContextItem
refreshed none = raise assertion_error
refreshed (some i) = pure i

abbrev pub keep_unleased : RequestIdentity → List ContextItem → List ContextItem
keep_unleased i items = elim i.turn_id [
  | none ↦ keep (λ item. is_none item.ttl_turns) items
  | some t ↦ items
]

abbrev pub wants_active : Option ContextStatus → Bool
wants_active none = true
wants_active (some s) = s == ContextStatus.active

-- the handler of `_expire_item`
unfoldable pub after_conflict : String → Act (Unit {0})
after_conflict id = do
  current ← reads (get_item id)
  raise_if (not (ended_meanwhile current)) context_conflict

-- `observe_turn` of the store as a call
abbrev pub observe : List OwnerKey → String → String → Act (List String)
observe owner_keys session_id turn_id =
    commits (λ db. let (ids, db') = observe_turn owner_keys session_id turn_id db in (ok ids, db'))

module _ (s : Stamps) where
  -- `SourceRef(session_id=..., turn_id=...)`
  unfoldable pub new_source : RequestIdentity → Option String → Act SourceRef
  new_source i turn_id = do
    timestamp ← utc_now s
    pure (record {
      session_id = i.session_id;
      turn_id = turn_id;
      tool_call_id = none;
      document_id = none;
      timestamp = timestamp;
    })

  -- `_expire_item`
  unfoldable pub expire_item :
      ContextItem → RequestIdentity → Option String → String → Act (Unit {0})
  expire_item item i turn_id reason = do
    source ← new_source i turn_id
    catch_conflict
        (expire s item.id (owner_of i) source Authority.system (some reason) >>= λ _. pure tt)
        (after_conflict item.id)

  -- the loop of `_expire_due`
  unfoldable pub expire_all :
      ℕ → RequestIdentity → Option String → List ContextItem → Act (Unit {0})
  expire_all now i turn_id [] = pure tt
  expire_all now i turn_id (item ∷ items) = do
    (if is_due item now then expire_item item i turn_id "expires_at elapsed" else pure tt)
    expire_all now i turn_id items

  -- `_expire_due`
  unfoldable pub expire_due : RequestIdentity → List OwnerKey → Option String → Act (Unit {0})
  expire_due i owner_keys turn_id = do
    now ← utc_now s
    active ← reads (list_active owner_keys)
    expire_all now i turn_id active

  unfoldable pub list_items_of :
      RequestIdentity → Option ContextStatus → ℕ → Option String → Act (List ContextItem)
  list_items_of i status limit turn_id = do
    effective ← effective_turn i turn_id
    owner_keys ← lift (reachable_owner_keys i effective)
    (if wants_active status then expire_due i owner_keys effective else pure tt)
    commits (λ db. (list_items owner_keys status limit db, db))

  unfoldable pub list_active_of : RequestIdentity → Option String → Act (List ContextItem)
  list_active_of i turn_id = do
    effective ← effective_turn i turn_id
    owner_keys ← lift (reachable_owner_keys i effective)
    expire_due i owner_keys effective
    reads (list_active owner_keys)

  -- the loop of `list_for_compilation` over the exhausted leases
  unfoldable pub expire_exhausted : RequestIdentity → String → List String → Act (Unit {0})
  expire_exhausted i turn_id [] = pure tt
  expire_exhausted i turn_id (id ∷ ids) = do
    found ← reads (get_item id)
    (elim found [
      | none ↦ pure tt
      | some item ↦
          if item.status == ContextStatus.active
          then expire_item item i (some turn_id) "ttl_turns exhausted"
          else pure tt
    ])
    expire_exhausted i turn_id ids

  unfoldable pub advance_turn : RequestIdentity → List OwnerKey → Option String → Act (Unit {0})
  advance_turn i owner_keys none = pure tt
  advance_turn i owner_keys (some turn_id) = do
    exhausted ← observe owner_keys i.session_id turn_id
    expire_exhausted i turn_id exhausted

  unfoldable pub list_for_compilation : RequestIdentity → Act (List ContextItem)
  list_for_compilation i = do
    owner_keys ← lift (reachable_owner_keys i none)
    advance_turn i owner_keys i.turn_id
    expire_due i owner_keys i.turn_id
    active ← reads (list_active owner_keys)
    pure (keep_unleased i active)

  abbrev pub read_again : String → Act ContextItem
  read_again id = do found ← reads (get_item id); refreshed found

  -- the test of `get_item`: the time is read only for an active item
  unfoldable pub is_due_now : ContextItem → Act Bool
  is_due_now item =
      if item.status == ContextStatus.active
      then (do now ← utc_now s; pure (is_due item now))
      else pure false

  unfoldable pub get_item_of : String → RequestIdentity → Option String → Act ContextItem
  get_item_of id i turn_id = do
    effective ← effective_turn i turn_id
    item ← required_reachable id i effective
    due ← is_due_now item
    (if due
        then (do expire_item item i effective "expires_at elapsed"; read_again id)
        else pure item)

  unfoldable pub retract_of : String → RequestIdentity → LifecycleInput → Act ApplyResult
  retract_of id i request = do
    turn_id ← effective_turn i request.turn_id
    item ← required_reachable id i turn_id
    source ← new_source i turn_id
    retract s item.id (owner_of i) source Authority.explicit_user request.reason

  unfoldable pub expire_of : String → RequestIdentity → LifecycleInput → Act ApplyResult
  expire_of id i request = do
    turn_id ← effective_turn i request.turn_id
    item ← required_reachable id i turn_id
    source ← new_source i turn_id
    expire s item.id (owner_of i) source Authority.explicit_user request.reason
