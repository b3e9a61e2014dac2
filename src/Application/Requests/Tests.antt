-- ===== src/Application/Requests/Tests.antt =====
-- Requests to the services on small stores, and the theorems at these.
use ctx_ttl_oss.Application.ContextManagement.Listed.{list_active_of-fresh}
use ctx_ttl_oss.Storage.Store.Logged.{IsLogged-empty_db}
use ctx_ttl_oss.Storage.Store.Ended.{IsLogged}
use ctx_ttl_oss.Application.ContextState.{
  assert_item, validate_new_item, apply_event, item_event, required_item, end_lifecycle, expire,
}
use ctx_ttl_oss.Storage.Queries.{list_active}
use ctx_ttl_oss.Storage.Equality.{source_eq}
use ctx_ttl_oss.Models.Event.{event_owner_key, construct_event}
use ctx_ttl_oss.Application.Requests.Safety.{
  requests_keep_one_live, requests_isolated, requests_never_revive, requests_keep_log,
  serve_all-keeps, IsConsistent-keepers,
}
use ctx_ttl_oss.Application.StructuredIngestion.Outcome.{
  item_at, build_item-outcome, ingest-turn_lease, IsIngested, is_refused,
}
use ctx_ttl_oss.Application.ContextManagement.Hidden.{IsHidden, hidden_not_found}
use ctx_ttl_oss.Application.Requests.{
  ingested, active_listed, compiled, item_retracted, Request, serve_all,
}
use ctx_ttl_oss.Application.StructuredIngestion.{
  StructuredContextInput, construct_structured, ingest, build_item, ingested_turn,
  validate_identity_for_scope, idempotency_of, fields_fit,
}
use ctx_ttl_oss.Application.ContextManagement.{
  LifecycleInput, get_item_of, retract_of, expire_of, list_active_of, list_for_compilation,
  new_source, effective_turn, expire_all, expire_due, advance_turn, is_due, expire_item,
}
use ctx_ttl_oss.Application.Service.{Stamps, World}
use ctx_ttl_oss.Storage.Store.Frame.{IsForeign}
use ctx_ttl_oss.Storage.Store.{get_item, apply, apply_idempotent}
use ctx_ttl_oss.Storage.Store.Consistent.{IsConsistent-empty_db, IsConsistent}
use ctx_ttl_oss.Json.{str, end, json_eq}
use ctx_ttl_oss.Storage.Runs.{is_live_at}
use ctx_ttl_oss.Storage.Tables.{ItemRow, empty_db}
use ctx_ttl_oss.Identity.{RequestIdentity, owner_of, reachable_owner_keys}
use ctx_ttl_oss.Models.Context.{
  key_for, ContextItem, owner_key, validate_fields, construct_item, OwnerKey,
}
use ctx_ttl_oss.Prelude.{
  ℕ, zero, suc, ◌+◌, ◌≤◌, String, ◌≡◌, refl, inl, Option, none, some, List, [], ◌∷◌, nat_eq,
  string_eq, option_eq, list_eq, value_error, context_not_found, ok, err, count_by, true, false,
  texts_iff, ok_inj, any, inr, ◌⊎◌,
}
use ctx_ttl_oss.Models.Dimensions.{
  ContextKind, ContextScope, ContextStatus, kind_eq, scope_eq, retention_eq, applicability_eq,
  authority_eq, status_eq, event_type_eq,
}
use Prim.Native.String.{◌++◌ as ◌+++◌}

abbrev numbered : ℕ → String
numbered zero = "0"
numbered (suc n) = "1" +++ numbered n

abbrev stamps : Stamps
stamps = record { uuid = numbered; time = λ n. 100 + n }

abbrev print : RequestIdentity → StructuredContextInput → String
print i r = r.subject

abbrev ann : RequestIdentity
ann = record {
  session_id = "s1";
  user_id = some "ann";
  task_id = some "t1";
  agent_id = none;
  project_id = none;
  turn_id = none;
}

abbrev bob : RequestIdentity
bob = record {
  session_id = "s2";
  user_id = some "bob";
  task_id = some "t1";
  agent_id = none;
  project_id = none;
  turn_id = none;
}

abbrev body : ContextScope → Option String → Option ℕ → StructuredContextInput
body scope turn_id expires_at = record {
  kind = ContextKind.decision;
  scope = scope;
  applicability = none;
  subject = "db";
  value = str "SQLite";
  priority = 700000;
  confidence = 1000000;
  turn_id = turn_id;
  supersedes = none;
  reason = none;
  metadata = end;
  expires_at = expires_at;
  ttl_turns = none;
}

abbrev task_body : StructuredContextInput
task_body = body ContextScope.task none (some 500)

abbrev leased_turn : StructuredContextInput
leased_turn = body ContextScope.turn (some "7") (some 500)

abbrev start : World
start = record { db = empty_db; drawn = 0 }

abbrev traffic : List Request
traffic =
    ingested task_body ann (some "r1")
    ∷ ingested task_body ann none
    ∷ ingested (body ContextScope.session none none) bob none
    ∷ compiled ann
    ∷ active_listed bob none
    ∷ []

abbrev kept_item : ContextItem
kept_item = item_at stamps task_body ann start

-- a store with the item
abbrev stocked : ContextItem → World
stocked i = record {
  db = record empty_db {
    context_items = record { owner_key = "task" ∷ "ann" ∷ "t1" ∷ []; item = i } ∷ [];
  };
  drawn = 9;
}

statuses_served : List ItemRow → List ContextStatus
statuses_served [] = []
statuses_served (r ∷ rows) = r.item.status ∷ statuses_served rows

-- the second ingestion of the subject is refused, the one of the other user is not
traffic-served :
    statuses_served (serve_all stamps print traffic start).db.context_items
    ≡ ContextStatus.active ∷ ContextStatus.active ∷ []
unfolding serve_all statuses_served ingest build_item ingested_turn validate_identity_for_scope
    new_source assert_item validate_new_item item_event construct_event apply_event construct_item
    idempotency_of event_owner_key owner_key source_eq json_eq construct_structured list_active_of
    list_for_compilation effective_turn expire_due expire_all advance_turn reachable_owner_keys
    apply apply_idempotent validate_fields list_active
traffic-served = refl

task_body-accepted : construct_structured task_body ≡ ok task_body
unfolding construct_structured
task_body-accepted = refl

leased_turn-fields_fit : fields_fit leased_turn ≡ true
unfolding fields_fit
leased_turn-fields_fit = refl

build_item-outcome_example :
    ((is_refused stamps task_body start ≡ true)
      × ((build_item stamps task_body ann start).0 ≡ err value_error))
    ⊎ ((is_refused stamps task_body start ≡ false)
        × ((item : ContextItem) × ((build_item stamps task_body ann start).0 ≡ ok item)
            × IsIngested task_body ann item))
build_item-outcome_example =
    build_item-outcome stamps task_body ann start task_body-accepted refl refl refl

ingest-turn_lease_example :
    (construct_structured leased_turn ≡ ok leased_turn)
    × ((ingest stamps print leased_turn ann none start).0 ≡ err value_error)
ingest-turn_lease_example =
    ingest-turn_lease stamps print leased_turn ann none start leased_turn-fields_fit refl refl refl
      refl refl refl refl

requests_keep_one_live_example :
    count_by
      (is_live_at ("task" ∷ "ann" ∷ "t1" ∷ []) ContextScope.task "db")
      (serve_all stamps print traffic start).db.context_items
    ≤ 1
requests_keep_one_live_example =
    requests_keep_one_live stamps print traffic start ("task" ∷ "ann" ∷ "t1" ∷ []) ContextScope.task
      "db" IsConsistent-empty_db

abbrev bob_reads : List Request
bob_reads =
    item_retracted "ctx_10" bob (record { reason = none; turn_id = none }) ∷ compiled bob ∷ []

bob-IsForeign : IsForeign (owner_of bob) ("task" ∷ "ann" ∷ "t1" ∷ [])
unfolding key_for
bob-IsForeign ContextScope.turn none h = absurd (cc)
bob-IsForeign ContextScope.turn (some t) h = absurd (cc)
bob-IsForeign ContextScope.session turn_id h = absurd (cc)
bob-IsForeign ContextScope.task turn_id h =
    let same : false ≡ true =
      (texts_iff ("task" ∷ "bob" ∷ "t1" ∷ []) ("task" ∷ "ann" ∷ "t1" ∷ [])).1 (ok_inj h) in
    absurd (cc)
bob-IsForeign ContextScope.agent turn_id h = absurd (cc)
bob-IsForeign ContextScope.project turn_id h = absurd (cc)
bob-IsForeign ContextScope.user turn_id h = absurd (cc)

kept-key : owner_key kept_item ≡ ok ("task" ∷ "ann" ∷ "t1" ∷ [])
unfolding owner_key key_for
kept-key = refl

kept-found : get_item "ctx_10" (stocked kept_item).db ≡ some kept_item
unfolding get_item
kept-found = refl

requests_isolated_example :
    get_item "ctx_10" (serve_all stamps print bob_reads (stocked kept_item)).db ≡ some kept_item
requests_isolated_example =
    requests_isolated stamps print bob_reads (stocked kept_item) "ctx_10" kept_item
      ("task" ∷ "ann" ∷ "t1" ∷ []) kept-key (bob-IsForeign, (bob-IsForeign, tt)) kept-found

abbrev expired_item : ContextItem
expired_item = record kept_item { status = ContextStatus.expired }

expired-found : get_item "ctx_10" (stocked expired_item).db ≡ some expired_item
unfolding get_item
expired-found = refl

requests_never_revive_example :
    get_item "ctx_10" (serve_all stamps print traffic (stocked expired_item)).db ≡ some expired_item
requests_never_revive_example =
    requests_never_revive stamps print traffic (stocked expired_item) "ctx_10" expired_item refl
      expired-found

abbrev bob_reaches : List OwnerKey
bob_reaches = ("session" ∷ "s2" ∷ []) ∷ ("task" ∷ "bob" ∷ "t1" ∷ []) ∷ ("user" ∷ "bob" ∷ []) ∷ []

bob-reaches : reachable_owner_keys bob none ≡ ok bob_reaches
unfolding reachable_owner_keys key_for
bob-reaches = refl

missing-IsHidden : IsHidden "ctx_0" ann none empty_db
unfolding get_item
missing-IsHidden = inl refl

-- the item of another user
kept-IsHidden : IsHidden "ctx_10" bob none (stocked kept_item).db
kept-IsHidden =
    inr
      (kept_item, "task" ∷ "ann" ∷ "t1" ∷ [], bob_reaches, kept-found, kept-key, bob-reaches, refl)

abbrev no_reason : LifecycleInput
no_reason = record { reason = none; turn_id = none }

missing-retracted : retract_of stamps "ctx_0" ann no_reason start ≡ (err context_not_found, start)
missing-retracted = (hidden_not_found stamps "ctx_0" ann no_reason start missing-IsHidden).1

hidden_not_found_example :
    (get_item_of stamps "ctx_10" bob none (stocked kept_item)
      ≡ (err context_not_found, stocked kept_item))
    × (retract_of stamps "ctx_10" bob no_reason (stocked kept_item)
        ≡ (err context_not_found, stocked kept_item))
    × (expire_of stamps "ctx_10" bob no_reason (stocked kept_item)
        ≡ (err context_not_found, stocked kept_item))
hidden_not_found_example =
    hidden_not_found stamps "ctx_10" bob no_reason (stocked kept_item) kept-IsHidden

requests_keep_log_example : IsLogged (serve_all stamps print traffic start).db
requests_keep_log_example = requests_keep_log stamps print traffic start IsLogged-empty_db

-- one item, that is due when the twentieth stamp is drawn
abbrev short_lived : List Request
short_lived = ingested (body ContextScope.task none (some 110)) ann none ∷ []

abbrev elapsed : World
elapsed = record { db = (serve_all stamps print short_lived start).db; drawn = 20 }

elapsed-listed : (list_active_of stamps ann none elapsed).0 ≡ ok []
unfolding serve_all ingest build_item ingested_turn validate_identity_for_scope new_source
    assert_item validate_new_item item_event construct_event apply_event construct_item
    idempotency_of event_owner_key owner_key source_eq json_eq construct_structured list_active_of
    effective_turn expire_due expire_all expire_item expire end_lifecycle required_item
    reachable_owner_keys apply validate_fields list_active
elapsed-listed = refl

elapsed-IsLogged : IsLogged elapsed.db
elapsed-IsLogged = requests_keep_log stamps print short_lived start IsLogged-empty_db

elapsed-IsConsistent : IsConsistent elapsed.db
elapsed-IsConsistent =
    serve_all-keeps stamps print IsConsistent short_lived start
      (IsConsistent-keepers stamps print short_lived) IsConsistent-empty_db

abbrev no_items : List ContextItem
no_items = []

list_active_of-fresh_example : any (λ x. is_due x (stamps.time 20)) no_items ≡ false
list_active_of-fresh_example =
    list_active_of-fresh stamps ann none elapsed no_items elapsed-IsLogged elapsed-IsConsistent
      elapsed-listed
