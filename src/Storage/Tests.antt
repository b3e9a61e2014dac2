-- ===== src/Storage/Tests.antt =====
-- Runs of the store on small inputs, and the theorems at these inputs.
use ctx_ttl_oss.Storage.Equality.{source_eq}
use ctx_ttl_oss.Storage.Store.Replay.{apply_idempotent_repeated, apply_idempotent_conflict}
use ctx_ttl_oss.Prelude.{
  true, false, ok, err, request_conflict, ◌≤◌, String, ◌≡◌, refl, Option, none, some, List, [], ◌∷◌,
  nat_eq, string_eq, option_eq, list_eq, count_by,
}
use ctx_ttl_oss.Json.{str, end, json_eq}
use ctx_ttl_oss.Models.Dimensions.{
  ContextKind, ContextScope, Retention, ContextApplicability, Authority, ContextStatus, EventType,
  kind_eq, scope_eq, retention_eq, applicability_eq, authority_eq, status_eq, event_type_eq,
}
use ctx_ttl_oss.Models.Context.{ContextOwner, SourceRef, ContextItem, owner_key}
use ctx_ttl_oss.Models.Event.{ContextEvent, event_owner_key}
use ctx_ttl_oss.Storage.Tables.{Db, ItemRow, empty_db}
use ctx_ttl_oss.Storage.Store.{ApplyResult, IdempotencyRequest, apply, apply_idempotent}
use ctx_ttl_oss.Storage.Store.Consistent.{IsConsistent}
use ctx_ttl_oss.Storage.Store.Invariant.{apply-IsConsistent, apply_idempotent-IsConsistent}
use ctx_ttl_oss.Storage.Store.Consistent.{IsConsistent-empty_db}
use ctx_ttl_oss.Storage.Runs.{Mutation, applied, run, is_live_at, one_live_item}

abbrev owner : ContextOwner
owner = record {
  session_id = "s1";
  user_id = some "ann";
  task_id = some "t1";
  agent_id = none;
  project_id = none;
}

abbrev source : SourceRef
source = record {
  session_id = "s1";
  turn_id = none;
  tool_call_id = none;
  document_id = none;
  timestamp = 5;
}

abbrev decision : String → String → String → Option String → ContextItem
decision id event value supersedes = record {
  id = id;
  kind = ContextKind.decision;
  scope = ContextScope.task;
  retention = Retention.persistent;
  applicability = ContextApplicability.selective;
  authority = Authority.explicit_user;
  status = ContextStatus.active;
  subject = some "project.database";
  value = str value;
  priority = 700000;
  confidence = 1000000;
  created_at = 10;
  owner = owner;
  source = source;
  source_event_id = some event;
  supersedes = supersedes;
  token_cost = none;
  ttl_turns = none;
  expires_at = none;
  metadata = end;
}

abbrev event : String → EventType → String → Option String → ContextEvent
event id type value target = record {
  id = id;
  event_type = type;
  subject = "project.database";
  scope = ContextScope.task;
  authority = Authority.explicit_user;
  owner = owner;
  source = source;
  value = str value;
  target_context_id = target;
  reason = none;
  created_at = 10;
  metadata = end;
}

abbrev sqlite : ContextItem
sqlite = decision "c1" "e1" "SQLite" none

abbrev postgres : ContextItem
postgres = decision "c2" "e2" "PostgreSQL" (some "c1")

abbrev assertion : ContextEvent
assertion = event "e1" EventType.assert "SQLite" none

abbrev correction : ContextEvent
correction = event "e2" EventType.supersede "PostgreSQL" (some "c1")

-- the decision is asserted, asserted again under other ids, and then corrected
abbrev history : List Mutation
history =
    applied assertion (some sqlite)
    ∷ applied (event "e3" EventType.assert "MySQL" none) (some (decision "c3" "e3" "MySQL" none))
    ∷ applied correction (some postgres)
    ∷ []

statuses : List ItemRow → List ContextStatus
statuses [] = []
statuses (r ∷ rows) = r.item.status ∷ statuses rows

run-history :
    statuses (run history empty_db).context_items
    ≡ ContextStatus.active ∷ ContextStatus.superseded ∷ []
unfolding run statuses event_owner_key owner_key source_eq json_eq
run-history = refl

apply-IsConsistent_example : IsConsistent (apply assertion (some sqlite) empty_db).1
apply-IsConsistent_example =
    apply-IsConsistent assertion (some sqlite) empty_db IsConsistent-empty_db

abbrev request : IdempotencyRequest
request = record {
  session_id = "s1";
  request_id = "r1";
  request_fingerprint = "f1";
  operation = "context.ingest";
}

apply_idempotent-IsConsistent_example :
    IsConsistent (apply_idempotent assertion (some sqlite) request empty_db).1
apply_idempotent-IsConsistent_example =
    apply_idempotent-IsConsistent assertion (some sqlite) request empty_db IsConsistent-empty_db

one_live_item_example :
    count_by
      (is_live_at ("task" ∷ "ann" ∷ "t1" ∷ []) ContextScope.task "project.database")
      (run history empty_db).context_items
    ≤ 1
one_live_item_example =
    one_live_item history empty_db ("task" ∷ "ann" ∷ "t1" ∷ []) ContextScope.task "project.database"
      IsConsistent-empty_db

abbrev first_result : ApplyResult
first_result = record { event = assertion; item = some sqlite; applied = true }

abbrev recorded_db : Db
recorded_db = (apply_idempotent assertion (some sqlite) request empty_db).1

apply_idempotent-first :
    apply_idempotent assertion (some sqlite) request empty_db ≡ (ok first_result, recorded_db)
unfolding apply_idempotent event_owner_key owner_key source_eq json_eq
apply_idempotent-first = refl

apply_idempotent_repeated_example :
    apply_idempotent correction (some postgres) request recorded_db
    ≡ (ok (record first_result { applied = false }), recorded_db)
apply_idempotent_repeated_example =
    apply_idempotent_repeated assertion correction (some sqlite) (some postgres) request empty_db
      apply_idempotent-first

apply_idempotent_conflict_example :
    apply_idempotent correction
      (some postgres)
      (record request { request_fingerprint = "f2" })
      recorded_db
    ≡ (err request_conflict, recorded_db)
apply_idempotent_conflict_example =
    apply_idempotent_conflict assertion correction (some sqlite) (some postgres) request "f2"
      empty_db apply_idempotent-first refl
