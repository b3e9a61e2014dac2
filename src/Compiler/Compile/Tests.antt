-- ===== src/Compiler/Compile/Tests.antt =====
-- A compilation of a short request with one decision, and the theorems at it.
use ctx_ttl_oss.Compiler.Units.Instructions.{gives_instruction}
use ctx_ttl_oss.Compiler.Compile.Instructions.{compile-keeps_instructions}
use ctx_ttl_oss.Compiler.Budget.Selection.{hard_cost}
use ctx_ttl_oss.Compiler.Compile.Returns.{compile_returns_iff}
use ctx_ttl_oss.Compiler.Compile.Lossless.{compile_lossless}
use ctx_ttl_oss.Compiler.Compile.Output.{compile_within_limit, compile-keeps_hard}
use ctx_ttl_oss.Compiler.Compile.Kept.{hard_messages, IsSubsequence}
use ctx_ttl_oss.Prelude.{
  ℕ, ◌≤◌, String, ◌≡◌, refl, ◌↔◌, Bool, true, false, none, some, List, [], ◌∷◌, ◌++◌, arith, nat_eq,
  string_eq, option_eq, list_eq, ok, keep, sum_by, err, type_error,
}
use ctx_ttl_oss.Json.{Json, str, obj, end, field, Items, arr, nil, cons}
use ctx_ttl_oss.Models.Dimensions.{
  ContextKind, ContextScope, Retention, ContextApplicability, Authority, ContextStatus, kind_eq,
  scope_eq, retention_eq, applicability_eq, authority_eq, status_eq, event_type_eq,
}
use ctx_ttl_oss.Models.Context.{ContextItem}
use ctx_ttl_oss.Compiler.Budget.{
  DecisionReason, CompilationDecision, decide, select_candidates, hard_required, soft_selected,
  budget_exceeded,
}
use ctx_ttl_oss.Compiler.Units.{
  Message, normalize_messages, MessageUnit, estimate_all, message_units,
}
use ctx_ttl_oss.Compiler.Rendering.{insert_context_messages}
use ctx_ttl_oss.Compiler.Context.{
  CompilerConfig, Candidate, item_utility, is_hard_context, fingerprint, item_candidate,
  context_candidates,
}
use ctx_ttl_oss.Compiler.Compile.{
  latest_user_query, CompilationResult, message_candidate, message_candidates, assemble, compile,
}

abbrev pub a_decision : ContextItem
a_decision = record {
  id = "c1";
  kind = ContextKind.decision;
  scope = ContextScope.session;
  retention = Retention.persistent;
  applicability = ContextApplicability.selective;
  authority = Authority.explicit_user;
  status = ContextStatus.active;
  subject = some "project.database";
  value = str "SQLite";
  priority = 700000;
  confidence = 1000000;
  created_at = 10;
  owner = record {
    session_id = "s1";
    user_id = none;
    task_id = none;
    agent_id = none;
    project_id = none;
  };
  source = record {
    session_id = "s1";
    turn_id = none;
    tool_call_id = none;
    document_id = none;
    timestamp = 5;
  };
  source_event_id = some "e1";
  supersedes = none;
  token_cost = none;
  ttl_turns = none;
  expires_at = none;
  metadata = end;
}

abbrev a_text : String → String → Json
a_text role content = obj (field "role" (str role) (field "content" (str content) end))

abbrev plain : String → String → Message
plain role content = record {
  fields = field "role" (str role) (field "content" (str content) end);
  role = role;
}

-- every message costs 7 tokens
abbrev pub config : CompilerConfig
config = record {
  estimate = λ m. 7;
  score = λ query i. 500000;
  render = λ i. plain "system" i.id;
  minimum_context_relevance = 0;
  relevance_fallback_items = 0;
}

abbrev pub request : List Json
request = a_text "system" "rules" ∷ a_text "user" "first" ∷ a_text "user" "second" ∷ []

abbrev request_messages : List Message
request_messages = plain "system" "rules" ∷ plain "user" "first" ∷ plain "user" "second" ∷ []

abbrev request_unit : ℕ → Message → Bool → ℕ → MessageUnit
request_unit index m hard utility = record {
  index = index;
  messages = m ∷ [];
  token_cost = 7;
  hard = hard;
  utility = utility;
}

abbrev request_units : List MessageUnit
request_units =
    request_unit 0 (plain "system" "rules") true 110000000
    ∷ request_unit 1 (plain "user" "first") false 150000000
    ∷ request_unit 2 (plain "user" "second") true 190000000
    ∷ []

normalize_messages-request : normalize_messages request ≡ ok request_messages
unfolding normalize_messages
normalize_messages-request = refl

units-request : message_units config.estimate request_messages 1 ≡ ok request_units
unfolding message_units
units-request = refl

abbrev sent : List Message
sent = plain "system" "rules" ∷ plain "system" "c1" ∷ plain "user" "second" ∷ []

abbrev message_decision : MessageUnit → Bool → DecisionReason → CompilationDecision
message_decision u included reason = decide (message_candidate u) included reason

abbrev pub result : CompilationResult
result = record {
  messages = sent;
  selected_context_ids = "c1" ∷ [];
  source_message_tokens = 21;
  estimated_tokens = 21;
  target_tokens = 21;
  max_tokens = 24;
  decisions =
      decide (item_candidate config a_decision 7 500000) true hard_required
      ∷ message_decision (request_unit 0 (plain "system" "rules") true 110000000) true hard_required
      ∷ message_decision (request_unit 2 (plain "user" "second") true 190000000) true hard_required
      ∷ message_decision (request_unit 1 (plain "user" "first") false 150000000) false
          budget_exceeded
      ∷ [];
}

pub compile-request : compile config request (a_decision ∷ []) 21 24 1 ≡ ok result
unfolding compile normalize_messages message_units context_candidates select_candidates assemble
    insert_context_messages latest_user_query estimate_all is_hard_context item_utility fingerprint
compile-request = refl

compile_within_limit_example :
    (21 ≡ sum_by config.estimate sent) × (sum_by config.estimate sent ≤ 24)
compile_within_limit_example =
    compile_within_limit config request (a_decision ∷ []) 21 24 1 compile-request

compile-keeps_hard_example : IsSubsequence (hard_messages request_units) sent
compile-keeps_hard_example =
    compile-keeps_hard config request (a_decision ∷ []) 21 24 1 compile-request
      normalize_messages-request units-request

-- without items, and with a target of three messages, nothing is left out
abbrev whole_result : CompilationResult
whole_result = record {
  messages = request_messages;
  selected_context_ids = [];
  source_message_tokens = 21;
  estimated_tokens = 21;
  target_tokens = 21;
  max_tokens = 24;
  decisions =
      message_decision (request_unit 0 (plain "system" "rules") true 110000000) true hard_required
      ∷ message_decision (request_unit 2 (plain "user" "second") true 190000000) true hard_required
      ∷ message_decision (request_unit 1 (plain "user" "first") false 150000000) true soft_selected
      ∷ [];
}

compile-whole : compile config request [] 21 24 1 ≡ ok whole_result
unfolding compile normalize_messages message_units context_candidates select_candidates assemble
    insert_context_messages latest_user_query estimate_all is_hard_context item_utility fingerprint
compile-whole = refl

compile_lossless_example : whole_result.messages ≡ request_messages
compile_lossless_example =
    compile_lossless config request 21 24 1 compile-whole normalize_messages-request (omega arith)

abbrev request_part : List Candidate
request_part = item_candidate config a_decision 7 500000 ∷ []

context_candidates-request :
    context_candidates config (a_decision ∷ []) "second" ≡ ok (request_part, [])
unfolding context_candidates estimate_all is_hard_context item_utility fingerprint
context_candidates-request = refl

latest_user_query-request : latest_user_query request_messages ≡ ok "second"
unfolding latest_user_query
latest_user_query-request = refl

-- a part whose type is a list cannot be looked up among the types of texts
latest_user_query-unhashable :
    (parts : Items)
    → latest_user_query (
        record {
          fields = field "content" (arr (cons (obj (field "type" (arr nil) end)) parts)) end;
          role = "user";
        }
        ∷ [])
      ≡ err type_error
unfolding latest_user_query
latest_user_query-unhashable parts = refl

compile_returns_iff_example :
    ((r : CompilationResult) × (compile config request (a_decision ∷ []) 21 24 1 ≡ ok r))
    ↔ (hard_cost (request_part ++ message_candidates request_units) ≤ 24)
compile_returns_iff_example =
    compile_returns_iff config request (a_decision ∷ []) 21 24 1 request_messages request_units
      "second" request_part [] (omega arith) (omega arith) (omega arith) normalize_messages-request
      units-request latest_user_query-request context_candidates-request

compile-keeps_instructions_example :
    IsSubsequence (keep gives_instruction request_messages) result.messages
compile-keeps_instructions_example =
    compile-keeps_instructions config request (a_decision ∷ []) 21 24 1 compile-request
      normalize_messages-request
