-- ===== src/Compiler/Compile.antt =====
-- compiler/openai.py: `OpenAIContextCompiler.compile`, and the query of compiler/relevance.py.
pub mod Run
pub mod Kept
pub mod Accounts
pub mod Lossless
pub mod Estimated
pub mod Returns
pub mod Output
pub mod Instructions
pub mod Tests
use ctx_ttl_oss.Application.ProviderCapture.{output_messages}
use Prim.Native.String.{◌++◌ as ◌+++◌}
use mathlib.Core.List.{reverse}
use ctx_ttl_oss.Prelude.{
  ℕ, String, ◌||◌, Option, none, some, List, [], ◌∷◌, ◌++◌, ◌==◌, nat_eq, string_eq, option_eq,
  list_eq, ltb, if◌then◌else◌, value_error, token_budget_exceeded, Result, ok, ◌>>=◌, ◌>>◌,
  raise_if, sum_by, contains, Bool, false, err, type_error,
}
use ctx_ttl_oss.Json.{Json, Items, str, arr, obj, nil, cons, get}
use ctx_ttl_oss.Models.Dimensions.{
  kind_eq, scope_eq, retention_eq, applicability_eq, authority_eq, status_eq, event_type_eq,
}
use ctx_ttl_oss.Models.Context.{ContextItem}
use ctx_ttl_oss.Compiler.Units.{
  Message, normalize_messages, MessageUnit, estimate_all, message_units,
}
use ctx_ttl_oss.Compiler.Budget.{CompilationDecision, select_candidates, message, unit_id}
use ctx_ttl_oss.Compiler.Rendering.{insert_context_messages}
use ctx_ttl_oss.Compiler.Context.{
  CompilerConfig, Payload, of_item, of_unit, Candidate, context_candidates,
}

-- `part.get("type") in {"text", "input_text"}`: a list or a dict cannot be looked up in a set
is_text_type : Option Json → Result Bool
is_text_type (some (str kind)) = ok (kind == "text" || kind == "input_text")
is_text_type (some (arr xs)) = err type_error
is_text_type (some (obj fs)) = err type_error
is_text_type _ = ok false

abbrev text_of : Option Json → Option String
text_of (some (str t)) = some t
text_of _ = none

part_text : Json → Result (Option String)
unfolding is_text_type
part_text (obj fs) = do
  wanted ← is_text_type (get "type" fs)
  ok (if wanted then text_of (get "text" fs) else none)
part_text _ = ok none

abbrev append_text : Option String → List String → List String
append_text none texts = texts
append_text (some t) texts = t ∷ texts

part_texts : Items → Result (List String)
unfolding part_text
part_texts nil = ok []
part_texts (cons j js) = do text ← part_text j; texts ← part_texts js; ok (append_text text texts)

join_lines : List String → String
join_lines [] = ""
join_lines (x ∷ []) = x
join_lines (x ∷ y ∷ ys) = x +++ "\n" +++ join_lines (y ∷ ys)

content_text : Option Json → Result String
unfolding part_texts join_lines
content_text (some (str s)) = ok s
content_text (some (arr parts)) = do texts ← part_texts parts; ok (join_lines texts)
content_text _ = ok ""

-- the first user message of the reversed list
latest_query : List Message → Result String
unfolding content_text
latest_query [] = ok ""
latest_query (m ∷ ms) =
    let rest = latest_query ms in
    if m.role == "user" then content_text (get "content" m.fields) else rest

unfoldable pub latest_user_query : List Message → Result String
unfolding latest_query
latest_user_query ms = latest_query (reverse ms)

pub record CompilationResult : Type 0 where
  pub messages : List Message
  pub selected_context_ids : List String
  pub source_message_tokens : ℕ
  pub estimated_tokens : ℕ
  pub target_tokens : ℕ
  pub max_tokens : ℕ
  pub decisions : List CompilationDecision

-- `_message_candidates`
abbrev pub message_candidate : MessageUnit → Candidate
message_candidate u = record {
  id = unit_id u.index;
  candidate_type = message;
  token_cost = u.token_cost;
  hard = u.hard;
  utility = u.utility;
  tie_breaker = record { class = 1; place = u.index; name = "" };
  payload = of_unit u;
}

abbrev pub message_candidates : List MessageUnit → List Candidate
message_candidates [] = []
message_candidates (u ∷ us) = message_candidate u ∷ message_candidates us

abbrev units_from : Payload → List ℕ → List ℕ
units_from (of_unit u) rest = u.index ∷ rest
units_from (of_item i) rest = rest

abbrev items_from : Payload → List ContextItem → List ContextItem
items_from (of_unit u) rest = rest
items_from (of_item i) rest = i ∷ rest

abbrev pub selected_units : List Candidate → List ℕ
selected_units [] = []
selected_units (b ∷ bs) = units_from b.payload (selected_units bs)

abbrev pub selected_items : List Candidate → List ContextItem
selected_items [] = []
selected_items (b ∷ bs) = items_from b.payload (selected_items bs)

-- the messages of the units with a selected id
abbrev pub kept_messages : List ℕ → List MessageUnit → List Message
kept_messages ids [] = []
kept_messages ids (u ∷ us) =
    let rest = kept_messages ids us in if contains u.index ids then u.messages ++ rest else rest

abbrev pub ids_of_items : List ContextItem → List String
ids_of_items [] = []
ids_of_items (i ∷ is) = i.id ∷ ids_of_items is

abbrev pub unit_cost : MessageUnit → ℕ
unit_cost u = u.token_cost

module _ (c : CompilerConfig) where
  -- `if selected_items:`
  abbrev pub with_context : List Message → List ContextItem → List Message
  with_context messages [] = messages
  with_context messages (i ∷ is) = insert_context_messages c.render messages (i ∷ is)

  -- the part of `compile` behind the selection
  unfoldable pub assemble :
      List MessageUnit
      → List Candidate
      → List CompilationDecision
      → ℕ
      → ℕ
      → Result CompilationResult
  assemble units selected decisions target_tokens max_tokens = do
    let items = selected_items selected
    let output_messages = with_context (kept_messages (selected_units selected) units) items
    estimated ← estimate_all c.estimate output_messages
    raise_if (ltb max_tokens estimated) token_budget_exceeded
    ok (record {
      messages = output_messages;
      selected_context_ids = ids_of_items items;
      source_message_tokens = sum_by unit_cost units;
      estimated_tokens = estimated;
      target_tokens = target_tokens;
      max_tokens = max_tokens;
      decisions = decisions;
    })

  unfoldable pub compile : List Json → List ContextItem → ℕ → ℕ → ℕ → Result CompilationResult
  compile messages context_items target_tokens max_tokens recent_turn_reserve = do
    raise_if (ltb target_tokens 1 || ltb max_tokens target_tokens) value_error
    raise_if (ltb recent_turn_reserve 1) value_error
    normalized ← normalize_messages messages
    units ← message_units c.estimate normalized recent_turn_reserve
    query ← latest_user_query normalized
    (context_part, initial) ← context_candidates c context_items query
    (selected, budgeted) ←
        select_candidates (context_part ++ message_candidates units) target_tokens max_tokens
    assemble units selected (initial ++ budgeted) target_tokens max_tokens
