-- ===== src/Application/ContextCompilation.antt =====
-- application/context_compilation.py: the output reserve and the token ledger of a compilation.
pub mod Totals
pub mod Balance
pub mod Tests
use ctx_ttl_oss.Prelude.{
  ℕ, ◌+◌, String, Bool, true, false, ◌&&◌, Option, none, some, List, [], ◌∷◌, ◌==◌, nat_eq,
  string_eq, option_eq, list_eq, if◌then◌else◌, protocol_violation, Result, ok, err,
}
use ctx_ttl_oss.Observability.{PreCompilationExclusion, TokenSavingsLedger}
use ctx_ttl_oss.Json.{Json, Fields, null, int, get}
use ctx_ttl_oss.Compiler.Budget.{
  DecisionReason, CandidateType, CompilationDecision, hard_required, soft_selected, inactive,
  redundant, low_relevance, budget_exceeded, context, message,
}
use ctx_ttl_oss.Compiler.Compile.{CompilationResult}

abbrev pub reason_rank : DecisionReason → ℕ
reason_rank hard_required = 0
reason_rank soft_selected = 1
reason_rank inactive = 2
reason_rank redundant = 3
reason_rank low_relevance = 4
reason_rank budget_exceeded = 5

abbrev pub same_type : CandidateType → CandidateType → Bool
same_type context context = true
same_type message message = true
same_type _ _ = false

-- whether a decision has this key of the dict `totals`
abbrev pub has_key : CandidateType → DecisionReason → CandidateType → DecisionReason → Bool
has_key t r type reason = same_type t type && reason_rank r == reason_rank reason

pub record Total : Type 0 where
  pub type : CandidateType
  pub reason : DecisionReason
  pub tokens : ℕ

-- `totals.get(key, 0)`
unfoldable pub get_total : List Total → CandidateType → DecisionReason → ℕ
get_total [] t r = 0
get_total (x ∷ xs) t r = if has_key x.type x.reason t r then x.tokens else get_total xs t r

-- `totals[key] = totals.get(key, 0) + cost`
unfoldable pub add_total : List Total → CandidateType → DecisionReason → ℕ → List Total
add_total [] t r cost = record { type = t; reason = r; tokens = cost } ∷ []
add_total (x ∷ xs) t r cost =
    let rest = add_total xs t r cost in
    if has_key x.type x.reason t r then record x { tokens = x.tokens + cost } ∷ xs else x ∷ rest

unfoldable pub totals_of : List Total → List CompilationDecision → List Total
unfolding add_total
totals_of totals [] = totals
totals_of totals (d ∷ ds) = totals_of (add_total totals d.candidate_type d.reason d.token_cost) ds

-- `_token_ledger`
unfoldable pub token_ledger : CompilationResult → PreCompilationExclusion → TokenSavingsLedger
token_ledger result exclusion =
    let tokens = get_total (totals_of [] result.decisions) in
    let selected_transcript = tokens message hard_required + tokens message soft_selected in
    let selected_context = tokens context hard_required + tokens context soft_selected in
    let message_budget = tokens message budget_exceeded in
    let inactive_context = tokens context inactive in
    let redundant_context = tokens context redundant in
    let low_relevance_context = tokens context low_relevance in
    let context_budget = tokens context budget_exceeded in
    let removed =
      exclusion.token_count + message_budget + inactive_context + redundant_context
      + low_relevance_context + context_budget in
    record {
      pre_compilation_excluded_tokens = exclusion.token_count;
      source_transcript_tokens = result.source_message_tokens;
      candidate_context_tokens =
          selected_context + inactive_context + redundant_context + low_relevance_context
          + context_budget;
      selected_transcript_tokens = selected_transcript;
      selected_context_tokens = selected_context;
      message_budget_excluded_tokens = message_budget;
      inactive_context_tokens = inactive_context;
      redundant_context_tokens = redundant_context;
      low_relevance_context_tokens = low_relevance_context;
      context_budget_excluded_tokens = context_budget;
      provider_input_tokens = result.estimated_tokens;
      removed_before_provider_tokens = removed;
    }

-- `_output_reserve`
reserve_value : Option Json → Result ℕ
reserve_value none = ok 0
reserve_value (some null) = ok 0
reserve_value (some (int n)) = ok n
reserve_value (some _) = err protocol_violation

-- `payload.get(name, default)`
get_or : String → Fields → Option Json → Option Json
get_or name payload default = elim (get name payload) [ none ↦ default | some v ↦ some v ]

unfoldable pub output_reserve : Fields → Result ℕ
unfolding reserve_value get_or
output_reserve payload = reserve_value (
    get_or "max_output_tokens" payload
      (get_or "max_completion_tokens" payload (get "max_tokens" payload)))
