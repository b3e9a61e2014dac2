-- ===== src/Observability.antt =====
-- observability/models.py: what an agent has left out before the compilation, and the accounts of
-- the tokens from the agent to the provider.
use ctx_ttl_oss.Prelude.{
  ℕ, ◌+◌, String, Bool, not, List, [], ◌==◌, nat_eq, string_eq, option_eq, list_eq, value_error,
  Result, ◌>>◌, raise_if, any, sum_by,
}

-- the two dicts stand in the order of insertion
pub record PreCompilationExclusion : Type 0 where
  pub message_count : ℕ
  pub token_count : ℕ
  pub message_counts_by_reason : List (String × ℕ)
  pub tokens_by_reason : List (String × ℕ)

abbrev pub no_exclusion : PreCompilationExclusion
no_exclusion = record {
  message_count = 0;
  token_count = 0;
  message_counts_by_reason = [];
  tokens_by_reason = [];
}

abbrev pub value_of : String × ℕ → ℕ
value_of (reason, n) = n

abbrev pub is_unnamed : String × ℕ → Bool
is_unnamed (reason, n) = reason == ""

unfoldable pub validate_reason_totals : PreCompilationExclusion → Result (Unit {0})
validate_reason_totals x = do
  raise_if (any is_unnamed x.message_counts_by_reason) value_error
  raise_if (any is_unnamed x.tokens_by_reason) value_error
  raise_if (not (sum_by value_of x.message_counts_by_reason == x.message_count)) value_error
  raise_if (not (sum_by value_of x.tokens_by_reason == x.token_count)) value_error

pub record TokenSavingsLedger : Type 0 where
  pub pre_compilation_excluded_tokens : ℕ
  pub source_transcript_tokens : ℕ
  pub candidate_context_tokens : ℕ
  pub selected_transcript_tokens : ℕ
  pub selected_context_tokens : ℕ
  pub message_budget_excluded_tokens : ℕ
  pub inactive_context_tokens : ℕ
  pub redundant_context_tokens : ℕ
  pub low_relevance_context_tokens : ℕ
  pub context_budget_excluded_tokens : ℕ
  pub provider_input_tokens : ℕ
  pub removed_before_provider_tokens : ℕ

unfoldable pub validate_accounting : TokenSavingsLedger → Result (Unit {0})
validate_accounting l = do
  let transcript_total = l.selected_transcript_tokens + l.message_budget_excluded_tokens
  raise_if (not (transcript_total == l.source_transcript_tokens)) value_error
  let context_total =
      l.selected_context_tokens + l.inactive_context_tokens + l.redundant_context_tokens
      + l.low_relevance_context_tokens + l.context_budget_excluded_tokens
  raise_if (not (context_total == l.candidate_context_tokens)) value_error
  raise_if
      (not (l.selected_transcript_tokens + l.selected_context_tokens == l.provider_input_tokens))
      value_error
  let removed =
      l.pre_compilation_excluded_tokens + l.message_budget_excluded_tokens
      + l.inactive_context_tokens + l.redundant_context_tokens + l.low_relevance_context_tokens
      + l.context_budget_excluded_tokens
  raise_if (not (removed == l.removed_before_provider_tokens)) value_error
