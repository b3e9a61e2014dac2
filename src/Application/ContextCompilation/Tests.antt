-- ===== src/Application/ContextCompilation/Tests.antt =====
-- The ledger of a compilation, and the theorem at it.
use ctx_ttl_oss.Compiler.Compile.Tests.{a_decision, config, request, result, compile-request}
use ctx_ttl_oss.Prelude.{◌≡◌, refl, [], ◌∷◌, nat_eq, string_eq, option_eq, list_eq, ok}
use ctx_ttl_oss.Json.{null, int, end, field}
use ctx_ttl_oss.Observability.{PreCompilationExclusion, TokenSavingsLedger, validate_accounting}
use ctx_ttl_oss.Application.ContextCompilation.{
  get_total, add_total, totals_of, token_ledger, output_reserve,
}
use ctx_ttl_oss.Application.ContextCompilation.Balance.{ledger_balances}

abbrev excluded : PreCompilationExclusion
excluded = record {
  message_count = 1;
  token_count = 9;
  message_counts_by_reason = ("inactive", 1) ∷ [];
  tokens_by_reason = ("inactive", 9) ∷ [];
}

abbrev ledger : TokenSavingsLedger
ledger = record {
  pre_compilation_excluded_tokens = 9;
  source_transcript_tokens = 21;
  candidate_context_tokens = 7;
  selected_transcript_tokens = 14;
  selected_context_tokens = 7;
  message_budget_excluded_tokens = 7;
  inactive_context_tokens = 0;
  redundant_context_tokens = 0;
  low_relevance_context_tokens = 0;
  context_budget_excluded_tokens = 0;
  provider_input_tokens = 21;
  removed_before_provider_tokens = 16;
}

token_ledger-result : token_ledger result excluded ≡ ledger
unfolding token_ledger totals_of add_total get_total
token_ledger-result = refl

reserve-null :
    output_reserve (field "max_output_tokens" null (field "max_tokens" (int 5) end)) ≡ ok 0
unfolding output_reserve
reserve-null = refl

ledger_balances_example : validate_accounting (token_ledger result excluded) ≡ ok tt
ledger_balances_example =
    ledger_balances config request (a_decision ∷ []) 21 24 1 excluded compile-request
