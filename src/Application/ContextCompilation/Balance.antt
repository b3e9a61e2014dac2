-- ===== src/Application/ContextCompilation/Balance.antt =====
-- The ledger of a compilation balances.
use ctx_ttl_oss.Prelude.Sums.{sum_by-plus, sum_by-zero, sum_by-All}
use ctx_ttl_oss.Prelude.Unique.{All-weaken}
use ctx_ttl_oss.Compiler.Compile.Run.{compile_inv, assemble_inv}
use ctx_ttl_oss.Prelude.{
  ℕ, ◌+◌, ◌≤◌, ◌≡◌, refl, ap, ◌∙◌, Bool, true, false, List, [], ◌∷◌, ◌++◌, arith, nat_eq, string_eq,
  option_eq, list_eq, ok, sum_by, sum_by-append, All,
}
use ctx_ttl_oss.Json.{Json}
use ctx_ttl_oss.Models.Dimensions.{
  kind_eq, scope_eq, retention_eq, applicability_eq, authority_eq, status_eq, event_type_eq,
}
use ctx_ttl_oss.Models.Context.{ContextItem}
use ctx_ttl_oss.Compiler.Budget.{
  DecisionReason, CandidateType, CompilationDecision, decide, decide_soft, hard_required,
  soft_selected, inactive, redundant, low_relevance, budget_exceeded, context, message,
}
use ctx_ttl_oss.Compiler.Units.{MessageUnit}
use ctx_ttl_oss.Compiler.Context.{CompilerConfig, Candidate}
use ctx_ttl_oss.Compiler.Compile.{CompilationResult, message_candidates, unit_cost, compile}
use ctx_ttl_oss.Compiler.Units.Costs.{estimate_all_sum, units-IsCosted}
use ctx_ttl_oss.Compiler.Units.Indices.{units-IsRising}
use ctx_ttl_oss.Compiler.Context.Costs.{
  is_taken, IsRefusal, IsItemCandidate, context_candidates_sound,
}
use ctx_ttl_oss.Compiler.Budget.Weights.{selection_weighs, selection_weighs_taken}
use ctx_ttl_oss.Observability.{PreCompilationExclusion, TokenSavingsLedger, validate_accounting}
use ctx_ttl_oss.Application.ContextCompilation.{reason_rank, token_ledger}
use ctx_ttl_oss.Application.ContextCompilation.Totals.{spent, totals_sum}
use ctx_ttl_oss.Compiler.Compile.Accounts.{message_cost, context_cost, selection_sent}

-- the decisions that account for the messages of the request
abbrev of_messages : CompilationDecision → ℕ
of_messages d =
    spent message hard_required d + spent message soft_selected d + spent message budget_exceeded d

-- and those that account for what is sent
abbrev of_sent : CompilationDecision → ℕ
of_sent d =
    spent message hard_required d
    + spent message soft_selected d
    + spent context hard_required d
    + spent context soft_selected d

refused_messages : (d : CompilationDecision) → IsRefusal d → of_messages d ≡ 0
refused_messages d (type, untaken) = rw type (omega arith)

untaken_rank : (r : DecisionReason) → is_taken r ≡ false → 2 ≤ reason_rank r
untaken_rank hard_required h = absurd (cc)
untaken_rank soft_selected h = absurd (cc)
untaken_rank inactive h = omega arith
untaken_rank redundant h = omega arith
untaken_rank low_relevance h = omega arith
untaken_rank budget_exceeded h = omega arith

refused_sent : (d : CompilationDecision) → IsRefusal d → of_sent d ≡ 0
refused_sent d (type, untaken) = let high = untaken_rank d.reason untaken in rw type (ground arith)

module _ (b : Candidate) where
  abbrev typed : CandidateType → Candidate
  typed t = record b { candidate_type = t }

  hard_messages_cost :
      (t : CandidateType)
      → of_messages (decide (typed t) true hard_required) ≡ message_cost (typed t)
  hard_messages_cost context = omega arith
  hard_messages_cost message = omega arith

  soft_messages_cost :
      (t : CandidateType) (included : Bool)
      → of_messages (decide_soft (typed t) included) ≡ message_cost (typed t)
  soft_messages_cost context true = omega arith
  soft_messages_cost context false = omega arith
  soft_messages_cost message true = omega arith
  soft_messages_cost message false = omega arith

  hard_sent_cost :
      (t : CandidateType)
      → of_sent (decide (typed t) true hard_required)
        ≡ message_cost (typed t) + context_cost (typed t)
  hard_sent_cost context = omega arith
  hard_sent_cost message = omega arith

  soft_sent_cost :
      (t : CandidateType)
      → of_sent (decide_soft (typed t) true) ≡ message_cost (typed t) + context_cost (typed t)
  soft_sent_cost context = omega arith
  soft_sent_cost message = omega arith

  dropped_sent_cost : (t : CandidateType) → of_sent (decide_soft (typed t) false) ≡ 0
  dropped_sent_cost context = omega arith
  dropped_sent_cost message = omega arith

message_candidates_cost :
    (us : List MessageUnit) → sum_by message_cost (message_candidates us) ≡ sum_by unit_cost us
message_candidates_cost [] = refl
message_candidates_cost (u ∷ us) = omega (arith, message_candidates_cost us)

sum_spent :
    (ds : List CompilationDecision)
    → (sum_by of_messages ds
        ≡ sum_by (spent message hard_required) ds
          + sum_by (spent message soft_selected) ds
          + sum_by (spent message budget_exceeded) ds)
      × (sum_by of_sent ds
          ≡ sum_by (spent message hard_required) ds
            + sum_by (spent message soft_selected) ds
            + sum_by (spent context hard_required) ds
            + sum_by (spent context soft_selected) ds)
sum_spent [] = (refl, refl)
sum_spent (d ∷ ds) = let rest = sum_spent ds in (omega (arith, rest.0), omega (arith, rest.1))

balanced :
    (l : TokenSavingsLedger)
    → l.selected_transcript_tokens + l.message_budget_excluded_tokens ≡ l.source_transcript_tokens
    → l.selected_context_tokens + l.inactive_context_tokens + l.redundant_context_tokens
        + l.low_relevance_context_tokens + l.context_budget_excluded_tokens
      ≡ l.candidate_context_tokens
    → l.selected_transcript_tokens + l.selected_context_tokens ≡ l.provider_input_tokens
    → l.pre_compilation_excluded_tokens + l.message_budget_excluded_tokens
        + l.inactive_context_tokens + l.redundant_context_tokens + l.low_relevance_context_tokens
        + l.context_budget_excluded_tokens
      ≡ l.removed_before_provider_tokens
    → validate_accounting l ≡ ok tt
unfolding validate_accounting
balanced l transcript ctx provider removed = rw (transcript, ctx, provider, removed) (ground arith)

module _ (c : CompilerConfig) where
  part_messages_cost :
      (bs : List Candidate) → All (IsItemCandidate c) bs → sum_by message_cost bs ≡ 0
  part_messages_cost [] h = refl
  part_messages_cost (b ∷ bs) h =
      let rest = part_messages_cost bs h.1 in let (type, _) = h.0 in rw type (omega (arith, rest))

  -- the decisions about messages add up to the request
  transcript_total :
      (messages : List Json) (items : List ContextItem) (target limit reserve : ℕ)
      {r : CompilationResult}
      → compile c messages items target limit reserve ≡ ok r
      → sum_by of_messages r.decisions ≡ r.source_message_tokens
  transcript_total messages items target limit reserve {r} h =
      let run = compile_inv c messages items target limit reserve h in
      let end =
        assemble_inv c run.units run.selected (run.initial ++ run.budgeted) target limit
          run.assembled in
      let (sound, refused) = context_candidates_sound c items run.query run.judged in
      let cs = run.context_part ++ message_candidates run.units in
      let none_initial =
        sum_by-All of_messages (λ d. 0) run.initial
          (All-weaken _ _ run.initial refused_messages refused)
        ∙ sum_by-zero run.initial in
      let budgeted =
        selection_weighs cs target limit of_messages message_cost
          (λ b. hard_messages_cost b b.candidate_type)
          (λ b included. soft_messages_cost b b.candidate_type included) run.chosen in
      let split = sum_by-append message_cost run.context_part (message_candidates run.units) in
      let parts = part_messages_cost run.context_part sound in
      let units = message_candidates_cost run.units in
      rw (end.decided, end.source, sum_by-append) (omega arith)

  -- the decisions that take a candidate add up to what is sent
  sent_total :
      (messages : List Json) (items : List ContextItem) (target limit reserve : ℕ)
      {r : CompilationResult}
      → compile c messages items target limit reserve ≡ ok r
      → sum_by of_sent r.decisions ≡ r.estimated_tokens
  sent_total messages items target limit reserve {r} h =
      let run = compile_inv c messages items target limit reserve h in
      let end =
        assemble_inv c run.units run.selected (run.initial ++ run.budgeted) target limit
          run.assembled in
      let (sound, refused) = context_candidates_sound c items run.query run.judged in
      let cs = run.context_part ++ message_candidates run.units in
      let none_initial =
        sum_by-All of_sent (λ d. 0) run.initial (All-weaken _ _ run.initial refused_sent refused)
        ∙ sum_by-zero run.initial in
      let budgeted =
        selection_weighs_taken cs target limit of_sent (λ b. message_cost b + context_cost b)
          (λ b. hard_sent_cost b b.candidate_type) (λ b. soft_sent_cost b b.candidate_type)
          (λ b. dropped_sent_cost b b.candidate_type) run.chosen in
      let both = sum_by-plus message_cost context_cost run.selected in
      let rising = units-IsRising c.estimate run.normalized reserve run.split in
      let costed = units-IsCosted c.estimate run.normalized reserve run.split in
      let sent =
        selection_sent c run.context_part run.units target limit sound rising costed run.chosen in
      let estimated = estimate_all_sum c.estimate r.messages end.estimated in
      let total = ap (sum_by c.estimate) end.sent in rw (end.decided, sum_by-append) (omega arith)

-- The ledger of every successful compilation passes `validate_accounting`, whatever was excluded
-- before: the messages kept and dropped add up to the request, and the messages and items kept add
-- up to the estimate of what is sent.
pub ledger_balances :
    (c : CompilerConfig) (messages : List Json) (items : List ContextItem)
    (target limit reserve : ℕ) {r : CompilationResult} (exclusion : PreCompilationExclusion)
    → compile c messages items target limit reserve ≡ ok r
    → validate_accounting (token_ledger r exclusion) ≡ ok tt
unfolding token_ledger
ledger_balances c messages items target limit reserve {r} exclusion h =
    let (of_request, of_output) = sum_spent r.decisions in
    let transcript = transcript_total c messages items target limit reserve h in
    let sent = sent_total c messages items target limit reserve h in
    let a = totals_sum r.decisions message hard_required in
    let b = totals_sum r.decisions message soft_selected in
    let d = totals_sum r.decisions message budget_exceeded in
    let e = totals_sum r.decisions context hard_required in
    let f = totals_sum r.decisions context soft_selected in
    balanced (token_ledger r exclusion) (omega arith) refl (omega arith) refl
