-- ===== src/Compiler/Tests.antt =====
-- Runs of the compiler's parts on small inputs, and the theorems at these inputs.
use ctx_ttl_oss.Prelude.{
  ℕ, ◌+◌, ◌≤◌, ◌<◌, String, ◌≡◌, refl, ◌↔◌, Bool, true, false, List, [], ◌∷◌, arith, nat_eq,
  string_eq, option_eq, list_eq, token_budget_exceeded, ok, err, keep, sum_by, All,
}
use ctx_ttl_oss.Json.{Json, Fields, str, arr, obj, nil, cons, end, field}
use ctx_ttl_oss.Compiler.Units.{Message, MessageUnit, message_units}
use ctx_ttl_oss.Compiler.Budget.{
  CompilationDecision, BudgetCandidate, cost_of, is_hard, decide, select_candidates, hard_required,
  soft_selected, budget_exceeded, message, unit_id,
}
use ctx_ttl_oss.Compiler.Budget.Selection.{
  taken_cost, hard_cost, selection_bounds, selection-keeps_hard, selection_maximal,
  selection_accounts, selection_fails_iff,
}
use ctx_ttl_oss.Compiler.Units.Partition.{unit_messages, units-partition_messages}

abbrev some_candidate : ℕ → ℕ → Bool → ℕ → BudgetCandidate ℕ
some_candidate n cost hard utility = record {
  id = unit_id n;
  candidate_type = message;
  token_cost = cost;
  hard = hard;
  utility = utility;
  tie_breaker = record { class = 1; place = n; name = "" };
  payload = n;
}

-- one mandatory candidate of 4 tokens, and soft ones of 5, 3 and 2
abbrev candidates : List (BudgetCandidate ℕ)
candidates =
    some_candidate 0 5 false 70
    ∷ some_candidate 1 4 true 10
    ∷ some_candidate 2 3 false 90
    ∷ some_candidate 3 2 false 60
    ∷ []

abbrev chosen : List (BudgetCandidate ℕ)
chosen = some_candidate 1 4 true 10 ∷ some_candidate 2 3 false 90 ∷ some_candidate 3 2 false 60 ∷ []

abbrev decided : List CompilationDecision
decided =
    decide (some_candidate 1 4 true 10) true hard_required
    ∷ decide (some_candidate 2 3 false 90) true soft_selected
    ∷ decide (some_candidate 0 5 false 70) false budget_exceeded
    ∷ decide (some_candidate 3 2 false 60) true soft_selected
    ∷ []

select-candidates : select_candidates candidates 10 12 ≡ ok (chosen, decided)
unfolding select_candidates
select-candidates = refl

selection_bounds_example : (sum_by cost_of chosen ≤ 12) × (sum_by cost_of chosen ≤ 10)
selection_bounds_example = selection_bounds candidates 10 12 select-candidates

selection-keeps_hard_example : keep is_hard chosen ≡ some_candidate 1 4 true 10 ∷ []
selection-keeps_hard_example = selection-keeps_hard candidates 10 12 select-candidates

selection_maximal_example :
    All (λ d. d.included ≡ false → 10 < sum_by cost_of chosen + d.token_cost) decided
selection_maximal_example = selection_maximal candidates 10 12 select-candidates

selection_accounts_example :
    (sum_by (λ d. d.token_cost) decided ≡ sum_by cost_of candidates)
    × (sum_by taken_cost decided ≡ sum_by cost_of chosen)
selection_accounts_example = selection_accounts candidates 10 12 select-candidates

selection_fails_iff_example :
    (select_candidates candidates 2 3 ≡ err token_budget_exceeded) ↔ (3 < hard_cost candidates)
selection_fails_iff_example = selection_fails_iff candidates 2 3 (omega arith) (omega arith)

-- a system message, a user turn with a tool call and its result, and a second turn
abbrev a_message : String → Fields → Message
a_message role rest = record { fields = field "role" (str role) rest; role = role }

abbrev tool_call : Json
tool_call = obj (field "id" (str "call_1") end)

abbrev conversation : List Message
conversation =
    a_message "system" end
    ∷ a_message "user" (field "content" (str "first") end)
    ∷ a_message "assistant" (field "tool_calls" (arr (cons tool_call nil)) end)
    ∷ a_message "tool" (field "tool_call_id" (str "call_1") end)
    ∷ a_message "user" (field "content" (str "second") end)
    ∷ []

abbrev flat_estimate : Message → ℕ
flat_estimate _ = 7

abbrev units : List MessageUnit
units =
    record {
      index = 0;
      messages = a_message "system" end ∷ [];
      token_cost = 7;
      hard = true;
      utility = 110000000;
    }
    ∷ record {
      index = 1;
      messages =
          a_message "user" (field "content" (str "first") end)
          ∷ a_message "assistant" (field "tool_calls" (arr (cons tool_call nil)) end)
          ∷ a_message "tool" (field "tool_call_id" (str "call_1") end)
          ∷ [];
      token_cost = 21;
      hard = false;
      utility = 150000000;
    }
    ∷ record {
      index = 4;
      messages = a_message "user" (field "content" (str "second") end) ∷ [];
      token_cost = 7;
      hard = true;
      utility = 190000000;
    }
    ∷ []

units-conversation : message_units flat_estimate conversation 1 ≡ ok units
unfolding message_units
units-conversation = refl

units-partition_messages_example : unit_messages units ≡ conversation
units-partition_messages_example =
    units-partition_messages flat_estimate conversation 1 units-conversation
