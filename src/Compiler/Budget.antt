-- ===== src/Compiler/Budget.antt =====
-- compiler/budget.py, and the decisions of compiler/models.py. A utility is twice a number
-- of hundred millionths; the id `message:n` of a unit is the number n of its first message.
pub mod Selection
pub mod Weights
use ctx_ttl_oss.Prelude.{
  ℕ, ◌+◌, String, Bool, true, false, not, ◌&&◌, ◌||◌, Option, some, List, [], ◌∷◌, ◌++◌, ◌==◌,
  nat_eq, string_eq, option_eq, list_eq, ltb, leb, if◌then◌else◌, value_error,
  token_budget_exceeded, Result, ok, ◌>>◌, raise_if, keep, sum_by,
}
use text.Mathlib.Text.{is_le}
use Prim.Native.String.{compare}
use Prim.Native.Nat.{max}
use ctx_ttl_oss.Prelude.Sort.{sorted}

pub data DecisionReason : Type 0 where
  hard_required soft_selected inactive redundant low_relevance budget_exceeded : DecisionReason

pub data CandidateType : Type 0 where
  context message : CandidateType

pub data CandidateId : Type 0 where
  item_id : String → CandidateId
  unit_id : ℕ → CandidateId

pub record CompilationDecision : Type 0 where
  pub candidate_id : CandidateId
  pub candidate_type : CandidateType
  pub included : Bool
  pub reason : DecisionReason
  pub token_cost : ℕ
  pub utility : Option ℕ

-- the last component, `item.id` or `unit.id`, is left to the id; a time or a position stands second
pub record TieBreaker : Type 0 where
  pub class : ℕ
  pub place : ℕ
  pub name : String

pub record BudgetCandidate (P : Type 0) : Type 0 where
  pub id : CandidateId
  pub candidate_type : CandidateType
  pub token_cost : ℕ
  pub hard : Bool
  pub utility : ℕ
  pub tie_breaker : TieBreaker
  pub payload : P

-- `a <= b` of two tuples
abbrev pub tie_le : TieBreaker → TieBreaker → Bool
tie_le a b =
    ltb a.class b.class
    || a.class == b.class
      && (ltb a.place b.place || a.place == b.place && is_le (compare a.name b.name))

abbrev pub is_context : CandidateType → Bool
is_context context = true
is_context message = false

module _ {P : Type 0} where
  abbrev pub cost_of : BudgetCandidate P → ℕ
  cost_of c = c.token_cost

  abbrev pub is_hard : BudgetCandidate P → Bool
  is_hard c = c.hard

  abbrev pub is_soft : BudgetCandidate P → Bool
  is_soft c = not c.hard

  -- `sorted(..., key=(utility, tie_breaker), reverse=True)`
  abbrev pub preferred : BudgetCandidate P → BudgetCandidate P → Bool
  preferred a b =
      ltb b.utility a.utility || b.utility == a.utility && tie_le b.tie_breaker a.tie_breaker

  abbrev pub decide : BudgetCandidate P → Bool → DecisionReason → CompilationDecision
  decide c included reason = record {
    candidate_id = c.id;
    candidate_type = c.candidate_type;
    included = included;
    reason = reason;
    token_cost = c.token_cost;
    utility = some c.utility;
  }

  abbrev pub decide_soft : BudgetCandidate P → Bool → CompilationDecision
  decide_soft c included = decide c included (if included then soft_selected else budget_exceeded)

  abbrev pub decide_hard : List (BudgetCandidate P) → List CompilationDecision
  decide_hard [] = []
  decide_hard (c ∷ cs) = decide c true hard_required ∷ decide_hard cs

  abbrev pub with_choice :
      BudgetCandidate P
      → Bool
      → List (BudgetCandidate P) × List CompilationDecision
      → List (BudgetCandidate P) × List CompilationDecision
  with_choice c included (selected, decisions) =
      (if included then c ∷ selected else selected, decide_soft c included ∷ decisions)

  -- the loop over the soft candidates, from `used` tokens on
  unfoldable pub admit :
      ℕ → ℕ → List (BudgetCandidate P) → List (BudgetCandidate P) × List CompilationDecision
  admit soft_limit used [] = ([], [])
  admit soft_limit used (c ∷ cs) =
      let included = leb (used + c.token_cost) soft_limit in
      with_choice c included (admit soft_limit (if included then used + c.token_cost else used) cs)

  unfoldable pub select_candidates :
      List (BudgetCandidate P)
      → ℕ
      → ℕ
      → Result (List (BudgetCandidate P) × List CompilationDecision)
  unfolding admit sorted
  select_candidates candidates target_tokens max_tokens = do
    raise_if (ltb target_tokens 1 || ltb max_tokens target_tokens) value_error
    let hard = keep is_hard candidates
    let hard_cost = sum_by cost_of hard
    raise_if (ltb max_tokens hard_cost) token_budget_exceeded
    let (selected, decisions) =
        admit (max target_tokens hard_cost) hard_cost (sorted preferred (keep is_soft candidates))
    ok (hard ++ selected, decide_hard hard ++ decisions)
