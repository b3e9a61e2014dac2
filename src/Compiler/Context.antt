-- ===== src/Compiler/Context.antt =====
-- compiler/openai.py: the candidates that context items make, and the decisions on those that make
-- none. The token estimator, the relevance scorer and the renderer are replaceable in the source
-- (`TokenEstimator`, `ContextRelevanceScorer`, `ContextMessageRenderer`): they are parameters.
pub mod Costs
use ctx_ttl_oss.Json.Print.{dumps}
use Prim.Native.String.{◌++◌ as ◌+++◌}
use ctx_ttl_oss.Models.Context.{ContextItem, scope_value}
use ctx_ttl_oss.Prelude.{
  ℕ, ◌+◌, ◌*◌, ◌/◌, ◌%◌, String, Bool, false, not, ◌&&◌, ◌||◌, Option, none, some, List, [], ◌∷◌,
  ◌++◌, ◌==◌, nat_eq, string_eq, option_eq, list_eq, ltb, leb, if◌then◌else◌, is_some, or_else,
  or_text, value_error, runtime_error, Result, ok, ◌>>=◌, ◌>>◌, raise_if, take, keep, any, contains,
}
use ctx_ttl_oss.Models.Dimensions.{
  ContextKind, ContextScope, ContextApplicability, Authority, ContextStatus, kind_eq, scope_eq,
  retention_eq, applicability_eq, authority_eq, status_eq, event_type_eq,
}
use ctx_ttl_oss.Models.Context.{ContextItem}
use ctx_ttl_oss.Compiler.Units.{Message, MessageUnit, estimate_message}
use ctx_ttl_oss.Compiler.Budget.{
  DecisionReason, CandidateId, CompilationDecision, BudgetCandidate, is_soft, preferred, decide,
  inactive, redundant, low_relevance, context, item_id, unit_id,
}
use ctx_ttl_oss.Prelude.Sort.{sorted}
use ctx_ttl_oss.Compiler.Rendering.{kind_value}
use ctx_ttl_oss.Compiler.Budget.{tie_le}

-- what `OpenAIContextCompiler.__init__` keeps; relevance is counted in millionths
pub record CompilerConfig : Type 0 where
  pub estimate : Message → ℕ
  pub score : String → ContextItem → ℕ
  pub render : ContextItem → Message
  pub minimum_context_relevance : ℕ
  pub relevance_fallback_items : ℕ

-- the range check of `__init__`
unfoldable pub construct_config : CompilerConfig → Result CompilerConfig
construct_config c = do raise_if (not (leb c.minimum_context_relevance 1000000)) value_error; ok c

-- what a selected candidate carries
pub data Payload : Type 0 where
  of_item : ContextItem → Payload
  of_unit : MessageUnit → Payload

abbrev pub Candidate : Type 0
Candidate = BudgetCandidate Payload

-- `_AUTHORITY_WEIGHT`, in hundredths
abbrev authority_weight : Authority → ℕ
authority_weight Authority.system = 100
authority_weight Authority.developer = 95
authority_weight Authority.explicit_user = 90
authority_weight Authority.verified_tool = 80
authority_weight Authority.retrieved_source = 65
authority_weight Authority.assistant_inference = 45
authority_weight Authority.summary = 35

-- `_SCOPE_WEIGHT`, in hundredths
abbrev scope_weight : ContextScope → ℕ
scope_weight ContextScope.turn = 100
scope_weight ContextScope.session = 90
scope_weight ContextScope.task = 85
scope_weight ContextScope.agent = 80
scope_weight ContextScope.project = 70
scope_weight ContextScope.user = 60

-- `round(x, 8)` of a number of thousand millionths: to the nearest ten, a tie to the even one
round_ten : ℕ → ℕ
round_ten n =
    if ltb (n % 10) 5 then n / 10 else if ltb 5 (n % 10) then n / 10 + 1 else n / 10 + n / 10 % 2

-- twice the hundred millionths of the utility
unfoldable pub item_utility : ContextItem → ℕ → ℕ
unfolding round_ten
item_utility i relevance =
    2
    * round_ten (
        i.priority * 245
        + i.confidence * 175
        + authority_weight i.authority * 1750000
        + scope_weight i.scope * 1050000
        + relevance * 300)

-- `_is_hard_context`
unfoldable pub is_hard_context : ContextItem → Bool
is_hard_context i =
    i.applicability == ContextApplicability.current_turn
    || i.applicability == ContextApplicability.required
    || i.authority == Authority.system
    || i.authority == Authority.developer
    || i.authority == Authority.explicit_user
      && (i.kind == ContextKind.constraint
          || i.kind == ContextKind.decision
          || i.kind == ContextKind.task_state
          || is_some i.supersedes)
    || i.authority == Authority.verified_tool && i.kind == ContextKind.task_state

-- `_fingerprint`
unfoldable pub fingerprint : ContextItem → String
unfolding dumps
fingerprint i =
    kind_value i.kind
    +++ "|"
    +++ scope_value i.scope
    +++ "|"
    +++ or_text i.subject ""
    +++ "|"
    +++ dumps i.value

abbrev pub skipped : ContextItem → DecisionReason → ℕ → CompilationDecision
skipped i reason cost = record {
  candidate_id = item_id i.id;
  candidate_type = context;
  included = false;
  reason = reason;
  token_cost = cost;
  utility = none;
}

-- what one round of the loop makes of an item: a decision against it, or a candidate
pub data Verdict : Type 0 where
  dropped : CompilationDecision → Verdict
  candidate : Candidate → ℕ → Verdict

-- `sorted(items, key=(created_at, id), reverse=True)`
abbrev pub newer : ContextItem → ContextItem → Bool
newer a b =
    ltb b.created_at a.created_at
    || b.created_at == a.created_at
      && tie_le (record { class = 0; place = 0; name = b.id })
          (record { class = 0; place = 0; name = a.id })

module _ (c : CompilerConfig) where
  abbrev pub item_candidate : ContextItem → ℕ → ℕ → Candidate
  item_candidate i cost relevance = record {
    id = item_id i.id;
    candidate_type = context;
    token_cost = cost;
    hard = is_hard_context i;
    utility = item_utility i relevance;
    tie_breaker = record { class = 0; place = i.created_at; name = i.id };
    payload = of_item i;
  }

  -- the relevance, if the scorer keeps to its range
  abbrev scored : String → ContextItem → ℕ → Result Verdict
  scored query i cost = do
    let relevance = c.score query i
    raise_if (not (leb relevance 1000000)) runtime_error
    ok (candidate (item_candidate i cost relevance) relevance)

  unfoldable pub judge : String → List String → ContextItem → Result Verdict
  judge query fingerprints i = do
    cost ← estimate_message c.estimate (c.render i)
    (if not (i.status == ContextStatus.active)
        then ok (dropped (skipped i inactive cost))
        else if contains (fingerprint i) fingerprints
        then ok (dropped (skipped i redundant cost))
        else scored query i cost)

  -- the fingerprint of every active item is recorded; that of a redundant one is there already
  abbrev pub record_fingerprint : List String → ContextItem → List String
  record_fingerprint fingerprints i =
      if i.status == ContextStatus.active then fingerprint i ∷ fingerprints else fingerprints

  unfoldable pub judge_all : String → List String → List ContextItem → Result (List Verdict)
  judge_all query fingerprints [] = ok []
  judge_all query fingerprints (i ∷ is) = do
    v ← judge query fingerprints i
    vs ← judge_all query (record_fingerprint fingerprints i) is
    ok (v ∷ vs)

  abbrev pub candidates_of : List Verdict → List Candidate
  candidates_of [] = []
  candidates_of (dropped d ∷ vs) = candidates_of vs
  candidates_of (candidate b r ∷ vs) = b ∷ candidates_of vs

  abbrev pub dropped_of : List Verdict → List CompilationDecision
  dropped_of [] = []
  dropped_of (dropped d ∷ vs) = d ∷ dropped_of vs
  dropped_of (candidate b r ∷ vs) = dropped_of vs

  abbrev same_id : CandidateId → CandidateId → Bool
  same_id (item_id a) (item_id b) = a == b
  same_id (unit_id a) (unit_id b) = a == b
  same_id _ _ = false

  -- `relevance_by_id[candidate.id]`: the last item with an id has written it
  abbrev relevance_by_id : CandidateId → List Verdict → Option ℕ
  relevance_by_id id [] = none
  relevance_by_id id (dropped d ∷ vs) = relevance_by_id id vs
  relevance_by_id id (candidate b r ∷ vs) = elim (relevance_by_id id vs) [
    | some later ↦ some later
    | none ↦ if same_id b.id id then some r else none
  ]

  abbrev relevance_of : List Verdict → Candidate → ℕ
  relevance_of vs b = or_else (relevance_by_id b.id vs) 0

  -- `key=(relevance, utility, tie_breaker), reverse=True`
  abbrev more_relevant : List Verdict → Candidate → Candidate → Bool
  more_relevant vs a b =
      ltb (relevance_of vs b) (relevance_of vs a)
      || relevance_of vs b == relevance_of vs a && preferred a b

  abbrev has_id : CandidateId → List Candidate → Bool
  has_id id bs = any (λ b. same_id b.id id) bs

  unfoldable pub fallback : List Verdict → List Candidate
  unfolding sorted
  fallback vs =
      take c.relevance_fallback_items (sorted (more_relevant vs) (keep is_soft (candidates_of vs)))

  -- a soft candidate of too low relevance, which the fallback does not rescue
  unfoldable pub is_irrelevant : List Verdict → Candidate → Bool
  unfolding fallback
  is_irrelevant vs b =
      not b.hard
      && ltb (relevance_of vs b) c.minimum_context_relevance
      && not (has_id b.id (fallback vs))

  abbrev pub low_decision : Candidate → CompilationDecision
  low_decision b = decide b false low_relevance

  abbrev pub low_decisions : List Candidate → List CompilationDecision
  low_decisions [] = []
  low_decisions (b ∷ bs) = low_decision b ∷ low_decisions bs

  -- `_context_candidates`
  unfoldable pub context_candidates :
      List ContextItem → String → Result (List Candidate × List CompilationDecision)
  unfolding judge judge_all is_irrelevant sorted
  context_candidates items query = do
    vs ← judge_all query [] (sorted newer items)
    ok (
      keep (λ b. not (is_irrelevant vs b)) (candidates_of vs),
      dropped_of vs ++ low_decisions (keep (is_irrelevant vs) (candidates_of vs)),
    )
