-- ===== src/Application/ContextCompilation/Totals.antt =====
-- A total of the dict is the sum of the costs of the decisions with its key.
use ctx_ttl_oss.Prelude.{
  ℕ, ◌+◌, ◌≡◌, refl, sym, ◌∙◌, inl, inr, true, false, List, [], ◌∷◌, arith, nat_eq, string_eq,
  option_eq, list_eq, if◌then◌else◌, Bool-cases, sum_by,
}
use ctx_ttl_oss.Compiler.Budget.{
  DecisionReason, CandidateType, CompilationDecision, context, message,
}
use ctx_ttl_oss.Application.ContextCompilation.{
  reason_rank, same_type, has_key, Total, get_total, add_total, totals_of,
}

-- the cost of a decision, where it has this key
abbrev pub spent : CandidateType → DecisionReason → CompilationDecision → ℕ
spent t r d = if has_key d.candidate_type d.reason t r then d.token_cost else 0

same_type_iff : (a b : CandidateType) → same_type a b ≡ true → a ≡ b
same_type_iff context context h = refl
same_type_iff message message h = refl
same_type_iff context message h = absurd (cc)
same_type_iff message context h = absurd (cc)

-- the same key as another compares like it
has_key_same :
    (t u v : CandidateType) (r s q : DecisionReason)
    → has_key t r u s ≡ true
    → has_key t r v q ≡ has_key u s v q
has_key_same t u v r s q h =
    let types : same_type t u ≡ true = ground arith in
    let ranks : reason_rank r ≡ reason_rank s = ground arith in
    rw (same_type_iff t u types, ranks) refl

same_type_sym : (a b : CandidateType) → same_type a b ≡ same_type b a
same_type_sym context context = refl
same_type_sym message message = refl
same_type_sym context message = refl
same_type_sym message context = refl

has_key_sym : (t u : CandidateType) (r s : DecisionReason) → has_key t r u s ≡ has_key u s t r
has_key_sym t u r s = let types = same_type_sym t u in ground arith

get-add_total :
    (totals : List Total) (t u : CandidateType) (r s : DecisionReason) (cost : ℕ)
    → get_total (add_total totals t r cost) u s
      ≡ get_total totals u s + (if has_key t r u s then cost else 0)
unfolding get_total add_total
get-add_total [] t u r s cost = ground arith
get-add_total (x ∷ xs) t u r s cost = elim (Bool-cases (has_key x.type x.reason t r)) [
  | inl here ↦ let same = has_key_same x.type t u x.reason r s here in rw here (ground arith)
  | inr elsewhere ↦
      let rest = get-add_total xs t u r s cost in
      rw elsewhere (elim (Bool-cases (has_key x.type x.reason u s)) [
        | inl there ↦
            let other : has_key t r u s ≡ false =
              has_key_sym t u r s ∙ sym (has_key_same x.type u t x.reason s r there) ∙ elsewhere in
            rw (there, other) (omega arith)
        | inr neither ↦ rw neither rest
      ])
]

totals_from :
    (totals : List Total) (ds : List CompilationDecision) (t : CandidateType) (r : DecisionReason)
    → get_total (totals_of totals ds) t r ≡ get_total totals t r + sum_by (spent t r) ds
unfolding totals_of
totals_from totals [] t r = omega arith
totals_from totals (d ∷ ds) t r = omega (
  arith,
  totals_from (add_total totals d.candidate_type d.reason d.token_cost) ds t r,
  get-add_total totals d.candidate_type t d.reason r d.token_cost,
)

pub totals_sum :
    (ds : List CompilationDecision) (t : CandidateType) (r : DecisionReason)
    → get_total (totals_of [] ds) t r ≡ sum_by (spent t r) ds
unfolding get_total
totals_sum ds t r = omega (arith, totals_from [] ds t r)
