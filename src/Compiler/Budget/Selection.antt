-- ===== src/Compiler/Budget/Selection.antt =====
-- What the selection guarantees: the budget, every mandatory candidate, and no soft candidate left
-- out that would have fitted.
use mathlib.Core.List.{append-nil}
use Prim.Native.Nat.{max}
use ctx_ttl_oss.Prelude.Sort.{sorted, sum_by-sorted, all-sorted}
use ctx_ttl_oss.Prelude.{
  ℕ, ◌+◌, ◌≤◌, ◌<◌, ◌≡◌, refl, ◌↔◌, inl, inr, true, false, List, [], ◌∷◌, ◌++◌, arith, nat_eq,
  string_eq, option_eq, list_eq, leb, if◌then◌else◌, Bool-cases, token_budget_exceeded, ok, err,
  keep, all, sum_by, sum_by-append, all-keep, sum_by-split, keep-append, keep-keep, All-append, All,
}
use ctx_ttl_oss.Compiler.Budget.{
  CompilationDecision, BudgetCandidate, cost_of, is_hard, is_soft, preferred, decide_hard, admit,
  select_candidates,
}

-- the cost of a decision, counted where the candidate was taken
abbrev pub taken_cost : CompilationDecision → ℕ
taken_cost d = if d.included then d.token_cost else 0

module _ {P : Type 0} where
  admit_bound :
      (limit used : ℕ) (cs : List (BudgetCandidate P))
      → used ≤ limit
      → used + sum_by cost_of (admit limit used cs).0 ≤ limit
  unfolding admit
  admit_bound limit used [] h = omega arith
  admit_bound limit used (c ∷ cs) h = elim (Bool-cases (leb (used + c.token_cost) limit)) [
    | inl fits ↦ rw fits (omega (arith, admit_bound limit (used + c.token_cost) cs (ground arith)))
    | inr over ↦ rw over (admit_bound limit used cs h)
  ]

  admit-all_soft :
      (limit used : ℕ) (cs : List (BudgetCandidate P))
      → all is_soft cs ≡ true
      → keep is_hard (admit limit used cs).0 ≡ []
  unfolding admit
  admit-all_soft limit used [] h = refl
  admit-all_soft limit used (c ∷ cs) h = elim (Bool-cases (leb (used + c.token_cost) limit)) [
    | inl fits ↦ rw fits (ground (arith, admit-all_soft limit (used + c.token_cost) cs))
    | inr over ↦ rw over (admit-all_soft limit used cs (ground arith))
  ]

  -- every candidate has one decision, and the candidates taken are those that are included
  admit_costs :
      (limit used : ℕ) (cs : List (BudgetCandidate P))
      → (sum_by (λ d. d.token_cost) (admit limit used cs).1 ≡ sum_by cost_of cs)
        × (sum_by taken_cost (admit limit used cs).1 ≡ sum_by cost_of (admit limit used cs).0)
  unfolding admit
  admit_costs limit used [] = (refl, refl)
  admit_costs limit used (c ∷ cs) = elim (Bool-cases (leb (used + c.token_cost) limit)) [
    | inl fits ↦ rw fits (omega (arith, admit_costs limit (used + c.token_cost) cs))
    | inr over ↦ rw over (omega (arith, admit_costs limit used cs))
  ]

  admit_maximal :
      (limit used total : ℕ) (cs : List (BudgetCandidate P))
      → used + sum_by cost_of (admit limit used cs).0 ≤ total
      → All (λ d. d.included ≡ false → limit < total + d.token_cost) (admit limit used cs).1
  unfolding admit
  admit_maximal limit used total [] h = tt
  admit_maximal limit used total (c ∷ cs) h = elim (Bool-cases (leb (used + c.token_cost) limit)) [
    | inl fits ↦
        rw fits (
          λ rejected. absurd (cc),
          admit_maximal limit (used + c.token_cost) total cs (ground arith),
        )
    | inr over ↦
        rw over (λ rejected. ground arith, admit_maximal limit used total cs (ground arith))
  ]

  abbrev pub hard_cost : List (BudgetCandidate P) → ℕ
  hard_cost cs = sum_by cost_of (keep is_hard cs)

  abbrev pub soft_limit : List (BudgetCandidate P) → ℕ → ℕ
  soft_limit cs target = max target (hard_cost cs)

  abbrev pub ranked : List (BudgetCandidate P) → List (BudgetCandidate P)
  ranked cs = sorted preferred (keep is_soft cs)

  ranked-soft : (cs : List (BudgetCandidate P)) → all is_soft (ranked cs) ≡ true
  ranked-soft cs = rw all-sorted (all-keep is_soft cs)

  ranked_cost :
      (cs : List (BudgetCandidate P))
      → hard_cost cs + sum_by cost_of (ranked cs) ≡ sum_by cost_of cs
  ranked_cost cs = rw sum_by-sorted (sum_by-split cost_of is_hard cs)

  decide_hard_costs :
      (cs : List (BudgetCandidate P))
      → (sum_by (λ d. d.token_cost) (decide_hard cs) ≡ sum_by cost_of cs)
        × (sum_by taken_cost (decide_hard cs) ≡ sum_by cost_of cs)
  decide_hard_costs [] = (refl, refl)
  decide_hard_costs (c ∷ cs) = omega (arith, decide_hard_costs cs)

  decide_hard_taken :
      (total limit : ℕ) (cs : List (BudgetCandidate P))
      → All (λ d. d.included ≡ false → limit < total + d.token_cost) (decide_hard cs)
  decide_hard_taken total limit [] = tt
  decide_hard_taken total limit (c ∷ cs) =
      (λ rejected. absurd (cc), decide_hard_taken total limit cs)

  -- What a successful selection is made of.
  pub select_inv :
      (cs : List (BudgetCandidate P)) (target limit : ℕ) {selected : List (BudgetCandidate P)}
      {ds : List CompilationDecision}
      → select_candidates cs target limit ≡ ok (selected, ds)
      → (hard_cost cs ≤ limit)
        × (target ≤ limit)
        × (selected
            ≡ keep is_hard cs ++ (admit (soft_limit cs target) (hard_cost cs) (ranked cs)).0)
        × (ds
            ≡ decide_hard (keep is_hard cs)
              ++ (admit (soft_limit cs target) (hard_cost cs) (ranked cs)).1)
  unfolding select_candidates
  select_inv cs target limit h = ground arith

  -- A successful selection costs at most the limit, and at most the greater of the target and the
  -- cost of the mandatory candidates.
  pub selection_bounds :
      (cs : List (BudgetCandidate P)) (target limit : ℕ) {selected : List (BudgetCandidate P)}
      {ds : List CompilationDecision}
      → select_candidates cs target limit ≡ ok (selected, ds)
      → (sum_by cost_of selected ≤ limit) × (sum_by cost_of selected ≤ max target (hard_cost cs))
  selection_bounds cs target limit h =
      let (fits, below, chosen, _) = select_inv cs target limit h in
      rw (chosen, sum_by-append)
        (omega (arith, admit_bound (soft_limit cs target) (hard_cost cs) (ranked cs) (omega arith)))

  -- A successful selection keeps every mandatory candidate, each as often and in the order given.
  pub selection-keeps_hard :
      (cs : List (BudgetCandidate P)) (target limit : ℕ) {selected : List (BudgetCandidate P)}
      {ds : List CompilationDecision}
      → select_candidates cs target limit ≡ ok (selected, ds)
      → keep is_hard selected ≡ keep is_hard cs
  selection-keeps_hard cs target limit h =
      let (_, _, chosen, _) = select_inv cs target limit h in
      rw
        (
          chosen,
          keep-append,
          keep-keep,
          admit-all_soft (soft_limit cs target) (hard_cost cs) (ranked cs) (ranked-soft cs),
        )
        (append-nil (keep is_hard cs))

  -- No rejected candidate could be added to the selection: with it the soft limit, which is the
  -- greater of the target and the cost of the mandatory candidates, would be passed.
  pub selection_maximal :
      (cs : List (BudgetCandidate P)) (target limit : ℕ) {selected : List (BudgetCandidate P)}
      {ds : List CompilationDecision}
      → select_candidates cs target limit ≡ ok (selected, ds)
      → All
          (λ d.
            d.included ≡ false → max target (hard_cost cs) < sum_by cost_of selected + d.token_cost)
          ds
  selection_maximal cs target limit h =
      let (_, _, chosen, decided) = select_inv cs target limit h in
      rw (chosen, decided, sum_by-append)
        (All-append _ (decide_hard (keep is_hard cs)) _ (decide_hard_taken _ _ (keep is_hard cs))
          (admit_maximal (soft_limit cs target) (hard_cost cs) _ (ranked cs) (omega arith)))

  -- The decisions account for every token: over all decisions the costs add up to those of the
  -- candidates, and over the included ones to those of the selection.
  pub selection_accounts :
      (cs : List (BudgetCandidate P)) (target limit : ℕ) {selected : List (BudgetCandidate P)}
      {ds : List CompilationDecision}
      → select_candidates cs target limit ≡ ok (selected, ds)
      → (sum_by (λ d. d.token_cost) ds ≡ sum_by cost_of cs)
        × (sum_by taken_cost ds ≡ sum_by cost_of selected)
  selection_accounts cs target limit h =
      let (_, _, chosen, decided) = select_inv cs target limit h in
      rw (chosen, decided, sum_by-append, sum_by-append, sum_by-append)
        (omega (
          arith,
          decide_hard_costs (keep is_hard cs),
          admit_costs (soft_limit cs target) (hard_cost cs) (ranked cs),
          ranked_cost cs,
        ))

  -- With 1 <= target <= limit the selection fails just where the mandatory candidates alone pass
  -- the limit, and then with `TokenBudgetExceeded`.
  pub selection_fails_iff :
      (cs : List (BudgetCandidate P)) (target limit : ℕ)
      → 1 ≤ target
      → target ≤ limit
      → (select_candidates cs target limit ≡ err token_budget_exceeded) ↔ (limit < hard_cost cs)
  unfolding select_candidates
  selection_fails_iff cs target limit one below = (λ h. ground arith, λ h. ground arith)
