-- ===== src/Compiler/Budget/Weights.antt =====
-- Sums over the selection and its decisions, by any weight, and what holds of all candidates.
use ctx_ttl_oss.Prelude.Unique.{All-keep, All-sorted}
use ctx_ttl_oss.Prelude.Sort.{sum_by-sorted}
use ctx_ttl_oss.Prelude.{
  ℕ, ◌+◌, ◌≤◌, ◌≡◌, refl, inl, inr, Bool, true, false, List, [], ◌∷◌, arith, nat_eq, string_eq,
  option_eq, list_eq, leb, if◌then◌else◌, Bool-cases, ok, keep, sum_by, sum_by-append, sum_by-split,
  All-append, All,
}
use ctx_ttl_oss.Compiler.Budget.{
  CompilationDecision, BudgetCandidate, is_hard, is_soft, preferred, decide, decide_soft,
  decide_hard, admit, select_candidates, hard_required,
}
use ctx_ttl_oss.Prelude.Sort.{sum_by-sorted}
use ctx_ttl_oss.Compiler.Budget.Selection.{ranked, hard_cost, soft_limit, select_inv}

module _ {P : Type 0} where
  admit_sum :
      (f : CompilationDecision → ℕ) (g : BudgetCandidate P → ℕ)
      → ((c : BudgetCandidate P) (b : Bool) → f (decide_soft c b) ≡ g c)
      → (limit used : ℕ) (cs : List (BudgetCandidate P))
      → sum_by f (admit limit used cs).1 ≡ sum_by g cs
  unfolding admit
  admit_sum f g h limit used [] = refl
  admit_sum f g h limit used (c ∷ cs) = omega (
    arith,
    h c (leb (used + c.token_cost) limit),
    admit_sum f g h limit (if leb (used + c.token_cost) limit then used + c.token_cost else used)
        cs,
  )

  admit_taken_sum :
      (f : CompilationDecision → ℕ) (g : BudgetCandidate P → ℕ)
      → ((c : BudgetCandidate P) → f (decide_soft c true) ≡ g c)
      → ((c : BudgetCandidate P) → f (decide_soft c false) ≡ 0)
      → (limit used : ℕ) (cs : List (BudgetCandidate P))
      → sum_by f (admit limit used cs).1 ≡ sum_by g (admit limit used cs).0
  unfolding admit
  admit_taken_sum f g h n limit used [] = refl
  admit_taken_sum f g h n limit used (c ∷ cs) =
      elim (Bool-cases (leb (used + c.token_cost) limit)) [
        | inl fits ↦
            rw fits (omega (arith, h c, admit_taken_sum f g h n limit (used + c.token_cost) cs))
        | inr over ↦ rw over (omega (arith, n c, admit_taken_sum f g h n limit used cs))
      ]

  admit_sum_le :
      (g : BudgetCandidate P → ℕ) (limit used : ℕ) (cs : List (BudgetCandidate P))
      → sum_by g (admit limit used cs).0 ≤ sum_by g cs
  unfolding admit
  admit_sum_le g limit used [] = omega arith
  admit_sum_le g limit used (c ∷ cs) = elim (Bool-cases (leb (used + c.token_cost) limit)) [
    | inl fits ↦ rw fits (omega (arith, admit_sum_le g limit (used + c.token_cost) cs))
    | inr over ↦ rw over (omega (arith, admit_sum_le g limit used cs))
  ]

  All-admit :
      (Q : BudgetCandidate P → Type 0) (limit used : ℕ) (cs : List (BudgetCandidate P))
      → All Q cs
      → All Q (admit limit used cs).0
  unfolding admit
  All-admit Q limit used [] h = tt
  All-admit Q limit used (c ∷ cs) h = elim (Bool-cases (leb (used + c.token_cost) limit)) [
    | inl fits ↦ rw fits (h.0, All-admit Q limit (used + c.token_cost) cs h.1)
    | inr over ↦ rw over (All-admit Q limit used cs h.1)
  ]

  hard_sum :
      (f : CompilationDecision → ℕ) (g : BudgetCandidate P → ℕ)
      → ((c : BudgetCandidate P) → f (decide c true hard_required) ≡ g c)
      → (cs : List (BudgetCandidate P)) → sum_by f (decide_hard cs) ≡ sum_by g cs
  hard_sum f g h [] = refl
  hard_sum f g h (c ∷ cs) = omega (arith, h c, hard_sum f g h cs)

  ranked_sum :
      (g : BudgetCandidate P → ℕ) (cs : List (BudgetCandidate P))
      → sum_by g (keep is_hard cs) + sum_by g (ranked cs) ≡ sum_by g cs
  ranked_sum g cs = rw sum_by-sorted (sum_by-split g is_hard cs)

  module _ (cs : List (BudgetCandidate P)) (target limit : ℕ) {selected : List (BudgetCandidate P)}
      {ds : List CompilationDecision} where
    pub selection_weighs :
        (f : CompilationDecision → ℕ) (g : BudgetCandidate P → ℕ)
        → ((c : BudgetCandidate P) → f (decide c true hard_required) ≡ g c)
        → ((c : BudgetCandidate P) (b : Bool) → f (decide_soft c b) ≡ g c)
        → select_candidates cs target limit ≡ ok (selected, ds)
        → sum_by f ds ≡ sum_by g cs
    selection_weighs f g hard soft h =
        let (_, _, _, decided) = select_inv cs target limit h in
        rw (decided, sum_by-append)
          (omega (
            arith,
            hard_sum f g hard (keep is_hard cs),
            admit_sum f g soft (soft_limit cs target) (hard_cost cs) (ranked cs),
            ranked_sum g cs,
          ))

    pub selection_weighs_taken :
        (f : CompilationDecision → ℕ) (g : BudgetCandidate P → ℕ)
        → ((c : BudgetCandidate P) → f (decide c true hard_required) ≡ g c)
        → ((c : BudgetCandidate P) → f (decide_soft c true) ≡ g c)
        → ((c : BudgetCandidate P) → f (decide_soft c false) ≡ 0)
        → select_candidates cs target limit ≡ ok (selected, ds)
        → sum_by f ds ≡ sum_by g selected
    selection_weighs_taken f g hard soft dropped h =
        let (_, _, chosen, decided) = select_inv cs target limit h in
        rw (decided, chosen, sum_by-append, sum_by-append)
          (omega (
            arith,
            hard_sum f g hard (keep is_hard cs),
            admit_taken_sum f g soft dropped (soft_limit cs target) (hard_cost cs) (ranked cs),
          ))

    pub selection_weight :
        (g : BudgetCandidate P → ℕ)
        → select_candidates cs target limit ≡ ok (selected, ds)
        → sum_by g selected ≤ sum_by g cs
    selection_weight g h =
        let (_, _, chosen, _) = select_inv cs target limit h in
        rw (chosen, sum_by-append)
          (omega (
            arith,
            admit_sum_le g (soft_limit cs target) (hard_cost cs) (ranked cs),
            ranked_sum g cs,
          ))

    pub All-selection :
        (Q : BudgetCandidate P → Type 0)
        → select_candidates cs target limit ≡ ok (selected, ds)
        → All Q cs
        → All Q selected
    All-selection Q h all_cs =
        let (_, _, chosen, _) = select_inv cs target limit h in
        rw chosen (
          All-append Q (keep is_hard cs) _ (All-keep Q is_hard cs all_cs) (
            All-admit Q (soft_limit cs target) (hard_cost cs) (ranked cs)
              (All-sorted Q preferred (keep is_soft cs) (All-keep Q is_soft cs all_cs))))
