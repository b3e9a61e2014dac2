-- ===== src/Compiler/Compile/Lossless.antt =====
-- A request that fits its target is sent unchanged.
use ctx_ttl_oss.Prelude.Unique.{All-weaken}
use ctx_ttl_oss.Compiler.Compile.Run.{compile_inv, assemble_inv}
use ctx_ttl_oss.Compiler.Compile.Kept.{carries, contains-selected_units}
use ctx_ttl_oss.Prelude.{
  ℕ, ◌+◌, ◌≤◌, String, ◌≡◌, refl, sym, ap, subst, ◌∙◌, Bool, true, List, [], ◌∷◌, ◌++◌, arith,
  ==-refl, nat_eq, string_eq, option_eq, list_eq, leb, ok, ok_inj, keep, any, sum_by, sum_by-split,
  All, contains,
}
use ctx_ttl_oss.Json.{Json}
use ctx_ttl_oss.Models.Dimensions.{
  kind_eq, scope_eq, retention_eq, applicability_eq, authority_eq, status_eq, event_type_eq,
}
use ctx_ttl_oss.Models.Context.{ContextItem}
use ctx_ttl_oss.Compiler.Budget.{
  CompilationDecision, BudgetCandidate, cost_of, is_hard, is_soft, preferred, admit,
  select_candidates,
}
use ctx_ttl_oss.Prelude.Sort.{sorted, sum_by-sorted, any-sorted}
use ctx_ttl_oss.Compiler.Budget.Selection.{ranked, hard_cost, soft_limit, select_inv}
use ctx_ttl_oss.Compiler.Units.{Message, normalize_messages, MessageUnit}
use ctx_ttl_oss.Compiler.Context.{CompilerConfig, Candidate, judge_all, context_candidates}
use ctx_ttl_oss.Compiler.Compile.{
  items_from, CompilationResult, message_candidates, selected_units, selected_items, kept_messages,
  unit_cost, with_context, compile,
}
use ctx_ttl_oss.Compiler.Budget.Weights.{All-selection}
use ctx_ttl_oss.Prelude.Sort.{sorted, any-sorted, sum_by-sorted}
use ctx_ttl_oss.Prelude.Unique.{any-append, any-split}
use ctx_ttl_oss.Compiler.Units.Partition.{unit_messages, units-partition_messages}

admit-all :
    {P : Type 0} (limit used : ℕ) (cs : List (BudgetCandidate P))
    → used + sum_by cost_of cs ≤ limit
    → (admit limit used cs).0 ≡ cs
unfolding admit
admit-all limit used [] h = refl
admit-all limit used (c ∷ cs) h =
    let fits : leb (used + c.token_cost) limit ≡ true = ground arith in
    rw (fits, admit-all limit (used + c.token_cost) cs (omega arith)) refl

-- everything is selected
any-selection :
    {P : Type 0} (cs : List (BudgetCandidate P)) (target limit : ℕ)
    {selected : List (BudgetCandidate P)} {ds : List CompilationDecision}
    (p : BudgetCandidate P → Bool)
    → select_candidates cs target limit ≡ ok (selected, ds)
    → sum_by cost_of cs ≤ target
    → any p selected ≡ any p cs
any-selection cs target limit p h fits =
    let (_, _, chosen, _) = select_inv cs target limit h in
    let split = sum_by-split cost_of is_hard cs in
    let soft = sum_by-sorted preferred cost_of (keep is_soft cs) in
    rw
      (
        chosen,
        admit-all (soft_limit cs target) (hard_cost cs) (ranked cs) (omega arith),
        any-append,
        any-sorted,
      )
      (any-split p is_hard cs)

All-carried :
    (us : List MessageUnit) → All (λ u. any (carries u.index) (message_candidates us) ≡ true) us
All-carried [] = tt
All-carried (u ∷ us) =
    (rw (==-refl u.index) refl, All-weaken _ _ us (λ v h. ground arith) (All-carried us))

kept-All :
    (ids : List ℕ) (us : List MessageUnit)
    → All (λ u. contains u.index ids ≡ true) us
    → kept_messages ids us ≡ unit_messages us
kept-All ids [] h = refl
kept-All ids (u ∷ us) h = rw (h.0, kept-All ids us h.1) refl

abbrev CarriesNoItem : Candidate → Type 0
CarriesNoItem b = (rest : List ContextItem) → items_from b.payload rest ≡ rest

units-CarriesNoItem : (us : List MessageUnit) → All CarriesNoItem (message_candidates us)
units-CarriesNoItem [] = tt
units-CarriesNoItem (u ∷ us) = (λ rest. refl, units-CarriesNoItem us)

no_items : (bs : List Candidate) → All CarriesNoItem bs → selected_items bs ≡ []
no_items [] h = refl
no_items (b ∷ bs) h = h.0 (selected_items bs) ∙ no_items bs h.1

units_cost : (us : List MessageUnit) → sum_by cost_of (message_candidates us) ≡ sum_by unit_cost us
units_cost [] = refl
units_cost (u ∷ us) = omega (arith, units_cost us)

no_candidates :
    (c : CompilerConfig) (query : String) {bs : List Candidate} {ds : List CompilationDecision}
    → context_candidates c [] query ≡ ok (bs, ds)
    → [] ≡ bs
unfolding context_candidates judge_all sorted
no_candidates c query h = ap (λ (p : List Candidate × List CompilationDecision). p.0) (ok_inj h)

-- Without context items, and where the request costs at most the target, a `compile` that returns a
-- result sends the messages of the request unchanged.
pub compile_lossless :
    (c : CompilerConfig) (messages : List Json) (target limit reserve : ℕ) {r : CompilationResult}
    {ms : List Message}
    → compile c messages [] target limit reserve ≡ ok r
    → normalize_messages messages ≡ ok ms
    → r.source_message_tokens ≤ target
    → r.messages ≡ ms
compile_lossless c messages target limit reserve {r} {ms} h accepted fits =
    let run = compile_inv c messages [] target limit reserve h in
    let end =
      assemble_inv c run.units run.selected (run.initial ++ run.budgeted) target limit
        run.assembled in
    let chosen =
      subst
        (λ (part : List Candidate).
          select_candidates (part ++ message_candidates run.units) target limit
          ≡ ok (run.selected, run.budgeted))
        (sym (no_candidates c run.query run.judged)) run.chosen in
    let source = end.source in
    let cost = units_cost run.units in
    let items = no_items run.selected (
      All-selection (message_candidates run.units) target limit CarriesNoItem chosen
        (units-CarriesNoItem run.units)) in
    let every =
      All-weaken _ _ run.units
        (λ u found.
          contains-selected_units u.index run.selected
          ∙ any-selection (message_candidates run.units) target limit (carries u.index) chosen
              (omega arith)
          ∙ found)
        (All-carried run.units) in
    end.sent
    ∙ ap (with_context c (kept_messages (selected_units run.selected) run.units)) items
    ∙ kept-All (selected_units run.selected) run.units every
    ∙ units-partition_messages c.estimate run.normalized reserve run.split
    ∙ ok_inj (sym run.accepted ∙ accepted)
