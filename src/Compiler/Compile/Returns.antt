-- ===== src/Compiler/Compile/Returns.antt =====
-- When `compile` returns a result.
use ctx_ttl_oss.Compiler.Compile.Run.{compile_inv}
use ctx_ttl_oss.Prelude.{
  ℕ, ◌+◌, ◌≤◌, ◌≡◌, refl, sym, ap, ◌∙◌, ◌↔◌, false, ◌||◌, List, [], ◌∷◌, ◌++◌, arith, nat_eq,
  string_eq, option_eq, list_eq, ltb, ok, ok_inj, keep, sum_by, All, String,
}
use ctx_ttl_oss.Json.{Json}
use ctx_ttl_oss.Models.Dimensions.{
  kind_eq, scope_eq, retention_eq, applicability_eq, authority_eq, status_eq, event_type_eq,
}
use ctx_ttl_oss.Models.Context.{ContextItem}
use ctx_ttl_oss.Compiler.Budget.{
  CompilationDecision, BudgetCandidate, cost_of, is_hard, decide_hard, admit, select_candidates,
}
use ctx_ttl_oss.Compiler.Budget.Selection.{
  ranked, hard_cost, soft_limit, select_inv, selection_bounds,
}
use ctx_ttl_oss.Compiler.Units.{Message, normalize_messages, MessageUnit, message_units}
use ctx_ttl_oss.Compiler.Context.{CompilerConfig, Candidate, context_candidates}
use ctx_ttl_oss.Compiler.Compile.{
  latest_user_query, CompilationResult, message_candidates, selected_units, selected_items,
  kept_messages, ids_of_items, unit_cost, with_context, assemble, compile,
}
use ctx_ttl_oss.Compiler.Units.Costs.{units-IsCosted}
use ctx_ttl_oss.Compiler.Units.Indices.{units-IsRising}
use ctx_ttl_oss.Compiler.Context.Costs.{IsItemCandidate, context_candidates_sound}
use ctx_ttl_oss.Compiler.Compile.Accounts.{message_cost, context_cost, selection_sent}
use ctx_ttl_oss.Compiler.Compile.Estimated.{estimate_all-returns, sent-Priced}

select-returns :
    {P : Type 0} (cs : List (BudgetCandidate P)) (target limit : ℕ)
    → 1 ≤ target
    → target ≤ limit
    → hard_cost cs ≤ limit
    → (selected : List (BudgetCandidate P)) × (ds : List CompilationDecision) × (select_candidates
          cs target limit
        ≡ ok (selected, ds))
unfolding select_candidates
select-returns cs target limit one below fits =
    let guard : (ltb target 1 || ltb limit target) ≡ false = ground arith in
    let over : ltb limit (hard_cost cs) ≡ false = ground arith in
    (
      keep is_hard cs ++ (admit (soft_limit cs target) (hard_cost cs) (ranked cs)).0,
      decide_hard (keep is_hard cs) ++ (admit (soft_limit cs target) (hard_cost cs) (ranked cs)).1,
      rw (guard, over) refl,
    )

cost_parts :
    (bs : List Candidate) → sum_by cost_of bs ≡ sum_by message_cost bs + sum_by context_cost bs
cost_parts [] = refl
cost_parts (b ∷ bs) = let rest = cost_parts bs in ground arith

module _ (c : CompilerConfig) where
  assemble-returns :
      (part : List Candidate) (ms : List Message) (us : List MessageUnit)
      (decisions : List CompilationDecision) (target limit reserve : ℕ) {selected : List Candidate}
      {ds : List CompilationDecision}
      → All (IsItemCandidate c) part
      → message_units c.estimate ms reserve ≡ ok us
      → select_candidates (part ++ message_candidates us) target limit ≡ ok (selected, ds)
      → (r : CompilationResult) × (assemble c us selected decisions target limit ≡ ok r)
  unfolding assemble
  assemble-returns part ms us decisions target limit reserve {selected} sound split chosen =
      let sent =
        with_context c (kept_messages (selected_units selected) us) (selected_items selected) in
      let priced =
        estimate_all-returns c.estimate sent
          (sent-Priced c part ms us target limit reserve sound split chosen) in
      let total =
        selection_sent c part us target limit sound (units-IsRising c.estimate ms reserve split)
          (units-IsCosted c.estimate ms reserve split) chosen in
      let (bound, _) = selection_bounds (part ++ message_candidates us) target limit chosen in
      let parts = cost_parts selected in
      let within : ltb limit (sum_by c.estimate sent) ≡ false = ground arith in
      (
        record {
          messages = sent;
          selected_context_ids = ids_of_items (selected_items selected);
          source_message_tokens = sum_by unit_cost us;
          estimated_tokens = sum_by c.estimate sent;
          target_tokens = target;
          max_tokens = limit;
          decisions = decisions;
        },
        rw (priced, within) refl,
      )

put_together :
    (c : CompilerConfig) (messages : List Json) (items : List ContextItem)
    (target limit reserve : ℕ) (ms : List Message) (us : List MessageUnit) (query : String)
    (part : List Candidate) (initial : List CompilationDecision) (selected : List Candidate)
    (ds : List CompilationDecision) {r : CompilationResult}
    → 1 ≤ target
    → target ≤ limit
    → 1 ≤ reserve
    → normalize_messages messages ≡ ok ms
    → message_units c.estimate ms reserve ≡ ok us
    → latest_user_query ms ≡ ok query
    → context_candidates c items query ≡ ok (part, initial)
    → select_candidates (part ++ message_candidates us) target limit ≡ ok (selected, ds)
    → assemble c us selected (initial ++ ds) target limit ≡ ok r
    → compile c messages items target limit reserve ≡ ok r
unfolding compile
put_together c messages items target limit reserve ms us query part initial selected ds one below
      some_turn accepted split queried judged chosen assembled =
    let guard : (ltb target 1 || ltb limit target) ≡ false = ground arith in
    let turn : ltb reserve 1 ≡ false = ground arith in
    rw (guard, turn, accepted, split, queried, judged, chosen) assembled

-- For a request whose messages are accepted and priced, whose query can be read and whose context
-- candidates are priced, with 1 <= target <= limit and a reserve of at least one turn, `compile` returns a result just where
-- the mandatory candidates fit the limit.
pub compile_returns_iff :
    (c : CompilerConfig) (messages : List Json) (items : List ContextItem)
    (target limit reserve : ℕ) (ms : List Message) (us : List MessageUnit) (query : String)
    (part : List Candidate) (initial : List CompilationDecision)
    → 1 ≤ target
    → target ≤ limit
    → 1 ≤ reserve
    → normalize_messages messages ≡ ok ms
    → message_units c.estimate ms reserve ≡ ok us
    → latest_user_query ms ≡ ok query
    → context_candidates c items query ≡ ok (part, initial)
    → ((r : CompilationResult) × (compile c messages items target limit reserve ≡ ok r))
      ↔ (hard_cost (part ++ message_candidates us) ≤ limit)
compile_returns_iff c messages items target limit reserve ms us query part initial one below
      some_turn accepted split queried judged =
    (fits, returns)
  where
    fits :
        (r : CompilationResult) × (compile c messages items target limit reserve ≡ ok r)
        → hard_cost (part ++ message_candidates us) ≤ limit
    fits (r, h) =
        let run = compile_inv c messages items target limit reserve h in
        let same_messages : ms ≡ run.normalized = ok_inj (sym accepted ∙ run.accepted) in
        let same_units : us ≡ run.units =
          ok_inj
            (sym split ∙ ap (λ x. message_units c.estimate x reserve) same_messages ∙ run.split) in
        let same_query : query ≡ run.query =
          ok_inj (sym queried ∙ ap latest_user_query same_messages ∙ run.queried) in
        let same_part : part ≡ run.context_part =
          ap (λ (p : List Candidate × List CompilationDecision). p.0)
            (ok_inj (sym judged ∙ ap (context_candidates c items) same_query ∙ run.judged)) in
        let (bound, _, _, _) =
          select_inv (run.context_part ++ message_candidates run.units) target limit run.chosen in
        rw (same_part, same_units) bound

    returns :
        hard_cost (part ++ message_candidates us) ≤ limit
        → (r : CompilationResult) × (compile c messages items target limit reserve ≡ ok r)
    returns h =
        let (selected, ds, chosen) =
          select-returns (part ++ message_candidates us) target limit one below h in
        let (sound, _) = context_candidates_sound c items query judged in
        let (r, assembled) =
          assemble-returns c part ms us (initial ++ ds) target limit reserve sound split chosen in
        (
          r,
          put_together c messages items target limit reserve ms us query part initial selected ds
              one below some_turn accepted split queried judged chosen assembled,
        )
