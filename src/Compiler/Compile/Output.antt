-- ===== src/Compiler/Compile/Output.antt =====
-- What `compile` promises its caller.
use ctx_ttl_oss.Compiler.Units.Costs.{estimate_all_sum}
use ctx_ttl_oss.Prelude.{
  ℕ, ◌≤◌, ◌≡◌, sym, ap, ◌∙◌, List, [], ◌∷◌, ◌++◌, arith, nat_eq, string_eq, option_eq, list_eq, ok,
  ok_inj, sum_by,
}
use ctx_ttl_oss.Compiler.Compile.Run.{compile_inv, assemble_inv}
use ctx_ttl_oss.Compiler.Compile.Kept.{
  hard_messages, kept-hard, All-IsKept, insert-IsSubsequence, IsSubsequence,
}
use ctx_ttl_oss.Json.{Json}
use ctx_ttl_oss.Models.Dimensions.{
  kind_eq, scope_eq, retention_eq, applicability_eq, authority_eq, status_eq, event_type_eq,
}
use ctx_ttl_oss.Models.Context.{ContextItem}
use ctx_ttl_oss.Compiler.Units.{Message, normalize_messages, MessageUnit, message_units}
use ctx_ttl_oss.Compiler.Rendering.{insert_context_messages}
use ctx_ttl_oss.Compiler.Context.{CompilerConfig}
use ctx_ttl_oss.Compiler.Compile.{
  CompilationResult, selected_units, selected_items, with_context, compile,
}

module _ (c : CompilerConfig) where
  pub sent-IsSubsequence :
      (ms : List Message) (items : List ContextItem) {xs : List Message}
      → IsSubsequence xs ms
      → IsSubsequence xs (with_context c ms items)
  unfolding insert_context_messages
  sent-IsSubsequence ms [] s = s
  sent-IsSubsequence ms (i ∷ is) s = insert-IsSubsequence _ ms s

-- Where `compile` returns a result, the estimate it reports is the sum of the estimates of the
-- messages it sends, and this sum is at most the hard limit.
pub compile_within_limit :
    (c : CompilerConfig) (messages : List Json) (items : List ContextItem)
    (target limit reserve : ℕ) {r : CompilationResult}
    → compile c messages items target limit reserve ≡ ok r
    → (r.estimated_tokens ≡ sum_by c.estimate r.messages) × (sum_by c.estimate r.messages ≤ limit)
compile_within_limit c messages items target limit reserve {r} h =
    let run = compile_inv c messages items target limit reserve h in
    let end =
      assemble_inv c run.units run.selected (run.initial ++ run.budgeted) target limit
        run.assembled in
    let total = estimate_all_sum c.estimate r.messages end.estimated in
    (total, rw (sym total) (let within = end.within in ground arith))

-- Where `compile` returns a result, the messages of the mandatory units are among the messages sent
-- to the provider, in the order of the request.
pub compile-keeps_hard :
    (c : CompilerConfig) (messages : List Json) (items : List ContextItem)
    (target limit reserve : ℕ) {r : CompilationResult} {ms : List Message} {us : List MessageUnit}
    → compile c messages items target limit reserve ≡ ok r
    → normalize_messages messages ≡ ok ms
    → message_units c.estimate ms reserve ≡ ok us
    → IsSubsequence (hard_messages us) r.messages
compile-keeps_hard c messages items target limit reserve {r} {ms} {us} h accepted split =
    let run = compile_inv c messages items target limit reserve h in
    let end =
      assemble_inv c run.units run.selected (run.initial ++ run.budgeted) target limit
        run.assembled in
    let same_messages = ok_inj (sym accepted ∙ run.accepted) in
    let same_units : us ≡ run.units =
      ok_inj (sym split ∙ ap (λ x. message_units c.estimate x reserve) same_messages ∙ run.split) in
    rw (same_units, end.sent)
      (sent-IsSubsequence c _ (selected_items run.selected) (
        kept-hard (selected_units run.selected) run.units
          (All-IsKept c run.context_part run.units target limit run.chosen)))
