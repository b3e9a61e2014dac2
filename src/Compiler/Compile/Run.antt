-- ===== src/Compiler/Compile/Run.antt =====
-- What the parts of a successful `compile` have computed.
use ctx_ttl_oss.Prelude.{
  ℕ, ◌≡◌, sym, ap, false, ◌||◌, List, ◌++◌, nat_eq, string_eq, option_eq, list_eq, ltb, value_error,
  token_budget_exceeded, ok, raise_if, >>=_inv, raise_if-eq-ok, ok_inj, sum_by, String,
}
use ctx_ttl_oss.Json.{Json}
use ctx_ttl_oss.Models.Dimensions.{
  kind_eq, scope_eq, retention_eq, applicability_eq, authority_eq, status_eq, event_type_eq,
}
use ctx_ttl_oss.Models.Context.{ContextItem}
use ctx_ttl_oss.Compiler.Budget.{CompilationDecision, select_candidates}
use ctx_ttl_oss.Compiler.Units.{
  Message, normalize_messages, MessageUnit, estimate_all, message_units,
}
use ctx_ttl_oss.Compiler.Context.{CompilerConfig, Candidate, context_candidates}
use ctx_ttl_oss.Compiler.Compile.{
  latest_user_query, CompilationResult, message_candidates, selected_units, selected_items,
  kept_messages, ids_of_items, unit_cost, with_context, assemble, compile,
}

module _ (c : CompilerConfig) where
  -- What a successful call has computed.
  pub record Compiled (messages : List Json) (items : List ContextItem) (target limit reserve : ℕ)
      (r : CompilationResult) : Type 0 where
    pub normalized : List Message
    pub units : List MessageUnit
    pub query : String
    pub context_part : List Candidate
    pub initial : List CompilationDecision
    pub selected : List Candidate
    pub budgeted : List CompilationDecision
    pub accepted : normalize_messages messages ≡ ok normalized
    pub split : message_units c.estimate normalized reserve ≡ ok units
    pub queried : latest_user_query normalized ≡ ok query
    pub judged : context_candidates c items query ≡ ok (context_part, initial)
    pub chosen :
        select_candidates (context_part ++ message_candidates units) target limit
        ≡ ok (selected, budgeted)
    pub assembled : assemble c units selected (initial ++ budgeted) target limit ≡ ok r

  pub compile_inv :
      (messages : List Json) (items : List ContextItem) (target limit reserve : ℕ)
      {r : CompilationResult}
      → compile c messages items target limit reserve ≡ ok r
      → Compiled messages items target limit reserve r
  unfolding compile
  compile_inv messages items target limit reserve {r} h =
      let (_, _, h₁) = >>=_inv (raise_if (ltb target 1 || ltb limit target) value_error) _ h in
      let (_, _, h₂) = >>=_inv (raise_if (ltb reserve 1) value_error) _ h₁ in
      let (normalized, a, h₃) = >>=_inv (normalize_messages messages) _ h₂ in
      let (units, b, h₄) = >>=_inv (message_units c.estimate normalized reserve) _ h₃ in
      let (query, q, h₇) = >>=_inv (latest_user_query normalized) _ h₄ in
      let ((part, initial), d, h₅) = >>=_inv (context_candidates c items query) _ h₇ in
      let ((selected, budgeted), e, h₆) =
        >>=_inv (select_candidates (part ++ message_candidates units) target limit) _ h₅ in
      record {
        normalized = normalized;
        units = units;
        query = query;
        context_part = part;
        initial = initial;
        selected = selected;
        budgeted = budgeted;
        accepted = a;
        split = b;
        queried = q;
        judged = d;
        chosen = e;
        assembled = h₆;
      }

  -- what the last part has computed from the selection
  pub record Assembled (units : List MessageUnit) (selected : List Candidate)
      (decisions : List CompilationDecision) (target limit : ℕ) (r : CompilationResult)
      : Type 0 where
    pub sent :
        r.messages
        ≡ with_context c (kept_messages (selected_units selected) units) (selected_items selected)
    pub estimated : estimate_all c.estimate r.messages ≡ ok r.estimated_tokens
    pub within : ltb limit r.estimated_tokens ≡ false
    pub decided : r.decisions ≡ decisions
    pub source : r.source_message_tokens ≡ sum_by unit_cost units
    pub named : r.selected_context_ids ≡ ids_of_items (selected_items selected)

  pub assemble_inv :
      (units : List MessageUnit) (selected : List Candidate) (decisions : List CompilationDecision)
      (target limit : ℕ) {r : CompilationResult}
      → assemble c units selected decisions target limit ≡ ok r
      → Assembled units selected decisions target limit r
  unfolding assemble
  assemble_inv units selected decisions target limit {r} h =
      let (n, a, h₁) =
        >>=_inv
          (estimate_all c.estimate (
            with_context c (kept_messages (selected_units selected) units)
              (selected_items selected)))
          _ h in
      let (_, b, h₂) = >>=_inv (raise_if (ltb limit n) token_budget_exceeded) _ h₁ in
      let e = ok_inj h₂ in
      let sent = ap (λ x. x.messages) (sym e) in
      let count = ap (λ x. x.estimated_tokens) (sym e) in
      record {
        sent = sent;
        estimated = rw (sent, count) a;
        within = rw count (raise_if-eq-ok _ _ b);
        decided = ap (λ x. x.decisions) (sym e);
        source = ap (λ x. x.source_message_tokens) (sym e);
        named = ap (λ x. x.selected_context_ids) (sym e);
      }
