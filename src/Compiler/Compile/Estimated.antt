-- ===== src/Compiler/Compile/Estimated.antt =====
-- Every message that `compile` sends has an estimate.
use ctx_ttl_oss.Prelude.Unique.{All-weaken}
use ctx_ttl_oss.Prelude.{
  ℕ, suc, ◌+◌, ◌-◌, ◌≡◌, refl, ap, subst, ◌∙◌, inl, inr, none, List, [], ◌∷◌, ◌++◌, map, nat_eq,
  string_eq, option_eq, list_eq, Bool-cases, ok, >>=_inv, ok_inj, length, sum_by, All-append, All,
  contains,
}
use ctx_ttl_oss.Models.Dimensions.{
  kind_eq, scope_eq, retention_eq, applicability_eq, authority_eq, status_eq, event_type_eq,
}
use ctx_ttl_oss.Models.Context.{ContextItem}
use ctx_ttl_oss.Compiler.Budget.{CompilationDecision, select_candidates}
use ctx_ttl_oss.Prelude.Sort.{sorted}
use Prim.Native.Nat.{max}
use ctx_ttl_oss.Compiler.Units.{
  Message, RawUnit, raw_units, is_instruction, grouped_units, MessageUnit, cutoff, estimate_message,
  estimate_all, build_units, message_units,
}
use ctx_ttl_oss.Compiler.Rendering.{
  renders_before, render_context_items_with, insert_after_instructions, insert_context_messages,
}
use ctx_ttl_oss.Compiler.Context.{CompilerConfig, Payload, of_item, of_unit, Candidate}
use ctx_ttl_oss.Compiler.Compile.{
  items_from, message_candidates, selected_units, selected_items, kept_messages, with_context,
}
use ctx_ttl_oss.Compiler.Budget.Weights.{All-selection}
use ctx_ttl_oss.Compiler.Units.Costs.{estimate_message_inv}
use ctx_ttl_oss.Compiler.Context.Costs.{IsItemCandidate}
use ctx_ttl_oss.Prelude.Sort.{sorted}
use ctx_ttl_oss.Prelude.Unique.{All-sorted}
use Prim.Native.Nat.{max}

-- the estimator gives a positive number for the message
abbrev pub Priced : (Message → ℕ) → Message → Type 0
Priced estimate m = estimate_message estimate m ≡ ok (estimate m)

module _ (estimate : Message → ℕ) where
  message-Priced : (m : Message) {n : ℕ} → estimate_message estimate m ≡ ok n → Priced estimate m
  message-Priced m h = h ∙ ap ok (estimate_message_inv estimate m h)

  pub estimate_all-returns :
      (ms : List Message)
      → All (Priced estimate) ms
      → estimate_all estimate ms ≡ ok (sum_by estimate ms)
  unfolding estimate_all
  estimate_all-returns [] h = refl
  estimate_all-returns (m ∷ ms) h = rw (h.0, estimate_all-returns ms h.1) refl

  messages-Priced :
      (ms : List Message) {n : ℕ} → estimate_all estimate ms ≡ ok n → All (Priced estimate) ms
  unfolding estimate_all
  messages-Priced [] h = tt
  messages-Priced (m ∷ ms) h =
      let (a, first, h₁) = >>=_inv (estimate_message estimate m) _ h in
      let (b, others, h₂) = >>=_inv (estimate_all estimate ms) (λ b. ok (a + b)) h₁ in
      (message-Priced m first, messages-Priced ms others)

  abbrev pub UnitPriced : MessageUnit → Type 0
  UnitPriced u = All (Priced estimate) u.messages

  build-UnitPriced :
      (cut denominator position : ℕ) (us : List RawUnit) {vs : List MessageUnit}
      → build_units estimate cut denominator position us ≡ ok vs
      → All UnitPriced vs
  unfolding build_units
  build-UnitPriced cut denominator position [] h = subst (All UnitPriced) (ok_inj h) tt
  build-UnitPriced cut denominator position (u ∷ us) h =
      let (cost, a, h₁) = >>=_inv (estimate_all estimate u.messages) _ h in
      let (rest, b, h₂) = >>=_inv (build_units estimate cut denominator (suc position) us) _ h₁ in
      subst (All UnitPriced) (ok_inj h₂)
        (messages-Priced u.messages a, build-UnitPriced cut denominator (suc position) us b)

  pub units-UnitPriced :
      (messages : List Message) (reserve : ℕ) {us : List MessageUnit}
      → message_units estimate messages reserve ≡ ok us
      → All UnitPriced us
  unfolding message_units
  units-UnitPriced messages reserve h =
      let (raw, a, h₁) = >>=_inv (raw_units 0 none messages) _ h in
      let grouped = grouped_units none raw in
      build-UnitPriced (cutoff reserve grouped) (max 1 (length grouped - 1)) 0 grouped h₁

  kept-Priced :
      (ids : List ℕ) (us : List MessageUnit)
      → All UnitPriced us
      → All (Priced estimate) (kept_messages ids us)
  kept-Priced ids [] h = tt
  kept-Priced ids (u ∷ us) h = elim (Bool-cases (contains u.index ids)) [
    | inl chosen ↦
        rw chosen (All-append (Priced estimate) u.messages _ h.0 (kept-Priced ids us h.1))
    | inr left_out ↦ rw left_out (kept-Priced ids us h.1)
  ]

  insert-Priced :
      (ctx ms : List Message)
      → All (Priced estimate) ctx
      → All (Priced estimate) ms
      → All (Priced estimate) (insert_after_instructions ctx ms)
  unfolding insert_after_instructions
  insert-Priced ctx [] h k = h
  insert-Priced ctx (m ∷ ms) h k = elim (Bool-cases (is_instruction m.role)) [
    | inl instruction ↦ rw instruction (k.0, insert-Priced ctx ms h k.1)
    | inr other ↦ rw other (All-append (Priced estimate) ctx (m ∷ ms) h k)
  ]

module _ (c : CompilerConfig) where
  abbrev ItemPriced : ContextItem → Type 0
  ItemPriced i = Priced c.estimate (c.render i)

  abbrev PayloadPriced : Payload → Type 0
  PayloadPriced (of_item i) = ItemPriced i
  PayloadPriced (of_unit u) = Unit

  item-PayloadPriced : (b : Candidate) → IsItemCandidate c b → PayloadPriced b.payload
  item-PayloadPriced b (_, (i, carried, priced)) =
      rw carried (message-Priced c.estimate (c.render i) priced)

  units-PayloadPriced :
      (us : List MessageUnit) → All (λ b. PayloadPriced b.payload) (message_candidates us)
  units-PayloadPriced [] = tt
  units-PayloadPriced (u ∷ us) = (tt, units-PayloadPriced us)

  from-ItemPriced :
      (p : Payload) (is : List ContextItem)
      → PayloadPriced p
      → All ItemPriced is
      → All ItemPriced (items_from p is)
  from-ItemPriced (of_item i) is h k = (h, k)
  from-ItemPriced (of_unit u) is h k = k

  selected-ItemPriced :
      (bs : List Candidate)
      → All (λ b. PayloadPriced b.payload) bs
      → All ItemPriced (selected_items bs)
  selected-ItemPriced [] h = tt
  selected-ItemPriced (b ∷ bs) h =
      from-ItemPriced b.payload (selected_items bs) h.0 (selected-ItemPriced bs h.1)

  rendered-Priced :
      (is : List ContextItem) → All ItemPriced is → All (Priced c.estimate) (map c.render is)
  rendered-Priced [] h = tt
  rendered-Priced (i ∷ is) h = (h.0, rendered-Priced is h.1)

  with_context-Priced :
      (ms : List Message) (items : List ContextItem)
      → All (Priced c.estimate) ms
      → All ItemPriced items
      → All (Priced c.estimate) (with_context c ms items)
  unfolding insert_context_messages render_context_items_with
  with_context-Priced ms [] h k = h
  with_context-Priced ms (i ∷ is) h k =
      insert-Priced c.estimate (map c.render (sorted renders_before (i ∷ is))) ms
        (rendered-Priced (sorted renders_before (i ∷ is))
          (All-sorted ItemPriced renders_before (i ∷ is) k))
        h

  pub sent-Priced :
      (part : List Candidate) (ms : List Message) (us : List MessageUnit) (target limit reserve : ℕ)
      {selected : List Candidate} {ds : List CompilationDecision}
      → All (IsItemCandidate c) part
      → message_units c.estimate ms reserve ≡ ok us
      → select_candidates (part ++ message_candidates us) target limit ≡ ok (selected, ds)
      → All
          (Priced c.estimate)
          (with_context c (kept_messages (selected_units selected) us) (selected_items selected))
  sent-Priced part ms us target limit reserve {selected} sound split chosen =
      with_context-Priced (kept_messages (selected_units selected) us) (selected_items selected)
        (kept-Priced c.estimate (selected_units selected) us
          (units-UnitPriced c.estimate ms reserve split))
        (selected-ItemPriced selected (
          All-selection (part ++ message_candidates us) target limit (λ b. PayloadPriced b.payload)
            chosen
            (All-append _ part (message_candidates us)
              (All-weaken (IsItemCandidate c) (λ b. PayloadPriced b.payload) part item-PayloadPriced
                sound)
              (units-PayloadPriced us))))
