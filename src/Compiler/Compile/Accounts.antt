-- ===== src/Compiler/Compile/Accounts.antt =====
-- The selected candidates cost what the messages that are sent cost.
use ctx_ttl_oss.Prelude.Unique.{All-weaken}
use ctx_ttl_oss.Compiler.Budget.Weights.{selection_weight, All-selection}
use ctx_ttl_oss.Compiler.Context.Costs.{IsItemCandidate}
use ctx_ttl_oss.Compiler.Rendering.{
  renders_before, render_context_items_with, insert_after_instructions, insert_context_messages,
}
use ctx_ttl_oss.Prelude.Sort.{sorted, sum_by-sorted}
use ctx_ttl_oss.Models.Context.{ContextItem}
use ctx_ttl_oss.Prelude.Sums.{sum_by-zero, sum_by-All, All-both, sum_swap, sum_by-map}
use ctx_ttl_oss.Compiler.Compile.Kept.{carries, contains-selected_units}
use ctx_ttl_oss.Prelude.{
  ℕ, suc, ◌+◌, ◌≤◌, ◌≡◌, refl, sym, ap, ◌∙◌, inl, inr, List, [], ◌∷◌, ◌++◌, map, arith, nat_eq,
  string_eq, option_eq, list_eq, if◌then◌else◌, Bool-cases, ok, any, sum_by, sum_by-append,
  All-append, All, contains,
}
use ctx_ttl_oss.Models.Dimensions.{
  kind_eq, scope_eq, retention_eq, applicability_eq, authority_eq, status_eq, event_type_eq,
}
use ctx_ttl_oss.Compiler.Budget.{CompilationDecision, select_candidates, is_context}
use ctx_ttl_oss.Compiler.Units.{Message, is_instruction, MessageUnit}
use ctx_ttl_oss.Compiler.Context.{CompilerConfig, Payload, of_item, of_unit, Candidate}
use ctx_ttl_oss.Compiler.Compile.{
  message_candidate, message_candidates, items_from, selected_units, selected_items, kept_messages,
  with_context,
}
use ctx_ttl_oss.Compiler.Units.Costs.{estimate_message_inv, IsCosted, unit_indices}
use ctx_ttl_oss.Compiler.Units.Indices.{IsRising}

-- the cost of a unit, where the candidate carries it
abbrev share : MessageUnit → Candidate → ℕ
share u b = if carries u.index b then u.token_cost else 0

abbrev pub message_cost : Candidate → ℕ
message_cost b = if is_context b.candidate_type then 0 else b.token_cost

abbrev pub context_cost : Candidate → ℕ
context_cost b = if is_context b.candidate_type then b.token_cost else 0

abbrev Above : ℕ → MessageUnit → Type 0
Above n u = n ≤ u.index

rising-Above :
    (n m : ℕ) (us : List MessageUnit) → n ≤ m → IsRising m (unit_indices us) → All (Above n) us
rising-Above n m [] h r = tt
rising-Above n m (u ∷ us) h r =
    (omega (arith, r.0), rising-Above n (suc u.index) us (omega (arith, r.0)) r.1)

no_share :
    (u : MessageUnit) (us : List MessageUnit)
    → All (Above (suc u.index)) us
    → sum_by (share u) (message_candidates us) ≡ 0
no_share u [] h = refl
no_share u (v ∷ us) h = let rest = no_share u us h.1 in let first = h.0 in ground arith

no_share_of :
    (v : MessageUnit) (us : List MessageUnit)
    → All (Above (suc v.index)) us
    → sum_by (λ u. share u (message_candidate v)) us ≡ 0
no_share_of v [] h = refl
no_share_of v (u ∷ us) h = let rest = no_share_of v us h.1 in let first = h.0 in ground arith

-- every unit is carried by one candidate
whole_shares :
    (n : ℕ) (us : List MessageUnit)
    → IsRising n (unit_indices us)
    → All (λ u. sum_by (share u) (message_candidates us) ≡ u.token_cost) us
whole_shares n [] r = tt
whole_shares n (u ∷ us) r =
    let later = rising-Above (suc u.index) (suc u.index) us (omega arith) r.1 in
    let none_of_u = no_share u us later in
    (
      ground arith,
      All-both _ _ _ us (λ v behind whole. ground arith) later (whole_shares (suc u.index) us r.1),
    )

-- and every candidate of a unit carries one unit
carried :
    (n : ℕ) (us : List MessageUnit)
    → IsRising n (unit_indices us)
    → All (λ v. sum_by (λ u. share u (message_candidate v)) us ≡ v.token_cost) us
carried n [] r = tt
carried n (u ∷ us) r =
    let later = rising-Above (suc u.index) (suc u.index) us (omega arith) r.1 in
    let none_of_u = no_share_of u us later in
    (
      ground arith,
      All-both _ _ _ us (λ v behind whole. ground arith) later (carried (suc u.index) us r.1),
    )

All-candidates :
    (Q : Candidate → Type 0) (us : List MessageUnit)
    → All (λ v. Q (message_candidate v)) us
    → All Q (message_candidates us)
All-candidates Q [] h = tt
All-candidates Q (u ∷ us) h = (h.0, All-candidates Q us h.1)

-- the share of a unit in the selection is its cost, if it was selected
share_selected :
    (u : MessageUnit) (bs : List Candidate)
    → sum_by (share u) bs ≤ u.token_cost
    → sum_by (share u) bs ≡ (if any (carries u.index) bs then u.token_cost else 0)
share_selected u [] h = refl
share_selected u (b ∷ bs) h = elim (Bool-cases (carries u.index b)) [
  | inl here ↦ rw here (let h' = rw here at h in omega arith)
  | inr elsewhere ↦
      rw elsewhere (let h' = rw elsewhere at h in omega (arith, share_selected u bs (omega arith)))
]

abbrev kept_cost : List ℕ → MessageUnit → ℕ
kept_cost ids u = if contains u.index ids then u.token_cost else 0

kept_messages_cost :
    (estimate : Message → ℕ) (ids : List ℕ) (us : List MessageUnit)
    → All (IsCosted estimate) us
    → sum_by estimate (kept_messages ids us) ≡ sum_by (kept_cost ids) us
kept_messages_cost estimate ids [] h = refl
kept_messages_cost estimate ids (u ∷ us) h = elim (Bool-cases (contains u.index ids)) [
  | inl chosen ↦
      rw (chosen, sum_by-append) (omega (arith, h.0, kept_messages_cost estimate ids us h.1))
  | inr left_out ↦ rw left_out (omega (arith, kept_messages_cost estimate ids us h.1))
]

module _ (c : CompilerConfig) where
  abbrev pub rendered_cost : ContextItem → ℕ
  rendered_cost i = c.estimate (c.render i)

  abbrev payload_cost : Payload → ℕ
  payload_cost (of_item i) = rendered_cost i
  payload_cost (of_unit u) = 0

  items_cost :
      (p : Payload) (rest : List ContextItem)
      → sum_by rendered_cost (items_from p rest) ≡ payload_cost p + sum_by rendered_cost rest
  items_cost (of_item i) rest = refl
  items_cost (of_unit u) rest = omega arith

  selected_items_cost :
      (bs : List Candidate)
      → sum_by rendered_cost (selected_items bs) ≡ sum_by (λ b. payload_cost b.payload) bs
  selected_items_cost [] = refl
  selected_items_cost (b ∷ bs) =
      omega (arith, items_cost b.payload (selected_items bs), selected_items_cost bs)

  insert_cost :
      (ctx ms : List Message)
      → sum_by c.estimate (insert_after_instructions ctx ms)
        ≡ sum_by c.estimate ms + sum_by c.estimate ctx
  unfolding insert_after_instructions
  insert_cost ctx [] = omega arith
  insert_cost ctx (m ∷ ms) = elim (Bool-cases (is_instruction m.role)) [
    | inl instruction ↦ rw instruction (omega (arith, insert_cost ctx ms))
    | inr other ↦ rw (other, sum_by-append) (omega arith)
  ]

  with_context_cost :
      (ms : List Message) (items : List ContextItem)
      → sum_by c.estimate (with_context c ms items)
        ≡ sum_by c.estimate ms + sum_by rendered_cost items
  unfolding insert_context_messages render_context_items_with
  with_context_cost ms [] = omega arith
  with_context_cost ms (i ∷ is) =
      insert_cost (map c.render (sorted renders_before (i ∷ is))) ms
      ∙ ap (λ n. sum_by c.estimate ms + n)
          (sum_by-map c.estimate c.render (sorted renders_before (i ∷ is))
            ∙ sum_by-sorted renders_before rendered_cost (i ∷ is))

  -- what the sums need to know of a candidate
  abbrev IsAccounted : List MessageUnit → Candidate → Type 0
  IsAccounted us b =
      (sum_by (λ u. share u b) us ≡ message_cost b) × (payload_cost b.payload ≡ context_cost b)

  item-IsAccounted :
      (us : List MessageUnit) (b : Candidate) → IsItemCandidate c b → IsAccounted us b
  item-IsAccounted us b (type, (i, carried_item, priced)) = (
    sum_by-All (λ u. share u b) (λ u. 0) us (no_unit us) ∙ sum_by-zero us ∙ rw type refl,
    rw (carried_item, type) (sym (estimate_message_inv c.estimate (c.render i) priced)),
  )
    where
      no_unit : (vs : List MessageUnit) → All (λ u. share u b ≡ 0) vs
      no_unit [] = tt
      no_unit (v ∷ vs) = (rw carried_item refl, no_unit vs)

  All-IsAccounted :
      (part : List Candidate) (us : List MessageUnit)
      → All (IsItemCandidate c) part
      → IsRising 0 (unit_indices us)
      → All (IsAccounted us) (part ++ message_candidates us)
  All-IsAccounted part us sound rising =
      All-append (IsAccounted us) part (message_candidates us)
        (All-weaken (IsItemCandidate c) (IsAccounted us) part (item-IsAccounted us) sound)
        (All-candidates (IsAccounted us) us
          (All-weaken _ _ us (λ v whole. (whole, refl)) (carried 0 us rising)))

  -- a unit has at most its cost as its share in a selection
  shares_bounded :
      (part : List Candidate) (us : List MessageUnit) (target limit : ℕ) {selected : List Candidate}
      {ds : List CompilationDecision}
      → All (IsItemCandidate c) part
      → IsRising 0 (unit_indices us)
      → select_candidates (part ++ message_candidates us) target limit ≡ ok (selected, ds)
      → All (λ u. sum_by (share u) selected ≤ u.token_cost) us
  shares_bounded part us target limit {selected} sound rising chosen =
      All-weaken _ _ us
        (λ u whole.
          let bound =
            selection_weight (part ++ message_candidates us) target limit (share u) chosen in
          let all_of_u = sum_by-append (share u) part (message_candidates us) in
          let none_in_part = sum_by-All (share u) (λ b. 0) part (no_item u part sound) in
          let zero_sum = sum_by-zero part in omega arith)
        (whole_shares 0 us rising)
    where
      no_item :
          (u : MessageUnit) (bs : List Candidate)
          → All (IsItemCandidate c) bs
          → All (λ b. share u b ≡ 0) bs
      no_item u [] h = tt
      no_item u (b ∷ bs) h =
          let (_, (i, carried_item, _)) = h.0 in (rw carried_item refl, no_item u bs h.1)

  pub selection_sent :
      (part : List Candidate) (us : List MessageUnit) (target limit : ℕ) {selected : List Candidate}
      {ds : List CompilationDecision}
      → All (IsItemCandidate c) part
      → IsRising 0 (unit_indices us)
      → All (IsCosted c.estimate) us
      → select_candidates (part ++ message_candidates us) target limit ≡ ok (selected, ds)
      → sum_by c.estimate
          (with_context c (kept_messages (selected_units selected) us) (selected_items selected))
        ≡ sum_by message_cost selected + sum_by context_cost selected
  selection_sent part us target limit {selected} sound rising costed chosen =
      let ids = selected_units selected in
      let accounted =
        All-selection (part ++ message_candidates us) target limit (IsAccounted us) chosen
          (All-IsAccounted part us sound rising) in
      let sent = with_context_cost (kept_messages ids us) (selected_items selected) in
      let kept = kept_messages_cost c.estimate ids us costed in
      let shares =
        sum_by-All (kept_cost ids) (λ u. sum_by (share u) selected) us
          (All-weaken _ _ us
            (λ u bounded.
              rw (contains-selected_units u.index selected)
                (sym (share_selected u selected bounded)))
            (shares_bounded part us target limit sound rising chosen)) in
      let swapped = sum_swap share us selected in
      let messages =
        sum_by-All (λ b. sum_by (λ u. share u b) us) message_cost selected
          (All-weaken _ _ selected (λ b h. h.0) accounted) in
      let items =
        sum_by-All (λ b. payload_cost b.payload) context_cost selected
          (All-weaken _ _ selected (λ b h. h.1) accounted) in
      let items_sent = selected_items_cost selected in omega arith
