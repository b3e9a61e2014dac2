-- ===== src/Compiler/Compile/Kept.antt =====
-- The messages of mandatory units are sent.
use ctx_ttl_oss.Prelude.Unique.{All-weaken, any-append, any-keep_of}
use ctx_ttl_oss.Compiler.Budget.Selection.{selection-keeps_hard}
use ctx_ttl_oss.Prelude.{
  ℕ, ◌≡◌, refl, ◌∙◌, inl, inr, Bool, true, false, ◌||◌, List, [], ◌∷◌, ◌++◌, arith, ◌==◌, nat_eq,
  string_eq, option_eq, list_eq, if◌then◌else◌, Bool-cases, ok, keep, any, keep-append, All,
  contains,
}
use ctx_ttl_oss.Models.Dimensions.{
  kind_eq, scope_eq, retention_eq, applicability_eq, authority_eq, status_eq, event_type_eq,
}
use ctx_ttl_oss.Compiler.Budget.{CompilationDecision, is_hard, select_candidates}
use ctx_ttl_oss.Compiler.Units.{Message, is_instruction, MessageUnit}
use ctx_ttl_oss.Compiler.Rendering.{insert_after_instructions}
use ctx_ttl_oss.Compiler.Context.{CompilerConfig, of_item, of_unit, Candidate}
use ctx_ttl_oss.Compiler.Compile.{message_candidates, selected_units, kept_messages}

-- the candidate is the unit at this index
abbrev pub carries : ℕ → Candidate → Bool
carries index b = elim b.payload [ of_unit u ↦ index == u.index | of_item i ↦ false ]

pub contains-selected_units :
    (index : ℕ) (bs : List Candidate) → contains index (selected_units bs) ≡ any (carries index) bs
contains-selected_units index [] = refl
contains-selected_units index (b ∷ bs) = ground (arith, contains-selected_units index bs)

-- the messages of the mandatory units, in order
abbrev pub hard_messages : List MessageUnit → List Message
hard_messages [] = []
hard_messages (u ∷ us) = let rest = hard_messages us in if u.hard then u.messages ++ rest else rest

-- `xs` can be had from `ys` by leaving elements out
pub data IsSubsequence {A : Type 0} : List A → List A → Type 0 where
  done : (ys : List A) → IsSubsequence [] ys
  skip : {xs ys : List A} → (y : A) → IsSubsequence xs ys → IsSubsequence xs (y ∷ ys)
  take_both : {xs ys : List A} → (x : A) → IsSubsequence xs ys → IsSubsequence (x ∷ xs) (x ∷ ys)

module _ {A : Type 0} where
  pub append_both :
      (zs : List A) {xs ys : List A} → IsSubsequence xs ys → IsSubsequence (zs ++ xs) (zs ++ ys)
  append_both [] s = s
  append_both (z ∷ zs) s = take_both z (append_both zs s)

  pub skip_all : (zs : List A) {xs ys : List A} → IsSubsequence xs ys → IsSubsequence xs (zs ++ ys)
  skip_all [] s = s
  skip_all (z ∷ zs) s = skip z (skip_all zs s)

-- every mandatory unit is among the selected
abbrev IsKept : List ℕ → MessageUnit → Type 0
IsKept ids u = u.hard ≡ true → contains u.index ids ≡ true

pub kept-hard :
    (ids : List ℕ) (us : List MessageUnit)
    → All (IsKept ids) us
    → IsSubsequence (hard_messages us) (kept_messages ids us)
kept-hard ids [] h = done []
kept-hard ids (u ∷ us) h = elim (Bool-cases u.hard) [
  | inl hard ↦ rw (hard, h.0 hard) (append_both u.messages (kept-hard ids us h.1))
  | inr soft ↦ elim (Bool-cases (contains u.index ids)) [
    | inl chosen ↦ rw (soft, chosen) (skip_all u.messages (kept-hard ids us h.1))
    | inr left_out ↦ rw (soft, left_out) (kept-hard ids us h.1)
  ]
]

pub insert-IsSubsequence :
    (ctx ms : List Message) {xs : List Message}
    → IsSubsequence xs ms
    → IsSubsequence xs (insert_after_instructions ctx ms)
unfolding insert_after_instructions
insert-IsSubsequence ctx ms (done ys) = done _
insert-IsSubsequence ctx (m ∷ ms) (skip y s) = elim (Bool-cases (is_instruction y.role)) [
  | inl instruction ↦ rw instruction (skip y (insert-IsSubsequence ctx ms s))
  | inr other ↦ rw other (skip_all ctx (skip y s))
]
insert-IsSubsequence ctx (m ∷ ms) (take_both x s) = elim (Bool-cases (is_instruction x.role)) [
  | inl instruction ↦ rw instruction (take_both x (insert-IsSubsequence ctx ms s))
  | inr other ↦ rw other (skip_all ctx (take_both x s))
]

module _ (c : CompilerConfig) where
  -- the part that the selection takes from the mandatory units
  any-hard :
      (index : ℕ) (us : List MessageUnit)
      → All
          (λ u. u.hard ≡ true → any (carries u.index) (keep is_hard (message_candidates us)) ≡ true)
          us
  any-hard index [] = tt
  any-hard index (u ∷ us) = (
    λ hard. rw hard (ground arith),
    All-weaken _ _ us (λ v kept hard. any_cons u us v (kept hard)) (any-hard index us),
  )
    where
      any_cons :
          (u : MessageUnit) (us : List MessageUnit) (v : MessageUnit)
          → any (carries v.index) (keep is_hard (message_candidates us)) ≡ true
          → any (carries v.index) (keep is_hard (message_candidates (u ∷ us))) ≡ true
      any_cons u us v h = ground arith

  pub All-IsKept :
      (context_part : List Candidate) (us : List MessageUnit) (target limit : ℕ)
      {selected : List Candidate} {ds : List CompilationDecision}
      → select_candidates (context_part ++ message_candidates us) target limit ≡ ok (selected, ds)
      → All (IsKept (selected_units selected)) us
  All-IsKept context_part us target limit {selected} h =
      All-weaken _ _ us
        (λ u kept hard.
          contains-selected_units u.index selected
          ∙ any-keep_of (carries u.index) is_hard selected (
              rw
                (
                  selection-keeps_hard (context_part ++ message_candidates us) target limit h,
                  keep-append,
                  any-append,
                  kept hard,
                )
                (or_true (any (carries u.index) (keep is_hard context_part)))))
        (any-hard 0 us)
    where
      or_true : (b : Bool) → (b || true) ≡ true
      or_true true = refl
      or_true false = refl
