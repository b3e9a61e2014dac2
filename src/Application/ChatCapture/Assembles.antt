-- ===== src/Application/ChatCapture/Assembles.antt =====
-- The text of a streamed reply is that of its fragments, put together in the order of the stream.
use ctx_ttl_oss.Application.ChatCapture.Fragments.{get-put-other, content_of, content-merge_delta}
use ctx_ttl_oss.Application.ChatCapture.{
  natural, below_zero, Index, index_of, same_index, or_first, text_or_empty, update_at, Choice,
  new_choice, merge_delta, choice_items, with_calls, merge_indexed, merge_choice, merge_choices,
  merge_payloads,
}
use ctx_ttl_oss.Json.{Json, Items, Fields, get, obj, nil, cons, str, null, arr, bool, int, negative}
use ctx_ttl_oss.Prelude.{
  String, ◌≡◌, refl, sym, ap, subst, ◌∙◌, inl, inr, true, false, Option, some, List, [], ◌∷◌,
  ==-refl, nat_eq, string_eq, option_eq, list_eq, if◌then◌else◌, Bool-cases, none,
}
use ctx_ttl_oss.Models.Dimensions.{
  kind_eq, scope_eq, retention_eq, applicability_eq, authority_eq, status_eq, event_type_eq,
}
use text.Mathlib.TextLemmas.{append-nil, append_assoc}
use Prim.Native.String.{◌++◌ as ◌+++◌}
use Prim.Native.String.append

same_index-eq : (i j : Index) → same_index i j ≡ true → i ≡ j
same_index-eq (natural m) (natural n) h = ap natural ((nat_eq.beq_iff m n).0 h)
same_index-eq (natural m) (below_zero n) h = absurd (cc)
same_index-eq (below_zero m) (natural n) h = absurd (cc)
same_index-eq (below_zero m) (below_zero n) h = ap below_zero ((nat_eq.beq_iff m n).0 h)

same_index_refl : (i : Index) → same_index i i ≡ true
same_index_refl (natural m) = ==-refl m
same_index_refl (below_zero m) = ==-refl m

index_apart :
    (i j l : Index) → same_index i l ≡ true → same_index j l ≡ false → same_index i j ≡ false
index_apart i j l h k = elim (Bool-cases (same_index i j)) [
  | inl same ↦
      let e : j ≡ l = sym (same_index-eq i j same) ∙ same_index-eq i l h in
      let joined : same_index j l ≡ true =
        subst (λ x. same_index j x ≡ true) e (same_index_refl j) in
      absurd (cc)
  | inr different ↦ different
]

content-with_calls :
    (calls : List (Index × Fields)) (m : Fields) → content_of (with_calls calls m) ≡ content_of m
content-with_calls [] m = refl
content-with_calls (c ∷ cs) m = ap text_or_empty (get-put-other "content" "tool_calls" _ m refl)

-- the text of the entry of an index
abbrev pub text_at : Index → List (Index × Choice) → String
text_at i [] = ""
text_at i ((j, c) ∷ rest) =
    if same_index i j then content_of (with_calls c.calls c.reply) else text_at i rest

-- the fragment of an entry of `choices` for an index
abbrev pub fragment_at : Index → Option Index → Option Json → String
fragment_at i (some j) (some (obj delta)) =
    if same_index i j then text_or_empty (get "content" delta) else ""
fragment_at i _ _ = ""

abbrev pub fragment_of : Index → Json → String
fragment_of i (obj raw) = fragment_at i (index_of (or_first (get "index" raw))) (get "delta" raw)
fragment_of i _ = ""

abbrev pub fragments_of : Index → Items → String
fragments_of i nil = ""
fragments_of i (cons raw rest) = fragment_of i raw +++ fragments_of i rest

-- all fragments of the stream for an index
abbrev pub stream_text : Index → List Fields → String
stream_text i [] = ""
stream_text i (p ∷ ps) = fragments_of i (choice_items (get "choices" p)) +++ stream_text i ps

content-merged :
    (delta : Fields) (c : Choice)
    → content_of (with_calls (merge_delta delta c).calls (merge_delta delta c).reply)
      ≡ content_of (with_calls c.calls c.reply) +++ text_or_empty (get "content" delta)
content-merged delta c =
    content-with_calls (merge_delta delta c).calls (merge_delta delta c).reply
    ∙ content-merge_delta delta c
    ∙ ap (λ t. t +++ text_or_empty (get "content" delta)) (sym (content-with_calls c.calls c.reply))

module _ (i j : Index) (delta : Fields) where
  text_at-update :
      (choices : List (Index × Choice))
      → text_at i (update_at new_choice j (merge_delta delta) choices)
        ≡ text_at i choices +++ (if same_index i j then text_or_empty (get "content" delta) else "")
  text_at-update [] = elim (Bool-cases (same_index i j)) [
    | inl same ↦ rw same (content-merged delta new_choice)
    | inr different ↦ rw different refl
  ]
  text_at-update ((l, c) ∷ rest) = elim (Bool-cases (same_index j l)) [
    | inl here ↦
        let e : j ≡ l = same_index-eq j l here in
        rw here (
          subst
            (λ x.
              (if same_index i l
                then content_of (with_calls (merge_delta delta c).calls (merge_delta delta c).reply)
                else text_at i rest)
              ≡ (if same_index i l then content_of (with_calls c.calls c.reply) else text_at i rest)
                +++ (if same_index i x then text_or_empty (get "content" delta) else ""))
            (sym e)
            (elim (Bool-cases (same_index i l)) [
              | inl same ↦ rw same (content-merged delta c)
              | inr different ↦ rw different (sym (append-nil (text_at i rest)))
            ]))
    | inr elsewhere ↦ rw elsewhere (elim (Bool-cases (same_index i l)) [
      | inl same ↦
          let apart : same_index i j ≡ false = index_apart i j l same elsewhere in
          rw (same, apart) (sym (append-nil (content_of (with_calls c.calls c.reply))))
      | inr different ↦ rw different (text_at-update rest)
    ])
  ]

text_at-indexed :
    (i : Index) (index : Option Index) (delta : Option Json) (choices : List (Index × Choice))
    → text_at i (merge_indexed index delta choices)
      ≡ text_at i choices +++ fragment_at i index delta
text_at-indexed i (some j) (some (obj delta)) choices = text_at-update i j delta choices
text_at-indexed i none delta choices = sym (append-nil (text_at i choices))
text_at-indexed i (some j) none choices = sym (append-nil (text_at i choices))
text_at-indexed i (some j) (some null) choices = sym (append-nil (text_at i choices))
text_at-indexed i (some j) (some (bool b)) choices = sym (append-nil (text_at i choices))
text_at-indexed i (some j) (some (int n)) choices = sym (append-nil (text_at i choices))
text_at-indexed i (some j) (some (negative n)) choices = sym (append-nil (text_at i choices))
text_at-indexed i (some j) (some (str s)) choices = sym (append-nil (text_at i choices))
text_at-indexed i (some j) (some (arr xs)) choices = sym (append-nil (text_at i choices))

text_at-choice :
    (i : Index) (raw : Json) (choices : List (Index × Choice))
    → text_at i (merge_choice raw choices) ≡ text_at i choices +++ fragment_of i raw
unfolding merge_choice
text_at-choice i (obj raw) choices =
    text_at-indexed i (index_of (or_first (get "index" raw))) (get "delta" raw) choices
text_at-choice i null choices = sym (append-nil (text_at i choices))
text_at-choice i (bool b) choices = sym (append-nil (text_at i choices))
text_at-choice i (int n) choices = sym (append-nil (text_at i choices))
text_at-choice i (negative n) choices = sym (append-nil (text_at i choices))
text_at-choice i (str s) choices = sym (append-nil (text_at i choices))
text_at-choice i (arr xs) choices = sym (append-nil (text_at i choices))

text_at-choices :
    (i : Index) (items : Items) (choices : List (Index × Choice))
    → text_at i (merge_choices items choices) ≡ text_at i choices +++ fragments_of i items
text_at-choices i nil choices = sym (append-nil (text_at i choices))
text_at-choices i (cons raw rest) choices =
    text_at-choices i rest (merge_choice raw choices)
    ∙ ap (λ t. t +++ fragments_of i rest) (text_at-choice i raw choices)
    ∙ append_assoc (text_at i choices) (fragment_of i raw) (fragments_of i rest)

text_at-payloads :
    (i : Index) (ps : List Fields) (choices : List (Index × Choice))
    → text_at i (merge_payloads ps choices) ≡ text_at i choices +++ stream_text i ps
unfolding merge_payloads
text_at-payloads i [] choices = sym (append-nil (text_at i choices))
text_at-payloads i (p ∷ ps) choices =
    let here = choice_items (get "choices" p) in
    text_at-payloads i ps (merge_choices here choices)
    ∙ ap (λ t. t +++ stream_text i ps) (text_at-choices i here choices)
    ∙ append_assoc (text_at i choices) (fragments_of i here) (stream_text i ps)

-- The content of the entry of an index is all content fragments of its deltas in the order of the
-- stream.
pub stream_content-joined :
    (i : Index) (payloads : List Fields)
    → text_at i (merge_payloads payloads []) ≡ stream_text i payloads
stream_content-joined i payloads =
    text_at-payloads i payloads [] ∙ append.nil (stream_text i payloads)
