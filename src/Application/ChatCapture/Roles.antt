-- ===== src/Application/ChatCapture/Roles.antt =====
-- Every reply that is put together from a stream has a role.
use ctx_ttl_oss.Application.ChatCapture.Fragments.{get-put-same, get-put-other}
use ctx_ttl_oss.Application.ChatCapture.{
  Index, index_of, same_index, or_first, add_fragment, set_text, merge_function_call, update_at,
  Choice, new_choice, merge_delta, choice_items, merge_indexed, merge_choice, merge_choices,
  merge_payloads,
}
use ctx_ttl_oss.Json.{
  Json, Items, Fields, get, put, str, obj, arr, nil, cons, bool, int, negative, null,
}
use ctx_ttl_oss.Prelude.{
  String, ◌≡◌, refl, sym, ap, subst, ◌∙◌, inl, inr, Bool, true, false, ◌&&◌, Option, some, none,
  List, [], ◌∷◌, ◌==◌, nat_eq, string_eq, option_eq, list_eq, Bool-cases, is_some, all,
}
use ctx_ttl_oss.Models.Dimensions.{
  kind_eq, scope_eq, retention_eq, applicability_eq, authority_eq, status_eq, event_type_eq,
}

-- a field that is there stays there
pub is_some-put :
    (k j : String) (v : Json) (fs : Fields)
    → is_some (get k fs) ≡ true
    → is_some (get k (put j v fs)) ≡ true
is_some-put k j v fs h = elim (Bool-cases (k == j)) [
  | inl same ↦
      let e : k ≡ j = (string_eq.beq_iff k j).0 same in
      subst (λ x. is_some (get x (put j v fs)) ≡ true) (sym e) (ap is_some (get-put-same j v fs))
  | inr different ↦ ap is_some (get-put-other k j v fs different) ∙ h
]

abbrev pub has_role : Fields → Bool
has_role d = is_some (get "role" d)

role-set_text :
    (key : String) (v : Option Json) (d : Fields)
    → has_role d ≡ true
    → has_role (set_text key v d) ≡ true
role-set_text key (some (str s)) d h = is_some-put "role" key (str s) d h
role-set_text key none d h = h
role-set_text key (some null) d h = h
role-set_text key (some (bool b)) d h = h
role-set_text key (some (int n)) d h = h
role-set_text key (some (negative n)) d h = h
role-set_text key (some (arr xs)) d h = h
role-set_text key (some (obj fs)) d h = h

role-add_fragment :
    (key : String) (v : Option Json) (d : Fields)
    → has_role d ≡ true
    → has_role (add_fragment key v d) ≡ true
role-add_fragment key (some (str s)) d h = is_some-put "role" key _ d h
role-add_fragment key none d h = h
role-add_fragment key (some null) d h = h
role-add_fragment key (some (bool b)) d h = h
role-add_fragment key (some (int n)) d h = h
role-add_fragment key (some (negative n)) d h = h
role-add_fragment key (some (arr xs)) d h = h
role-add_fragment key (some (obj fs)) d h = h

role-function_call :
    (v : Option Json) (d : Fields) → has_role d ≡ true → has_role (merge_function_call v d) ≡ true
unfolding merge_function_call
role-function_call (some (obj raw)) d h = is_some-put "role" "function_call" _ d h
role-function_call none d h = h
role-function_call (some null) d h = h
role-function_call (some (bool b)) d h = h
role-function_call (some (int n)) d h = h
role-function_call (some (negative n)) d h = h
role-function_call (some (arr xs)) d h = h
role-function_call (some (str s)) d h = h

role-merge_delta :
    (delta : Fields) (c : Choice)
    → has_role c.reply ≡ true
    → has_role (merge_delta delta c).reply ≡ true
unfolding merge_delta
role-merge_delta delta c h =
    let role = set_text "role" (get "role" delta) c.reply in
    let content = add_fragment "content" (get "content" delta) role in
    role-function_call (get "function_call" delta)
      (add_fragment "refusal" (get "refusal" delta) content)
      (role-add_fragment "refusal" (get "refusal" delta) content (
        role-add_fragment "content" (get "content" delta) role
          (role-set_text "role" (get "role" delta) c.reply h)))

-- every reply has a role
abbrev pub entry_role : Index × Choice → Bool
entry_role (i, c) = has_role c.reply

and_true : (a b : Bool) → a ≡ true → b ≡ true → (a && b) ≡ true
and_true true true h k = refl
and_true false b h k = h
and_true true false h k = k

pub both_true : (a b : Bool) → (a && b) ≡ true → (a ≡ true) × (b ≡ true)
both_true true true h = (refl, refl)
both_true true false h = absurd (cc)
both_true false b h = absurd (cc)

roles-update :
    (i : Index) (delta : Fields) (choices : List (Index × Choice))
    → all entry_role choices ≡ true
    → all entry_role (update_at new_choice i (merge_delta delta) choices) ≡ true
roles-update i delta [] h = and_true _ true (role-merge_delta delta new_choice refl) refl
roles-update i delta ((j, c) ∷ rest) h =
    let (here, others) = both_true (has_role c.reply) (all entry_role rest) h in
    elim (Bool-cases (same_index i j)) [
      | inl same ↦ rw same (and_true _ _ (role-merge_delta delta c here) others)
      | inr different ↦ rw different (and_true _ _ here (roles-update i delta rest others))
    ]

roles-indexed :
    (index : Option Index) (delta : Option Json) (choices : List (Index × Choice))
    → all entry_role choices ≡ true
    → all entry_role (merge_indexed index delta choices) ≡ true
roles-indexed (some i) (some (obj delta)) choices h = roles-update i delta choices h
roles-indexed none delta choices h = h
roles-indexed (some i) none choices h = h
roles-indexed (some i) (some null) choices h = h
roles-indexed (some i) (some (bool b)) choices h = h
roles-indexed (some i) (some (int n)) choices h = h
roles-indexed (some i) (some (negative n)) choices h = h
roles-indexed (some i) (some (str s)) choices h = h
roles-indexed (some i) (some (arr xs)) choices h = h

roles-choice :
    (raw : Json) (choices : List (Index × Choice))
    → all entry_role choices ≡ true
    → all entry_role (merge_choice raw choices) ≡ true
unfolding merge_choice
roles-choice (obj raw) choices h =
    roles-indexed (index_of (or_first (get "index" raw))) (get "delta" raw) choices h
roles-choice null choices h = h
roles-choice (bool b) choices h = h
roles-choice (int n) choices h = h
roles-choice (negative n) choices h = h
roles-choice (str s) choices h = h
roles-choice (arr xs) choices h = h

roles-choices :
    (raws : Items) (choices : List (Index × Choice))
    → all entry_role choices ≡ true
    → all entry_role (merge_choices raws choices) ≡ true
roles-choices nil choices h = h
roles-choices (cons raw rest) choices h =
    roles-choices rest (merge_choice raw choices) (roles-choice raw choices h)

pub roles-payloads :
    (ps : List Fields) (choices : List (Index × Choice))
    → all entry_role choices ≡ true
    → all entry_role (merge_payloads ps choices) ≡ true
unfolding merge_payloads
roles-payloads [] choices h = h
roles-payloads (p ∷ ps) choices h =
    let here = choice_items (get "choices" p) in
    roles-payloads ps (merge_choices here choices) (roles-choices here choices h)
