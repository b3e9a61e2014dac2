-- ===== src/Application/ChatCapture/Fragments.antt =====
-- What one delta does to the text of a reply.
use ctx_ttl_oss.Application.ChatCapture.{
  text_or_empty, add_fragment, set_text, merge_function_call, Choice, merge_delta,
}
use ctx_ttl_oss.Json.{Json, Fields, get, put, str, end, obj, null, arr, field, bool, int, negative}
use ctx_ttl_oss.Prelude.{
  String, ◌≡◌, refl, sym, ap, subst, ◌∙◌, inl, inr, false, Option, none, some, ◌==◌, ==-refl,
  nat_eq, string_eq, option_eq, list_eq, Bool-cases,
}
use ctx_ttl_oss.Models.Dimensions.{
  kind_eq, scope_eq, retention_eq, applicability_eq, authority_eq, status_eq, event_type_eq,
}
use text.Mathlib.TextLemmas.{append-nil}
use Prim.Native.String.{◌++◌ as ◌+++◌}

pub get-put-same : (k : String) (v : Json) (fs : Fields) → get k (put k v fs) ≡ some v
get-put-same k v end = rw (==-refl k) refl
get-put-same k v (field j w fs) = elim (Bool-cases (k == j)) [
  | inl same ↦ rw (same, ==-refl k) refl
  | inr different ↦ rw different (rw different (get-put-same k v fs))
]

pub get-put-other :
    (k j : String) (v : Json) (fs : Fields) → (k == j) ≡ false → get k (put j v fs) ≡ get k fs
get-put-other k j v end h = rw h refl
get-put-other k j v (field l w fs) h = elim (Bool-cases (j == l)) [
  | inl same ↦
      let e : j ≡ l = (string_eq.beq_iff j l).0 same in
      let h' : (k == l) ≡ false = subst (λ x. (k == x) ≡ false) e h in rw (same, h, h') refl
  | inr different ↦ rw different (elim (Bool-cases (k == l)) [
    | inl here ↦ rw here refl
    | inr there ↦ rw there (get-put-other k j v fs h)
  ])
]

abbrev pub content_of : Fields → String
content_of d = text_or_empty (get "content" d)

content-set_text :
    (key : String) (v : Option Json) (d : Fields)
    → ("content" == key) ≡ false
    → content_of (set_text key v d) ≡ content_of d
content-set_text key (some (str s)) d h = ap text_or_empty (get-put-other "content" key (str s) d h)
content-set_text key none d h = refl
content-set_text key (some null) d h = refl
content-set_text key (some (bool b)) d h = refl
content-set_text key (some (int n)) d h = refl
content-set_text key (some (negative n)) d h = refl
content-set_text key (some (arr xs)) d h = refl
content-set_text key (some (obj fs)) d h = refl

content-other_fragment :
    (key : String) (v : Option Json) (d : Fields)
    → ("content" == key) ≡ false
    → content_of (add_fragment key v d) ≡ content_of d
content-other_fragment key (some (str s)) d h = ap text_or_empty (get-put-other "content" key _ d h)
content-other_fragment key none d h = refl
content-other_fragment key (some null) d h = refl
content-other_fragment key (some (bool b)) d h = refl
content-other_fragment key (some (int n)) d h = refl
content-other_fragment key (some (negative n)) d h = refl
content-other_fragment key (some (arr xs)) d h = refl
content-other_fragment key (some (obj fs)) d h = refl

content-fragment :
    (v : Option Json) (d : Fields)
    → content_of (add_fragment "content" v d) ≡ content_of d +++ text_or_empty v
content-fragment (some (str s)) d = ap text_or_empty (get-put-same "content" _ d)
content-fragment none d = sym (append-nil (content_of d))
content-fragment (some null) d = sym (append-nil (content_of d))
content-fragment (some (bool b)) d = sym (append-nil (content_of d))
content-fragment (some (int n)) d = sym (append-nil (content_of d))
content-fragment (some (negative n)) d = sym (append-nil (content_of d))
content-fragment (some (arr xs)) d = sym (append-nil (content_of d))
content-fragment (some (obj fs)) d = sym (append-nil (content_of d))

content-function_call :
    (v : Option Json) (d : Fields) → content_of (merge_function_call v d) ≡ content_of d
unfolding merge_function_call
content-function_call (some (obj raw)) d =
    ap text_or_empty (get-put-other "content" "function_call" _ d refl)
content-function_call none d = refl
content-function_call (some null) d = refl
content-function_call (some (bool b)) d = refl
content-function_call (some (int n)) d = refl
content-function_call (some (negative n)) d = refl
content-function_call (some (arr xs)) d = refl
content-function_call (some (str s)) d = refl

pub content-merge_delta :
    (delta : Fields) (c : Choice)
    → content_of (merge_delta delta c).reply
      ≡ content_of c.reply +++ text_or_empty (get "content" delta)
unfolding merge_delta
content-merge_delta delta c =
    let role = set_text "role" (get "role" delta) c.reply in
    let content = add_fragment "content" (get "content" delta) role in
    content-function_call (get "function_call" delta)
      (add_fragment "refusal" (get "refusal" delta) content)
    ∙ content-other_fragment "refusal" (get "refusal" delta) content refl
    ∙ content-fragment (get "content" delta) role
    ∙ ap (λ t. t +++ text_or_empty (get "content" delta))
        (content-set_text "role" (get "role" delta) c.reply refl)
