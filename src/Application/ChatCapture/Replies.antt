-- ===== src/Application/ChatCapture/Replies.antt =====
-- The messages that a stream is read as: no reply with a text is left out or cut short.
use ctx_ttl_oss.Application.ChatCapture.Roles.{
  has_role, entry_role, roles-payloads, both_true, is_some-put,
}
use ctx_ttl_oss.Application.ChatCapture.Assembles.{text_at, stream_text, stream_content-joined}
use ctx_ttl_oss.Application.ChatCapture.Fragments.{content_of}
use ctx_ttl_oss.Application.ChatCapture.{
  Index, same_index, text_or_empty, Choice, with_calls, by_index, merge_payloads,
  assembled_messages, streaming_assistant_messages,
}
use ctx_ttl_oss.Application.ProviderCapture.{is_success, payloads_of}
use ctx_ttl_oss.Json.{Json, Fields, get, field_count, end, field}
use ctx_ttl_oss.Prelude.Sort.{sorted, any-sorted, all-sorted}
use ctx_ttl_oss.Prelude.{
  ℕ, String, ◌≡◌, refl, sym, subst, ◌∙◌, inl, inr, Bool, true, false, ◌||◌, Option, some, none,
  List, [], ◌∷◌, ◌==◌, ==-refl, nat_eq, string_eq, option_eq, list_eq, ltb, arith, Bool-cases,
  is_some, any, all,
}
use ctx_ttl_oss.Models.Dimensions.{
  kind_eq, scope_eq, retention_eq, applicability_eq, authority_eq, status_eq, event_type_eq,
}

some_field : (k : String) (fs : Fields) → is_some (get k fs) ≡ true → ltb 0 (field_count fs) ≡ true
some_field k end h = absurd (cc)
some_field k (field l w fs) h = ground arith

-- an object with two fields has more than one
two_fields :
    (k j : String) (fs : Fields)
    → (k == j) ≡ false
    → is_some (get k fs) ≡ true
    → is_some (get j fs) ≡ true
    → ltb 1 (field_count fs) ≡ true
two_fields k j end apart h h' = absurd (cc)
two_fields k j (field l w fs) apart h h' = elim (Bool-cases (k == l)) [
  | inl here ↦ elim (Bool-cases (j == l)) [
    | inl both ↦
        let e : k ≡ j = (string_eq.beq_iff k l).0 here ∙ sym ((string_eq.beq_iff j l).0 both) in
        let same : (k == j) ≡ true = subst (λ x. (k == x) ≡ true) e (==-refl k) in absurd (cc)
    | inr there ↦ let rest = some_field j fs (rw there at h') in ground arith
  ]
  | inr there ↦ elim (Bool-cases (j == l)) [
    | inl here ↦ let rest = some_field k fs (rw there at h) in ground arith
    | inr elsewhere ↦
        let rest = two_fields k j fs apart (rw there at h) (rw elsewhere at h') in ground arith
  ]
]

role-with_calls :
    (calls : List (Index × Fields)) (d : Fields)
    → has_role d ≡ true
    → has_role (with_calls calls d) ≡ true
role-with_calls [] d h = h
role-with_calls (c ∷ cs) d h = is_some-put "role" "tool_calls" _ d h

text-content :
    (o : Option Json) (t : String) → text_or_empty o ≡ t → (t == "") ≡ false → is_some o ≡ true
text-content none t h full =
    let blank : (t == "") ≡ true = subst (λ x. (x == "") ≡ true) h (==-refl {A = String} "") in
    absurd (cc)
text-content (some v) t h full = refl

-- the message of an entry
abbrev whole : Index × Choice → Fields
whole (i, c) = with_calls c.calls c.reply

abbrev pub says : String → Fields → Bool
says t m = content_of m == t

abbrev says_entry : String → Index × Choice → Bool
says_entry t p = says t (whole p)

or_true : (a b : Bool) → b ≡ true → (a || b) ≡ true
or_true true b h = refl
or_true false b h = h

text_at-any :
    (i : Index) (choices : List (Index × Choice)) (t : String)
    → text_at i choices ≡ t
    → (t == "") ≡ false
    → any (says_entry t) choices ≡ true
text_at-any i [] t h full =
    let blank : (t == "") ≡ true = subst (λ x. (x == "") ≡ true) h (==-refl {A = String} "") in
    absurd (cc)
text_at-any i ((j, c) ∷ rest) t h full = elim (Bool-cases (same_index i j)) [
  | inl same ↦
      let here : content_of (with_calls c.calls c.reply) ≡ t = rw same at h in
      rw (here, ==-refl t) refl
  | inr different ↦
      or_true (says_entry t (j, c)) (any (says_entry t) rest)
        (text_at-any i rest t (rw different at h) full)
]

-- an entry with a role and a text is put out
assembled-any :
    (t : String) (choices : List (Index × Choice))
    → (t == "") ≡ false
    → all entry_role choices ≡ true
    → any (says_entry t) choices ≡ true
    → any (says t) (assembled_messages choices) ≡ true
assembled-any t [] full roles h = absurd (cc)
assembled-any t ((i, c) ∷ rest) full roles h =
    let m = with_calls c.calls c.reply in
    let (role, others) = both_true (has_role c.reply) (all entry_role rest) roles in
    elim (Bool-cases (content_of m == t)) [
      | inl fits ↦
          let same : content_of m ≡ t = (string_eq.beq_iff (content_of m) t).0 fits in
          let long =
            two_fields "role" "content" m refl (role-with_calls c.calls c.reply role)
              (text-content (get "content" m) t same full) in
          rw long (rw fits refl)
      | inr other ↦
          let below = assembled-any t rest full others (rw other at h) in
          elim (Bool-cases (ltb 1 (field_count m))) [
            | inl long ↦ rw long (or_true (content_of m == t) _ below)
            | inr short ↦ rw short below
          ]
    ]

-- For every successful stream and every index, where the content fragments of the index's deltas are
-- not all empty, a message is put out whose content is all of these fragments in the order of the
-- stream, however they are cut, and whatever other indices, roles, refusals and calls come between
-- them.
pub streaming_assistant_messages-stream_text :
    (loads : String → Option Json) (blocks : List String) (status_code : ℕ) (i : Index)
    → is_success status_code ≡ true
    → (stream_text i (payloads_of loads blocks) == "") ≡ false
    → any
        (λ m. content_of m == stream_text i (payloads_of loads blocks))
        (streaming_assistant_messages loads blocks status_code)
      ≡ true
unfolding streaming_assistant_messages
streaming_assistant_messages-stream_text loads blocks status_code i success full =
    let ps = payloads_of loads blocks in
    let t = stream_text i ps in
    let merged = merge_payloads ps [] in
    rw success (
      assembled-any t (sorted by_index merged) full
        (all-sorted by_index entry_role merged ∙ roles-payloads ps [] refl)
        (any-sorted by_index (says_entry t) merged
          ∙ text_at-any i merged t (stream_content-joined i ps) full))
