-- ===== src/Application/TranscriptLifecycle/Counts.antt =====
-- The filter keeps or counts every message, and its account is valid.
use ctx_ttl_oss.Prelude.{
  ℕ, suc, ◌+◌, String, ◌≡◌, refl, subst, inl, inr, false, Option, none, some, List, [], ◌∷◌, arith,
  ◌==◌, nat_eq, string_eq, option_eq, list_eq, Option-cases, ok, >>=_inv, ok_inj, length, any, find,
  sum_by, length-append, All,
}
use ctx_ttl_oss.Json.{
  Json, Items, Fields, null, bool, int, negative, str, arr, obj, nil, cons, get, put,
}
use ctx_ttl_oss.Observability.{value_of, is_unnamed, validate_reason_totals}
use ctx_ttl_oss.Application.TranscriptLifecycle.{
  InactiveTranscriptTurn, FilterState, add_count, is_marked, first_reason, RoleClass, instruction,
  user, other, unhashable, role_class, keep_message, estimate_tokens, place_message, filter_object,
  filter_message, filter_all, filtered_items, counted, exclusion_of, initial_state,
  filter_transcript, filter_payload,
}
use ctx_ttl_oss.Prelude.Unique.{All-mem}

abbrev pub item_count : Items → ℕ
item_count nil = 0
item_count (cons x xs) = suc (item_count xs)

-- messages kept or counted so far
abbrev settled : FilterState → ℕ
settled s = length s.filtered + sum_by value_of s.message_counts

-- no reason is empty
pub record IsNamed (s : FilterState) : Type 0 where
  pub messages : any is_unnamed s.message_counts ≡ false
  pub tokens : any is_unnamed s.token_counts ≡ false
  pub active : elim s.active_reason [ none ↦ false | some r ↦ r == "" ] ≡ false

sum-add_count :
    (counts : List (String × ℕ)) (reason : String) (n : ℕ)
    → sum_by value_of (add_count counts reason n) ≡ sum_by value_of counts + n
unfolding add_count
sum-add_count [] reason n = omega arith
sum-add_count ((key, m) ∷ counts) reason n =
    let rest = sum-add_count counts reason n in ground arith

add_count_named :
    (counts : List (String × ℕ)) (reason : String) (n : ℕ)
    → (reason == "") ≡ false
    → any is_unnamed counts ≡ false
    → any is_unnamed (add_count counts reason n) ≡ false
unfolding add_count
add_count_named [] reason n named h = rw named refl
add_count_named ((key, m) ∷ counts) reason n named h =
    let rest = add_count_named counts reason n named in ground arith

abbrev NamesTurn : InactiveTranscriptTurn → Type 0
NamesTurn t = (t.reason == "") ≡ false

-- what a round does to a state
abbrev Round : FilterState → FilterState → Type 0
Round s s' = (settled s' ≡ suc (settled s)) × IsNamed s'

module _ (estimate : Fields → ℕ) (turns : List InactiveTranscriptTurn)
    (named : All NamesTurn turns) where
  place_message-Round :
      (message : Fields) (reason : Option String) (s : FilterState) {s' : FilterState}
      → IsNamed s
      → elim reason [ none ↦ false | some r ↦ r == "" ] ≡ false
      → place_message estimate message reason s ≡ ok s'
      → Round s s'
  unfolding place_message
  place_message-Round message none s {s'} h k e = subst (Round s) (ok_inj e) (
    rw length-append (omega arith),
    record { messages = h.messages; tokens = h.tokens; active = refl },
  )
  place_message-Round message (some reason) s {s'} h k e =
      let (n, _, last) = >>=_inv (estimate_tokens estimate message) _ e in
      subst (Round s) (ok_inj last) (
        omega (arith, sum-add_count s.message_counts reason 1),
        record {
          messages = add_count_named s.message_counts reason 1 k h.messages;
          tokens = add_count_named s.token_counts reason n k h.tokens;
          active = k;
        },
      )

  first_reason_named :
      (message : Fields)
      → elim (first_reason turns message) [ none ↦ false | some r ↦ r == "" ] ≡ false
  unfolding first_reason
  first_reason_named message =
      elim (Option-cases (find (is_marked (get "content" message)) turns)) [
        | inl nothing ↦ rw nothing refl
        | inr (t, found) ↦
            rw found (All-mem NamesTurn (is_marked (get "content" message)) turns named found)
      ]

  object-Round :
      (role : RoleClass) (message : Fields) (s : FilterState) {s' : FilterState}
      → IsNamed s
      → filter_object estimate turns role message s ≡ ok s'
      → Round s s'
  unfolding filter_object
  object-Round unhashable message s h e = absurd (cc)
  object-Round instruction message s h e = place_message-Round message none s h refl e
  object-Round user message s h e =
      place_message-Round message (first_reason turns message) s h (first_reason_named message) e
  object-Round other message s h e = place_message-Round message s.active_reason s h h.active e

  other_kept :
      (message : Json) (s : FilterState) {s' : FilterState}
      → IsNamed s
      → ok (record (keep_message message s) { active_reason = none }) ≡ ok s'
      → Round s s'
  other_kept message s h e = subst (Round s) (ok_inj e) (
    rw length-append (omega arith),
    record { messages = h.messages; tokens = h.tokens; active = refl },
  )

  message-Round :
      (message : Json) (s : FilterState) {s' : FilterState}
      → IsNamed s
      → filter_message estimate turns message s ≡ ok s'
      → Round s s'
  unfolding filter_message
  message-Round (obj message) s h e = object-Round (role_class (get "role" message)) message s h e
  message-Round null s h e = other_kept null s h e
  message-Round (bool b) s h e = other_kept (bool b) s h e
  message-Round (int n) s h e = other_kept (int n) s h e
  message-Round (negative n) s h e = other_kept (negative n) s h e
  message-Round (str t) s h e = other_kept (str t) s h e
  message-Round (arr xs) s h e = other_kept (arr xs) s h e

  all_rounds :
      (messages : Items) (s : FilterState) {s' : FilterState}
      → IsNamed s
      → filter_all estimate turns messages s ≡ ok s'
      → (settled s' ≡ settled s + item_count messages) × IsNamed s'
  unfolding filter_all
  all_rounds nil s h e =
      subst (λ s'. (settled s' ≡ settled s + 0) × IsNamed s') (ok_inj e) (omega arith, h)
  all_rounds (cons message messages) s h e =
      let (s₁, first, rest) =
        >>=_inv (filter_message estimate turns message s) (filter_all estimate turns messages) e in
      let (one, named₁) = message-Round message s h first in
      let (more, named') = all_rounds messages s₁ named₁ rest in (omega arith, named')

  validated : (s : FilterState) → IsNamed s → validate_reason_totals (counted s) ≡ ok tt
  unfolding validate_reason_totals
  validated s h = rw (h.messages, h.tokens) (ground arith)

  pub excluded_total :
      (messages : Items) {s : FilterState}
      → filter_all estimate turns messages initial_state ≡ ok s
      → (exclusion_of s ≡ ok (counted s))
        × (length s.filtered + (counted s).message_count ≡ item_count messages)
  unfolding exclusion_of
  excluded_total messages {s} e =
      let (total, h) =
        all_rounds messages initial_state (record { messages = refl; tokens = refl; active = refl })
          e in
      (rw (validated s h) refl, omega arith)

-- Where every turn has a reason and the loop over the messages ends, the account of what was left
-- out passes its own validator, so that the filter returns it, and the messages kept and the
-- messages counted add up to those of the request.
pub filter-counts_messages :
    (estimate : Fields → ℕ) (t : InactiveTranscriptTurn) (turns : List InactiveTranscriptTurn)
    (payload : Fields) (messages : Items) {s : FilterState}
    → All NamesTurn (t ∷ turns)
    → get "messages" payload ≡ some (arr messages)
    → filter_all estimate (t ∷ turns) messages initial_state ≡ ok s
    → (filter_payload estimate payload (t ∷ turns)
        ≡ ok (record {
          payload = put "messages" (arr (filtered_items s.filtered)) payload;
          exclusion = counted s;
        }))
      × (length s.filtered + (counted s).message_count ≡ item_count messages)
unfolding filter_payload filter_transcript
filter-counts_messages estimate t turns payload messages {s} named found e =
    let (valid, total) = excluded_total estimate (t ∷ turns) named messages e in
    (rw (found, e, valid) refl, total)
