-- ===== src/Application/ResponsesProtocol/Restores.antt =====
-- What the adapter makes of the input comes back as it was.
use ctx_ttl_oss.Application.ResponsesProtocol.{
  source_key, is_message_role, adapted_object, item_at_index, restored_message, adapted_item,
  adapted_items, restored_messages, instruction_messages, adapted_input, append_items, originals_of,
  reject_hidden_state, sourced_message, to_compiler_payload, from_compiler_payload,
  instruction_message,
}
use ctx_ttl_oss.Json.{
  Json, Items, Fields, get, put, end, obj, nil, cons, field, int, str, null, arr, bool, negative,
}
use ctx_ttl_oss.Models.Dimensions.{
  kind_eq, scope_eq, retention_eq, applicability_eq, authority_eq, status_eq, event_type_eq,
}
use ctx_ttl_oss.Prelude.{
  ◌>>=◌, ℕ, String, ◌≡◌, refl, inl, inr, some, ◌==◌, ==-refl, nat_eq, string_eq, option_eq, list_eq,
  Bool-cases, ok, suc, ◌+◌, sym, ap, subst, ◌∙◌, Bool, arith, if◌then◌else◌, >>=_inv, ok_inj, true,
  Option, none, Result, err,
}

get-put : (k : String) (v : Json) (fs : Fields) → get k (put k v fs) ≡ some v
get-put k v end = rw (==-refl k) refl
get-put k v (field j w fs) = elim (Bool-cases (k == j)) [
  | inl same ↦ rw (same, ==-refl k) refl
  | inr different ↦ rw (different) (rw different (get-put k v fs))
]

-- one adapted item is restored from its place
restored_object :
    (originals : Items) (n : ℕ) (item : Fields)
    → item_at_index n originals ≡ some (obj item)
    → restored_message originals (adapted_object n item) ≡ ok (cons (obj item) nil)
restored_object originals n item h = elim (Bool-cases (is_message_role (get "role" item))) [
  | inl message_item ↦ rw (message_item, get-put source_key (int n) item, h) refl
  | inr opaque ↦ rw (opaque, h) refl
]

-- the items at the positions that are kept, from a position on
abbrev pub select : (ℕ → Bool) → ℕ → Items → Items
select kept n nil = nil
select kept n (cons x xs) =
    let rest = select kept (suc n) xs in if kept n then cons x rest else rest

-- from position `n` on, the originals are these items
abbrev IsTail : Items → ℕ → Items → Type 0
IsTail originals n xs = (k m : ℕ) → m ≡ n + k → item_at_index m originals ≡ item_at_index k xs

restored_cons :
    (originals : Items) (m x : Json) (ms xs : Items)
    → restored_message originals m ≡ ok (cons x nil)
    → restored_messages originals ms ≡ ok xs
    → restored_messages originals (cons m ms) ≡ ok (cons x xs)
unfolding restored_messages
restored_cons originals m x ms xs h k = rw (h, k) refl

restored_selection :
    (originals : Items) (kept : ℕ → Bool) (n : ℕ) (xs ms : Items)
    → adapted_items n xs ≡ ok ms
    → IsTail originals n xs
    → restored_messages originals (select kept n ms) ≡ ok (select kept n xs)
unfolding adapted_items restored_messages
restored_selection originals kept n nil ms h tail =
    let e : nil ≡ ms = ok_inj h in
    subst (λ ms. restored_messages originals (select kept n ms) ≡ ok nil) e refl
restored_selection originals kept n (cons x xs) ms h tail =
    let (m, first, rest) = >>=_inv (adapted_item n x) _ h in
    let (ms', second, last) = >>=_inv (adapted_items (suc n) xs) (λ ms'. ok (cons m ms')) rest in
    let others =
      restored_selection originals kept (suc n) xs ms' second
        (λ k j e. tail (suc k) j (omega (arith, e))) in
    let (item, is_object, adapted) = item_of x m first in
    subst (λ ms. restored_messages originals (select kept n ms) ≡ ok (select kept n (cons x xs)))
      (ok_inj last)
      (elim (Bool-cases (kept n)) [
        | inl taken ↦ rw taken (
            restored_cons originals m x (select kept (suc n) ms') (select kept (suc n) xs)
              (rw (sym adapted, is_object)
                (restored_object originals n item (tail 0 n (omega arith) ∙ ap some is_object)))
              others)
        | inr dropped ↦ rw dropped others
      ])
  where
    item_of :
        (x m : Json)
        → adapted_item n x ≡ ok m
        → (item : Fields) × (x ≡ obj item) × (adapted_object n item ≡ m)
    item_of (obj item) m h = (item, refl, ok_inj h)
    item_of null m h = absurd (cc)
    item_of (bool b) m h = absurd (cc)
    item_of (int i) m h = absurd (cc)
    item_of (negative i) m h = absurd (cc)
    item_of (str s) m h = absurd (cc)
    item_of (arr xs) m h = absurd (cc)

selected_all : (n : ℕ) (xs : Items) → select (λ _. true) n xs ≡ xs
selected_all n nil = refl
selected_all n (cons x xs) = ap (cons x) (selected_all (suc n) xs)

same_result : (r : Result Items) → (r >>= λ xs. ok xs) ≡ r
same_result (ok xs) = refl
same_result (err e) = refl

skips_instructions :
    (v : Json) (originals ms : Items)
    → restored_messages originals (append_items (instruction_message v) ms)
      ≡ restored_messages originals ms
unfolding restored_messages
skips_instructions v originals ms = same_result (restored_messages originals ms)

-- these messages are restored to nothing
abbrev Skips : Items → Items → Items → Type 0
Skips originals ms is =
    restored_messages originals (append_items is ms) ≡ restored_messages originals ms

restored_instructions :
    (given : Option Json) (instructions originals ms : Items)
    → instruction_messages given ≡ ok instructions
    → Skips originals ms instructions
unfolding instruction_messages
restored_instructions none is originals ms h = subst (Skips originals ms) (ok_inj h) refl
restored_instructions (some null) is originals ms h = subst (Skips originals ms) (ok_inj h) refl
restored_instructions (some (str s)) is originals ms h =
    subst (Skips originals ms) (ok_inj h) (skips_instructions (str s) originals ms)
restored_instructions (some (arr xs)) is originals ms h =
    subst (Skips originals ms) (ok_inj h) (skips_instructions (arr xs) originals ms)
restored_instructions (some (bool b)) is originals ms h = absurd (cc)
restored_instructions (some (int i)) is originals ms h = absurd (cc)
restored_instructions (some (negative i)) is originals ms h = absurd (cc)
restored_instructions (some (obj fs)) is originals ms h = absurd (cc)

restored_text :
    (s : String) (kept : ℕ → Bool)
    → restored_messages
        (cons (obj (field "role" (str "user") (field "content" (str s) end))) nil)
        (select kept 0 (cons (sourced_message "user" s (int 0)) nil))
      ≡ ok
          (select kept 0 (cons (obj (field "role" (str "user") (field "content" (str s) end))) nil))
unfolding restored_messages
restored_text s kept = elim (Bool-cases (kept 0)) [
  | inl taken ↦ rw taken refl
  | inr dropped ↦ rw dropped refl
]

adapted_selection :
    (given : Option Json) (kept : ℕ → Bool) (ms : Items)
    → adapted_input given ≡ ok ms
    → (xs : Items) × (originals_of given ≡ ok xs)
      × (restored_messages xs (select kept 0 ms) ≡ ok (select kept 0 xs))
unfolding adapted_input originals_of restored_messages
adapted_selection none kept ms h =
    (nil, refl, subst (λ ms. restored_messages nil (select kept 0 ms) ≡ ok nil) (ok_inj h) refl)
adapted_selection (some (str s)) kept ms h =
    let user = cons (obj (field "role" (str "user") (field "content" (str s) end))) nil in
    (
      user,
      refl,
      subst (λ ms. restored_messages user (select kept 0 ms) ≡ ok (select kept 0 user)) (ok_inj h)
          (restored_text s kept),
    )
adapted_selection (some (arr xs)) kept ms h = (
  xs,
  refl,
  restored_selection xs kept 0 xs ms h
      (λ k m e. let same : m ≡ k = omega (arith, e) in rw same refl),
)
adapted_selection (some null) kept ms h = absurd (cc)
adapted_selection (some (bool b)) kept ms h = absurd (cc)
adapted_selection (some (int i)) kept ms h = absurd (cc)
adapted_selection (some (negative i)) kept ms h = absurd (cc)
adapted_selection (some (obj fs)) kept ms h = absurd (cc)

-- the payload with other messages
abbrev pub with_messages : Items → Fields → Fields
with_messages ms payload = put "messages" (arr ms) payload

from_messages :
    (original : Fields) (ms xs ys : Items)
    → originals_of (get "input" original) ≡ ok xs
    → restored_messages xs ms ≡ ok ys
    → (payload : Fields)
    → from_compiler_payload original (with_messages ms payload) ≡ ok (put "input" (arr ys) original)
unfolding from_compiler_payload
from_messages original ms xs ys h k payload = rw (get-put "messages" (arr ms) payload, h, k) refl

to_payload_inv :
    (p c : Fields)
    → to_compiler_payload p ≡ ok c
    → (is ms : Items) × (instruction_messages (get "instructions" p) ≡ ok is)
      × (adapted_input (get "input" p) ≡ ok ms)
      × (c ≡ with_messages (append_items is ms) p)
unfolding to_compiler_payload
to_payload_inv p c h =
    let (_, _, r) = >>=_inv (reject_hidden_state p) _ h in
    let (is, e, r') = >>=_inv (instruction_messages (get "instructions" p)) _ r in
    let (ms, e', last) =
      >>=_inv (adapted_input (get "input" p)) (λ ms. ok (with_messages (append_items is ms) p))
        r' in
    (is, ms, e, e', sym (ok_inj last))

-- Whatever request the adapter accepts, what it makes for the compiler is restored to the request
-- with its input as an array, each item as it was and in its place, whether it is a message or
-- opaque to the compiler.
pub responses_round_trip :
    (p c : Fields)
    → to_compiler_payload p ≡ ok c
    → (xs : Items) × (originals_of (get "input" p) ≡ ok xs)
      × (from_compiler_payload p c ≡ ok (put "input" (arr xs) p))
responses_round_trip p c h =
    let (is, ms, given, adapted, made) = to_payload_inv p c h in
    let (xs, known, restored) = adapted_selection (get "input" p) (λ _. true) ms adapted in
    let whole : restored_messages xs (append_items is ms) ≡ ok xs =
      restored_instructions (get "instructions" p) is xs ms given
      ∙ subst (λ l. restored_messages xs l ≡ ok xs) (selected_all 0 ms)
          (restored ∙ ap ok (selected_all 0 xs)) in
    (xs, known, rw made (from_messages p (append_items is ms) xs xs known whole p))

-- Of a request that the adapter accepts, any selection of the messages by their positions in the
-- input, with or without the message of the instructions, is restored to the same selection of the
-- original items, in the same order.
pub responses_selection :
    (p c : Fields) (kept : ℕ → Bool)
    → to_compiler_payload p ≡ ok c
    → (is ms xs : Items) × (c ≡ with_messages (append_items is ms) p)
      × (originals_of (get "input" p) ≡ ok xs)
      × (from_compiler_payload p (with_messages (append_items is (select kept 0 ms)) c)
          ≡ ok (put "input" (arr (select kept 0 xs)) p))
      × (from_compiler_payload p (with_messages (select kept 0 ms) c)
          ≡ ok (put "input" (arr (select kept 0 xs)) p))
responses_selection p c kept h =
    let (is, ms, given, adapted, made) = to_payload_inv p c h in
    let (xs, known, restored) = adapted_selection (get "input" p) kept ms adapted in
    (
      is,
      ms,
      xs,
      made,
      known,
      from_messages p (append_items is (select kept 0 ms)) xs (select kept 0 xs) known
          (restored_instructions (get "instructions" p) is xs (select kept 0 ms) given ∙ restored)
          c,
      from_messages p (select kept 0 ms) xs (select kept 0 xs) known restored c,
    )
