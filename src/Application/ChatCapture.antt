-- ===== src/Application/ChatCapture.antt =====
-- application/chat_capture.py: the assistant messages of a Chat Completions response. `loads` is
-- json.loads, with none where it raises; a stream is the list of the texts of its data blocks.
pub mod Fragments
pub mod Assembles
pub mod Roles
pub mod Replies
pub mod Tests
use Prim.Native.String.{◌++◌ as ◌+++◌}
use ctx_ttl_oss.Prelude.Sort.{sorted}
use ctx_ttl_oss.Application.ProviderCapture.{is_success, object_of, json_object, payloads_of}
use ctx_ttl_oss.Json.{
  Json, Items, Fields, get, put, field_count, str, end, obj, arr, nil, cons, field, bool, int,
  negative,
}
use ctx_ttl_oss.Prelude.{
  ℕ, String, Bool, true, false, Option, none, some, List, [], ◌∷◌, ◌++◌, ◌==◌, nat_eq, string_eq,
  option_eq, list_eq, ltb, leb, if◌then◌else◌,
}
use ctx_ttl_oss.Models.Dimensions.{
  kind_eq, scope_eq, retention_eq, applicability_eq, authority_eq, status_eq, event_type_eq,
}

-- `isinstance(value, int)`: a key of a dict, in which True is 1
pub data Index : Type 0 where
  natural : ℕ → Index
  below_zero : ℕ → Index

abbrev pub index_of : Option Json → Option Index
index_of (some (int n)) = some (natural n)
index_of (some (negative n)) = some (below_zero n)
index_of (some (bool true)) = some (natural 1)
index_of (some (bool false)) = some (natural 0)
index_of _ = none

abbrev pub same_index : Index → Index → Bool
same_index (natural m) (natural n) = m == n
same_index (below_zero m) (below_zero n) = m == n
same_index _ _ = false

abbrev pub index_le : Index → Index → Bool
index_le (natural m) (natural n) = leb m n
index_le (natural m) (below_zero n) = false
index_le (below_zero m) (natural n) = true
index_le (below_zero m) (below_zero n) = leb n m

-- `raw_choice.get("index", 0)`
abbrev pub or_first : Option Json → Option Json
or_first none = some (int 0)
or_first (some v) = some v

abbrev pub text_or_empty : Option Json → String
text_or_empty (some (str s)) = s
text_or_empty _ = ""

-- `d[field] = f"{d.get(field, '')}{fragment}"`, for a string
abbrev pub add_fragment : String → Option Json → Fields → Fields
add_fragment key (some (str fragment)) d = put key (str (text_or_empty (get key d) +++ fragment)) d
add_fragment key _ d = d

abbrev pub set_text : String → Option Json → Fields → Fields
set_text key (some (str s)) d = put key (str s) d
set_text key _ d = d

-- `d.setdefault(key, {})`
abbrev pub object_or_empty : Option Json → Fields
object_or_empty (some (obj fs)) = fs
object_or_empty _ = end

-- `_merge_function_call`
unfoldable pub merge_function_call : Option Json → Fields → Fields
merge_function_call (some (obj raw)) message' =
    let call = object_or_empty (get "function_call" message') in
    put "function_call"
      (obj (
        add_fragment "arguments" (get "arguments" raw) (add_fragment "name" (get "name" raw) call)))
      message'
merge_function_call _ message' = message'

-- a dict with integers for keys, in the order of insertion
abbrev pub update_at : {A : Type 0} → A → Index → (A → A) → List (Index × A) → List (Index × A)
update_at default i f [] = (i, f default) ∷ []
update_at default i f ((j, a) ∷ rest) =
    let others = update_at default i f rest in
    if same_index i j then (j, f a) ∷ rest else (j, a) ∷ others

abbrev pub merge_function : Option Json → Fields → Fields
merge_function (some (obj function)) call =
    let target = object_or_empty (get "function" call) in
    put "function"
      (obj (
        add_fragment "arguments" (get "arguments" function)
          (set_text "name" (get "name" function) target)))
      call
merge_function _ call = call

abbrev pub merge_call : Fields → Fields → Fields
merge_call raw call =
    merge_function (get "function" raw)
      (set_text "type" (get "type" raw) (set_text "id" (get "id" raw) call))

abbrev pub merge_call_at : Option Index → Fields → List (Index × Fields) → List (Index × Fields)
merge_call_at none raw calls = calls
merge_call_at (some i) raw calls = update_at end i (merge_call raw) calls

abbrev pub merge_raw_call : Json → List (Index × Fields) → List (Index × Fields)
merge_raw_call (obj raw) calls = merge_call_at (index_of (get "index" raw)) raw calls
merge_raw_call _ calls = calls

abbrev pub merge_raw_calls : Items → List (Index × Fields) → List (Index × Fields)
merge_raw_calls nil calls = calls
merge_raw_calls (cons raw rest) calls = merge_raw_calls rest (merge_raw_call raw calls)

-- `_merge_tool_calls`
unfoldable pub merge_tool_calls : Option Json → List (Index × Fields) → List (Index × Fields)
merge_tool_calls (some (arr raw_calls)) calls = merge_raw_calls raw_calls calls
merge_tool_calls _ calls = calls

-- the entries of one index in `choices` and `tool_calls`, which are made together
pub record Choice : Type 0 where
  pub reply : Fields
  pub calls : List (Index × Fields)

abbrev pub new_choice : Choice
new_choice = record { reply = field "role" (str "assistant") end; calls = [] }

unfoldable pub merge_delta : Fields → Choice → Choice
unfolding merge_function_call merge_tool_calls
merge_delta delta c = record {
  reply = merge_function_call (get "function_call" delta) (
      add_fragment "refusal" (get "refusal" delta) (
        add_fragment "content" (get "content" delta) (set_text "role" (get "role" delta) c.reply)));
  calls = merge_tool_calls (get "tool_calls" delta) c.calls;
}

abbrev pub merge_indexed :
    Option Index → Option Json → List (Index × Choice) → List (Index × Choice)
merge_indexed (some i) (some (obj delta)) choices =
    update_at new_choice i (merge_delta delta) choices
merge_indexed _ _ choices = choices

unfoldable pub merge_choice : Json → List (Index × Choice) → List (Index × Choice)
merge_choice (obj raw) choices =
    merge_indexed (index_of (or_first (get "index" raw))) (get "delta" raw) choices
merge_choice _ choices = choices

abbrev pub merge_choices : Items → List (Index × Choice) → List (Index × Choice)
merge_choices nil choices = choices
merge_choices (cons raw rest) choices = merge_choices rest (merge_choice raw choices)

abbrev pub choice_items : Option Json → Items
choice_items (some (arr cs)) = cs
choice_items _ = nil

-- the loop over the payloads
unfoldable pub merge_payloads : List Fields → List (Index × Choice) → List (Index × Choice)
merge_payloads [] choices = choices
merge_payloads (p ∷ ps) choices =
    merge_payloads ps (merge_choices (choice_items (get "choices" p)) choices)

abbrev pub call_items : List (Index × Fields) → Items
call_items [] = nil
call_items ((i, c) ∷ rest) = cons (obj c) (call_items rest)

abbrev pub by_index : {A : Type 0} → Index × A → Index × A → Bool
by_index (i, _) (j, _) = index_le i j

abbrev pub with_calls : List (Index × Fields) → Fields → Fields
with_calls [] message' = message'
with_calls (c ∷ cs) message' =
    put "tool_calls" (arr (call_items (sorted by_index (c ∷ cs)))) message'

abbrev pub assembled_messages : List (Index × Choice) → List Fields
assembled_messages [] = []
assembled_messages ((i, c) ∷ rest) =
    let others = assembled_messages rest in
    let whole = with_calls c.calls c.reply in
    if ltb 1 (field_count whole) then whole ∷ others else others

unfoldable pub streaming_assistant_messages : (String → Option Json) → List String → ℕ → List Fields
streaming_assistant_messages loads blocks status_code =
    if is_success status_code
    then assembled_messages (sorted by_index (merge_payloads (payloads_of loads blocks) []))
    else []

abbrev pub message_of_choice : Json → List Fields
message_of_choice (obj choice) = elim (object_of (get "message" choice)) [
  | none ↦ []
  | some m ↦ elim (get "role" m) [ some (str role) ↦ m ∷ [] | _ ↦ [] ]
]
message_of_choice _ = []

abbrev pub messages_of_choices : Items → List Fields
messages_of_choices nil = []
messages_of_choices (cons c cs) = message_of_choice c ++ messages_of_choices cs

abbrev pub object_messages : Option Fields → List Fields
object_messages none = []
object_messages (some payload) = messages_of_choices (choice_items (get "choices" payload))

unfoldable pub buffered_assistant_messages : (String → Option Json) → String → ℕ → List Fields
buffered_assistant_messages loads body status_code =
    object_messages (json_object loads body status_code)
