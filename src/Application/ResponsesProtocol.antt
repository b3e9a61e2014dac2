-- ===== src/Application/ResponsesProtocol.antt =====
-- application/responses_protocol.py: the Responses input as messages for the compiler, and back.
pub mod Restores
pub mod Tests
use ctx_ttl_oss.Json.{
  Json, Items, Fields, get, put, str, end, obj, null, arr, nil, cons, field, int, negative,
}
use ctx_ttl_oss.Models.Dimensions.{
  kind_eq, scope_eq, retention_eq, applicability_eq, authority_eq, status_eq, event_type_eq,
}
use ctx_ttl_oss.Prelude.{
  ◌>>=◌, ◌>>◌, raise_if, protocol_violation, ℕ, zero, suc, String, Bool, true, false, ◌||◌, Option,
  none, some, ◌==◌, nat_eq, string_eq, option_eq, list_eq, if◌then◌else◌, Result, ok, err,
}
use ctx_ttl_oss.Json.Print.{dumps}

-- `_SOURCE_KEY`
abbrev pub source_key : String
source_key = "_ctxttl_responses_source"

abbrev is_value : Option Json → Bool
is_value none = false
is_value (some null) = false
is_value (some _) = true

-- `_reject_hidden_state`
unfoldable pub reject_hidden_state : Fields → Result (Unit {0})
reject_hidden_state payload =
    raise_if
      (is_value (get "previous_response_id" payload)
        || is_value (get "conversation" payload)
        || is_value (get "prompt" payload))
      protocol_violation

-- `_compiler_content`
abbrev pub compiler_content : Json → String
compiler_content (str s) = s
compiler_content v = dumps v

abbrev pub sourced_message : String → String → Json → Json
sourced_message role content source =
    obj (field "role" (str role) (field "content" (str content) (field source_key source end)))

abbrev pub instruction_message : Json → Items
instruction_message v =
    cons (sourced_message "developer" (compiler_content v) (str "instructions")) nil

unfoldable pub instruction_messages : Option Json → Result Items
instruction_messages none = ok nil
instruction_messages (some null) = ok nil
instruction_messages (some (str s)) = ok (instruction_message (str s))
instruction_messages (some (arr xs)) = ok (instruction_message (arr xs))
instruction_messages (some _) = err protocol_violation

-- `role in _MESSAGE_ROLES`
abbrev pub is_message_role : Option Json → Bool
is_message_role (some (str role)) =
    role == "system" || role == "developer" || role == "user" || role == "assistant"
is_message_role _ = false

abbrev pub adapted_object : ℕ → Fields → Json
adapted_object index item =
    if is_message_role (get "role" item)
    then obj (put source_key (int index) item)
    else sourced_message "developer" (dumps (obj item)) (int index)

abbrev pub adapted_item : ℕ → Json → Result Json
adapted_item index (obj item) = ok (adapted_object index item)
adapted_item index _ = err protocol_violation

-- the loop over the input, from a position on
unfoldable pub adapted_items : ℕ → Items → Result Items
adapted_items index nil = ok nil
adapted_items index (cons x xs) = do
  m ← adapted_item index x
  ms ← adapted_items (suc index) xs
  ok (cons m ms)

unfoldable pub adapted_input : Option Json → Result Items
unfolding adapted_items
adapted_input none = ok nil
adapted_input (some (str s)) = ok (cons (sourced_message "user" s (int 0)) nil)
adapted_input (some (arr xs)) = adapted_items 0 xs
adapted_input (some _) = err protocol_violation

abbrev pub append_items : Items → Items → Items
append_items nil ys = ys
append_items (cons x xs) ys = cons x (append_items xs ys)

unfoldable pub to_compiler_payload : Fields → Result Fields
to_compiler_payload payload = do
  reject_hidden_state payload
  instructions ← instruction_messages (get "instructions" payload)
  messages ← adapted_input (get "input" payload)
  ok (put "messages" (arr (append_items instructions messages)) payload)

unfoldable pub originals_of : Option Json → Result Items
originals_of none = ok nil
originals_of (some (str s)) =
    ok (cons (obj (field "role" (str "user") (field "content" (str s) end))) nil)
originals_of (some (arr xs)) = ok xs
originals_of (some _) = err protocol_violation

abbrev pub item_at_index : ℕ → Items → Option Json
item_at_index n nil = none
item_at_index zero (cons x xs) = some x
item_at_index (suc n) (cons x xs) = item_at_index n xs

abbrev pub original_object : Option Json → Result Items
original_object (some (obj item)) = ok (cons (obj item) nil)
original_object _ = err protocol_violation

abbrev pub rendered_message : Option Json → Option Json → Result Items
rendered_message (some (str role)) (some (str content)) =
    ok (cons (obj (field "role" (str role) (field "content" (str content) end))) nil)
rendered_message (some (str role)) (some (arr content)) =
    ok (cons (obj (field "role" (str role) (field "content" (arr content) end))) nil)
rendered_message _ _ = err protocol_violation

-- a message of the compiler, as no item of the input or as one
abbrev pub restored_by : Items → Fields → Option Json → Result Items
restored_by originals m (some (int n)) = original_object (item_at_index n originals)
restored_by originals m (some (negative n)) = err protocol_violation
restored_by originals m (some (str s)) =
    if s == "instructions" then ok nil else rendered_message (get "role" m) (get "content" m)
restored_by originals m _ = rendered_message (get "role" m) (get "content" m)

abbrev pub restored_message : Items → Json → Result Items
restored_message originals (obj m) = restored_by originals m (get source_key m)
restored_message originals _ = err protocol_violation

-- the loop over the compiled messages
unfoldable pub restored_messages : Items → Items → Result Items
restored_messages originals nil = ok nil
restored_messages originals (cons m ms) = do
  x ← restored_message originals m
  xs ← restored_messages originals ms
  ok (append_items x xs)

abbrev pub message_items : Option Json → Result Items
message_items (some (arr ms)) = ok ms
message_items _ = err protocol_violation

unfoldable pub from_compiler_payload : Fields → Fields → Result Fields
from_compiler_payload original output = do
  messages ← message_items (get "messages" output)
  originals ← originals_of (get "input" original)
  items ← restored_messages originals messages
  ok (put "input" (arr items) original)
