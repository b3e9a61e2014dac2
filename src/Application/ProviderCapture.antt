-- ===== src/Application/ProviderCapture.antt =====
-- application/provider_capture.py: what is read of a provider's response. `loads` is json.loads, with
-- none where it raises; a stream is the list of the texts of its data blocks.
pub mod Preferred
pub mod Reported
pub mod Tests
use ctx_ttl_oss.Json.{Json, Items, Fields, get, str, end, obj, arr, nil, cons, field, int}
use ctx_ttl_oss.Prelude.{
  ◌>>=◌, ℕ, String, Bool, true, false, ◌&&◌, ◌||◌, Option, none, some, List, [], ◌∷◌, ◌++◌, ◌==◌,
  nat_eq, string_eq, option_eq, list_eq, ltb, leb, if◌then◌else◌, any, Result, ok, err, type_error,
}
use ctx_ttl_oss.Models.Dimensions.{
  kind_eq, scope_eq, retention_eq, applicability_eq, authority_eq, status_eq, event_type_eq,
}

pub record ProviderUsage : Type 0 where
  pub input_tokens : Option ℕ
  pub cached_input_tokens : Option ℕ
  pub output_tokens : Option ℕ

-- `200 <= status_code < 300`
abbrev pub is_success : ℕ → Bool
is_success status_code = leb 200 status_code && ltb status_code 300

-- `_token_count`
abbrev pub token_count : Option Json → Option ℕ
token_count (some (int n)) = some n
token_count _ = none

abbrev pub cached_tokens : Option Json → Option Json
cached_tokens (some (obj details)) = get "cached_tokens" details
cached_tokens _ = none

abbrev pub usage_at : String → String → String → Option Json → Option ProviderUsage
usage_at input details output (some (obj usage)) = some (record {
  input_tokens = token_count (get input usage);
  cached_input_tokens = token_count (cached_tokens (get details usage));
  output_tokens = token_count (get output usage);
})
usage_at input details output _ = none

-- `_chat_usage_from_payload`
unfoldable pub chat_usage_from_payload : Option Fields → Option ProviderUsage
chat_usage_from_payload none = none
chat_usage_from_payload (some payload) =
    usage_at "prompt_tokens" "prompt_tokens_details" "completion_tokens" (get "usage" payload)

-- `_responses_usage_from_payload`
unfoldable pub responses_usage_from_payload : Option Fields → Option ProviderUsage
responses_usage_from_payload none = none
responses_usage_from_payload (some payload) =
    usage_at "input_tokens" "input_tokens_details" "output_tokens" (get "usage" payload)

abbrev pub is_content : Json → Bool
is_content (str s) = true
is_content (arr xs) = true
is_content _ = false

abbrev pub message_with : Option Json → Option Json → Option Fields
message_with (some (str role)) (some content) =
    if is_content content
    then some (field "role" (str role) (field "content" content end))
    else none
message_with _ _ = none

abbrev pub has_text : Option Json → String → Bool
has_text (some (str s)) t = s == t
has_text _ t = false

-- `_responses_message_from_item`
unfoldable pub responses_message_from_item : Option Json → Option Fields
responses_message_from_item (some (obj item)) =
    if has_text (get "type" item) "message"
    then message_with (get "role" item) (get "content" item)
    else none
responses_message_from_item _ = none

abbrev pub append_message : Option Fields → List Fields → List Fields
append_message none ms = ms
append_message (some m) ms = m ∷ ms

abbrev pub messages_of_output : Items → List Fields
messages_of_output nil = []
messages_of_output (cons item items) =
    append_message (responses_message_from_item (some item)) (messages_of_output items)

abbrev pub output_messages : Option Json → List Fields
output_messages (some (arr items)) = messages_of_output items
output_messages _ = []

-- `_responses_messages_from_payload`
unfoldable pub responses_messages_from_payload : Option Fields → List Fields
responses_messages_from_payload none = []
responses_messages_from_payload (some payload) = output_messages (get "output" payload)

abbrev pub object_of : Option Json → Option Fields
object_of (some (obj fs)) = some fs
object_of _ = none

-- the candidate if there is one
abbrev pub or_usage : Option ProviderUsage → Option ProviderUsage → Option ProviderUsage
or_usage none usage = usage
or_usage (some candidate) usage = some candidate

-- `usage = candidate` in a loop
abbrev pub last_usage :
    (Fields → Option ProviderUsage) → Option ProviderUsage → List Fields → Option ProviderUsage
last_usage read usage [] = usage
last_usage read usage (payload ∷ payloads) =
    last_usage read (or_usage (read payload) usage) payloads

-- `terminal_messages or completed_item_messages`
abbrev pub or_messages : List Fields → List Fields → List Fields
or_messages [] completed = completed
or_messages (m ∷ ms) completed = m ∷ ms

-- the loop of `streaming_responses_assistant_messages`, with its two lists
unfoldable pub collect_messages : List Fields → List Fields → List Fields → List Fields
collect_messages completed terminal [] = or_messages terminal completed
collect_messages completed terminal (event ∷ events) =
    let on_item =
      collect_messages
        (completed ++ append_message (responses_message_from_item (get "item" event)) []) terminal
        events in
    let on_end =
      collect_messages completed
        (elim (object_of (get "response" event)) [
          | none ↦ terminal
          | some response ↦ responses_messages_from_payload (some response)
        ])
        events in
    let on_other = collect_messages completed terminal events in
    if has_text (get "type" event) "response.output_item.done"
    then on_item
    else if has_text (get "type" event) "response.completed"
    then on_end
    else on_other

module _ (loads : String → Option Json) where
  -- `_json_object`
  unfoldable pub json_object : String → ℕ → Option Fields
  json_object body status_code = if is_success status_code then object_of (loads body) else none

  abbrev pub payloads_of : List String → List Fields
  payloads_of [] = []
  payloads_of (data' ∷ blocks) =
      let rest = payloads_of blocks in
      if data' == "[DONE]" then rest else append_message (object_of (loads data')) rest

  -- `_sse_payloads`
  unfoldable pub sse_payloads : List String → ℕ → List Fields
  sse_payloads blocks status_code = if is_success status_code then payloads_of blocks else []

  unfoldable pub chat_usage : String → ℕ → Option ProviderUsage
  chat_usage body status_code = chat_usage_from_payload (json_object body status_code)

  unfoldable pub streaming_chat_usage : List String → ℕ → Option ProviderUsage
  streaming_chat_usage blocks status_code =
      last_usage (λ p. chat_usage_from_payload (some p)) none (sse_payloads blocks status_code)

  unfoldable pub responses_assistant_messages : String → ℕ → List Fields
  responses_assistant_messages body status_code =
      responses_messages_from_payload (json_object body status_code)

  unfoldable pub responses_usage : String → ℕ → Option ProviderUsage
  responses_usage body status_code = responses_usage_from_payload (json_object body status_code)

  unfoldable pub streaming_responses_usage : List String → ℕ → Option ProviderUsage
  streaming_responses_usage blocks status_code =
      last_usage (λ p. responses_usage_from_payload (object_of (get "response" p))) none
        (sse_payloads blocks status_code)

  unfoldable pub streaming_responses_assistant_messages : List String → ℕ → List Fields
  streaming_responses_assistant_messages blocks status_code =
      collect_messages [] [] (sse_payloads blocks status_code)

-- `event.get("type") in terminal_types`: a list or a dict cannot be looked up in a set
abbrev pub is_terminal : Option Json → Result Bool
is_terminal (some (str t)) = ok (
    t == "response.completed"
    || t == "response.failed"
    || t == "response.incomplete"
    || t == "response.cancelled")
is_terminal (some (arr xs)) = err type_error
is_terminal (some (obj fs)) = err type_error
is_terminal _ = ok false

-- `any(...)`, which ends at the first event that is terminal
any_terminal : List Fields → Result Bool
any_terminal [] = ok false
any_terminal (event ∷ events) =
    let rest = any_terminal events in
    do here ← is_terminal (get "type" event); if here then ok true else rest

unfoldable pub streaming_responses_terminal : (String → Option Json) → List String → ℕ → Result Bool
unfolding any_terminal
streaming_responses_terminal loads blocks status_code =
    any_terminal (sse_payloads loads blocks status_code)

-- of the texts of all blocks, a block without data included
unfoldable pub streaming_chat_terminal : List String → ℕ → Bool
streaming_chat_terminal blocks status_code =
    is_success status_code && any (λ data'. data' == "[DONE]") blocks
