-- ===== src/Application/ProviderCapture/Tests.antt =====
-- A short stream, and the theorems at it.
use ctx_ttl_oss.Application.ProviderCapture.Reported.{
  streaming_responses_usage-last, streaming_chat_usage-last,
}
use ctx_ttl_oss.Application.ProviderCapture.{
  chat_usage_from_payload, sse_payloads, streaming_chat_usage, streaming_responses_usage,
  streaming_responses_assistant_messages, responses_usage_from_payload, responses_message_from_item,
  responses_messages_from_payload, collect_messages,
}
use ctx_ttl_oss.Json.{Json, end, obj, field, bool, int, Fields, str, arr, nil, cons}
use ctx_ttl_oss.Prelude.{
  ℕ, String, ◌≡◌, refl, true, Option, none, some, List, [], ◌∷◌, ◌==◌, nat_eq, string_eq, option_eq,
  list_eq, if◌then◌else◌,
}
use ctx_ttl_oss.Models.Dimensions.{
  kind_eq, scope_eq, retention_eq, applicability_eq, authority_eq, status_eq, event_type_eq,
}

abbrev usage_event : ℕ → Json
usage_event n = obj (
    field "usage" (obj (field "prompt_tokens" (int n) (field "completion_tokens" (bool true) end)))
      end)

abbrev response_event : String → Fields → Json
response_event type response = obj (field "type" (str type) (field "response" (obj response) end))

abbrev input_usage : ℕ → Fields
input_usage n = field "usage" (obj (field "input_tokens" (int n) end)) end

abbrev reply_message : String → Fields
reply_message text = field "role" (str "assistant") (field "content" (str text) end)

abbrev reply_item : String → Json
reply_item text = obj (field "type" (str "message") (reply_message text))

abbrev done_event : String → Json
done_event text =
    obj (field "type" (str "response.output_item.done") (field "item" (reply_item text) end))

abbrev output_of : String → Fields
output_of text = field "output" (arr (cons (reply_item text) nil)) end

abbrev sample_loads : String → Option Json
sample_loads t =
    if t == "u1"
    then some (usage_event 7)
    else if t == "u2"
    then some (usage_event 9)
    else if t == "ended"
    then some (response_event "response.completed" (input_usage 5))
    else if t == "late"
    then some (response_event "response.in_progress" (input_usage 6))
    else if t == "whole"
    then some (response_event "response.completed" (output_of "all"))
    else if t == "broken"
    then none
    else some (done_event t)

abbrev sample_blocks : List String
sample_blocks = "u1" ∷ "ended" ∷ "u2" ∷ "late" ∷ "broken" ∷ "[DONE]" ∷ []

-- a snapshot without messages, with an item on each side of it
abbrev item_blocks : List String
item_blocks = "Hi" ∷ "ended" ∷ "there" ∷ []

abbrev snapshot_blocks : List String
snapshot_blocks = "Hi" ∷ "whole" ∷ "there" ∷ []

streaming-sample :
    streaming_chat_usage sample_loads sample_blocks 200
    ≡ some (record { input_tokens = some 9; cached_input_tokens = none; output_tokens = none })
unfolding streaming_chat_usage sse_payloads chat_usage_from_payload
streaming-sample = refl

-- the usage of an event that is not terminal is read as well
streaming-late :
    streaming_responses_usage sample_loads sample_blocks 200
    ≡ some (record { input_tokens = some 6; cached_input_tokens = none; output_tokens = none })
unfolding streaming_responses_usage sse_payloads responses_usage_from_payload
streaming-late = refl

streaming-snapshot :
    streaming_responses_assistant_messages sample_loads snapshot_blocks 200
    ≡ reply_message "all" ∷ []
unfolding streaming_responses_assistant_messages sse_payloads collect_messages
    responses_message_from_item responses_messages_from_payload
streaming-snapshot = refl

streaming-items :
    streaming_responses_assistant_messages sample_loads item_blocks 200
    ≡ reply_message "Hi" ∷ reply_message "there" ∷ []
unfolding streaming_responses_assistant_messages sse_payloads collect_messages
    responses_message_from_item responses_messages_from_payload
streaming-items = refl

-- the fields of an event
abbrev fields_of : Json → Fields
fields_of (obj fs) = fs
fields_of _ = end

sample_blocks-read :
    sse_payloads sample_loads sample_blocks 200
    ≡ fields_of (usage_event 7)
      ∷ fields_of (response_event "response.completed" (input_usage 5))
      ∷ fields_of (usage_event 9)
      ∷ fields_of (response_event "response.in_progress" (input_usage 6))
      ∷ []
unfolding sse_payloads
sample_blocks-read = refl

-- of two usages, the second of an event that is not terminal, the second is read
streaming_responses_usage-last_example :
    streaming_responses_usage sample_loads sample_blocks 200
    ≡ some (record { input_tokens = some 6; cached_input_tokens = none; output_tokens = none })
streaming_responses_usage-last_example =
    streaming_responses_usage-last sample_loads sample_blocks 200
      (fields_of (usage_event 7)
        ∷ fields_of (response_event "response.completed" (input_usage 5))
        ∷ fields_of (usage_event 9)
        ∷ [])
      (fields_of (response_event "response.in_progress" (input_usage 6))) [] (input_usage 6)
      (field "input_tokens" (int 6) end) sample_blocks-read refl refl refl

streaming_chat_usage-last_example :
    streaming_chat_usage sample_loads sample_blocks 200
    ≡ some (record { input_tokens = some 9; cached_input_tokens = none; output_tokens = none })
streaming_chat_usage-last_example =
    streaming_chat_usage-last sample_loads sample_blocks 200
      (fields_of (usage_event 7)
        ∷ fields_of (response_event "response.completed" (input_usage 5))
        ∷ [])
      (fields_of (usage_event 9))
      (fields_of (response_event "response.in_progress" (input_usage 6)) ∷ [])
      (field "prompt_tokens" (int 9) (field "completion_tokens" (bool true) end)) sample_blocks-read
      refl refl
