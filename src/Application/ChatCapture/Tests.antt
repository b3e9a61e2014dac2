-- ===== src/Application/ChatCapture/Tests.antt =====
-- A short stream of two choices, and the theorem at it.
use ctx_ttl_oss.Application.ChatCapture.Replies.{streaming_assistant_messages-stream_text}
use ctx_ttl_oss.Application.ChatCapture.Fragments.{content_of}
use ctx_ttl_oss.Application.ChatCapture.Assembles.{text_at}
use ctx_ttl_oss.Application.ChatCapture.{
  natural, merge_delta, merge_choice, merge_payloads, streaming_assistant_messages,
}
use ctx_ttl_oss.Prelude.Sort.{sorted}
use ctx_ttl_oss.Json.{Fields, str, end, obj, arr, nil, cons, field, int, Json}
use ctx_ttl_oss.Prelude.{
  ℕ, String, ◌≡◌, refl, List, [], ◌∷◌, nat_eq, string_eq, option_eq, list_eq, true, Option, none,
  some, ◌==◌, if◌then◌else◌, any,
}
use ctx_ttl_oss.Models.Dimensions.{
  kind_eq, scope_eq, retention_eq, applicability_eq, authority_eq, status_eq, event_type_eq,
}

abbrev delta_event : ℕ → String → Fields
delta_event index fragment =
    field "choices"
      (arr (
        cons
          (obj (
            field "index" (int index)
              (field "delta" (obj (field "content" (str fragment) end)) end)))
          nil))
      end

abbrev delta_events : List Fields
delta_events = delta_event 1 "Post" ∷ delta_event 0 "Hi" ∷ delta_event 1 "gres" ∷ []

delta_events-merged : text_at (natural 1) (merge_payloads delta_events []) ≡ "Postgres"
unfolding merge_payloads merge_choice merge_delta
delta_events-merged = refl

-- the deltas as the data of a stream
abbrev delta_loads : String → Option Json
delta_loads t =
    if t == "a"
    then some (obj (delta_event 1 "Post"))
    else if t == "b"
    then some (obj (delta_event 0 "Hi"))
    else if t == "c"
    then some (obj (delta_event 1 "gres"))
    else none

abbrev delta_blocks : List String
delta_blocks = "a" ∷ "b" ∷ "broken" ∷ "c" ∷ "[DONE]" ∷ []

delta_blocks-read :
    streaming_assistant_messages delta_loads delta_blocks 200
    ≡ field "role" (str "assistant") (field "content" (str "Hi") end)
      ∷ field "role" (str "assistant") (field "content" (str "Postgres") end)
      ∷ []
unfolding streaming_assistant_messages merge_payloads merge_choice merge_delta sorted
delta_blocks-read = refl

streaming_assistant_messages-stream_text_example :
    any
      (λ m. content_of m == "Postgres")
      (streaming_assistant_messages delta_loads delta_blocks 200)
    ≡ true
streaming_assistant_messages-stream_text_example =
    streaming_assistant_messages-stream_text delta_loads delta_blocks 200 (natural 1) refl refl
