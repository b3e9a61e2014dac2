-- ===== src/Application/TranscriptLifecycle/Tests.antt =====
-- A transcript with one inactive turn, and the theorem at it.
use ctx_ttl_oss.Prelude.{
  ℕ, ◌+◌, String, ◌≡◌, refl, none, [], ◌∷◌, nat_eq, string_eq, option_eq, list_eq, ok, length,
}
use ctx_ttl_oss.Json.{Json, Items, Fields, str, arr, obj, nil, cons, end, field, put}
use ctx_ttl_oss.Application.TranscriptLifecycle.{
  InactiveTranscriptTurn, FilterState, add_count, is_marked, first_reason, role_class,
  estimate_tokens, place_message, filter_object, filter_message, filter_all, filtered_items,
  counted, initial_state, filter_payload,
}
use ctx_ttl_oss.Application.TranscriptLifecycle.Counts.{filter-counts_messages, item_count}

abbrev inactive_turn : InactiveTranscriptTurn
inactive_turn = record { marker = "[old]"; reason = "inactive" }

abbrev text_message : String → String → Json
text_message role content = obj (field "role" (str role) (field "content" (str content) end))

abbrev transcript : Items
transcript = cons (text_message "system" "rules") (
    cons (text_message "user" "this is [old]")
      (cons (text_message "assistant" "answer") (cons (text_message "user" "new") nil)))

abbrev payload : Fields
payload = field "model" (str "m") (field "messages" (arr transcript) end)

abbrev final_state : FilterState
final_state = record {
  filtered = text_message "system" "rules" ∷ text_message "user" "new" ∷ [];
  message_counts = ("inactive", 2) ∷ [];
  token_counts = ("inactive", 10) ∷ [];
  active_reason = none;
}

abbrev five : Fields → ℕ
five m = 5

filter_all-transcript :
    filter_all five (inactive_turn ∷ []) transcript initial_state ≡ ok final_state
unfolding filter_all filter_message filter_object role_class first_reason is_marked place_message
    estimate_tokens add_count
filter_all-transcript = refl

filter-counts_messages_example :
    (filter_payload five payload (inactive_turn ∷ [])
      ≡ ok (record {
        payload = put "messages" (arr (filtered_items final_state.filtered)) payload;
        exclusion = counted final_state;
      }))
    × (length final_state.filtered + (counted final_state).message_count ≡ item_count transcript)
filter-counts_messages_example =
    filter-counts_messages five inactive_turn [] payload transcript (refl, tt) refl
      filter_all-transcript
