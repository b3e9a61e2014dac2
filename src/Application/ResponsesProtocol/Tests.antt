-- ===== src/Application/ResponsesProtocol/Tests.antt =====
-- One request in both directions, and the theorems at it.
use ctx_ttl_oss.Json.Print.{dumps}
use ctx_ttl_oss.Application.ResponsesProtocol.Restores.{select}
use ctx_ttl_oss.Application.ResponsesProtocol.Restores.{
  with_messages, responses_round_trip, responses_selection,
}
use ctx_ttl_oss.Application.ResponsesProtocol.{
  source_key, reject_hidden_state, sourced_message, instruction_messages, adapted_input,
  append_items, to_compiler_payload, originals_of, from_compiler_payload,
}
use ctx_ttl_oss.Json.{Items, Fields, get, put, str, end, obj, arr, nil, cons, field, int}
use ctx_ttl_oss.Prelude.{ℕ, ◌≡◌, refl, Bool, ◌==◌, nat_eq, string_eq, option_eq, list_eq, ok}
use ctx_ttl_oss.Models.Dimensions.{
  kind_eq, scope_eq, retention_eq, applicability_eq, authority_eq, status_eq, event_type_eq,
}

abbrev question : Fields
question = field "role" (str "user") (field "content" (str "Which database?") end)

abbrev reasoning : Fields
reasoning = field "type" (str "reasoning") (field "id" (str "r1") end)

abbrev responses_input : Items
responses_input = cons (obj reasoning) (cons (obj question) nil)

abbrev responses_request : Fields
responses_request =
    field "model" (str "m")
      (field "instructions" (str "Be brief.") (field "input" (arr responses_input) end))

abbrev responses_messages : Items
responses_messages = cons (sourced_message "developer" "Be brief." (str "instructions")) (
    cons (sourced_message "developer" "{\"id\":\"r1\",\"type\":\"reasoning\"}" (int 0)) (
      cons
        (obj (
          field "role" (str "user")
            (field "content" (str "Which database?") (field source_key (int 1) end))))
        nil))

responses_request-adapted :
    to_compiler_payload responses_request ≡ ok (with_messages responses_messages responses_request)
unfolding to_compiler_payload reject_hidden_state instruction_messages adapted_input dumps
responses_request-adapted = refl

responses_round_trip_example :
    (xs : Items) × (originals_of (get "input" responses_request) ≡ ok xs)
    × (from_compiler_payload responses_request (with_messages responses_messages responses_request)
        ≡ ok (put "input" (arr xs) responses_request))
responses_round_trip_example =
    responses_round_trip responses_request (with_messages responses_messages responses_request)
      responses_request-adapted

-- the first item only
abbrev first_only : ℕ → Bool
first_only n = n == 0

responses_selection_example :
    (is ms xs : Items) × (with_messages responses_messages responses_request
      ≡ with_messages (append_items is ms) responses_request)
    × (originals_of (get "input" responses_request) ≡ ok xs)
    × (from_compiler_payload responses_request (
          with_messages
            (append_items is (select first_only 0 ms))
            (with_messages responses_messages responses_request))
        ≡ ok (put "input" (arr (select first_only 0 xs)) responses_request))
    × (from_compiler_payload responses_request (
          with_messages
            (select first_only 0 ms)
            (with_messages responses_messages responses_request))
        ≡ ok (put "input" (arr (select first_only 0 xs)) responses_request))
responses_selection_example =
    responses_selection responses_request (with_messages responses_messages responses_request)
      first_only responses_request-adapted
