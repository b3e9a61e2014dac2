-- ===== src/Application/ProviderCapture/Reported.antt =====
-- Which event of a stream its usage is that of.
use ctx_ttl_oss.Application.ProviderCapture.{
  ProviderUsage, token_count, cached_tokens, usage_at, chat_usage_from_payload,
  streaming_chat_usage, responses_usage_from_payload, object_of, or_usage, last_usage, sse_payloads,
  streaming_responses_usage,
}
use ctx_ttl_oss.Json.{Json, Fields, get, str, obj, null, arr, bool, int, negative}
use ctx_ttl_oss.Prelude.{
  ℕ, String, Bool, ◌≡◌, refl, ap, ◌∙◌, true, false, ◌||◌, Option, none, some, List, [], ◌∷◌, ◌++◌,
  nat_eq, string_eq, option_eq, list_eq, any,
}
use ctx_ttl_oss.Models.Dimensions.{
  kind_eq, scope_eq, retention_eq, applicability_eq, authority_eq, status_eq, event_type_eq,
}

abbrev is_object : Option Json → Bool
is_object (some (obj fs)) = true
is_object _ = false

abbrev usage_within : Option Json → Bool
usage_within (some (obj response)) = is_object (get "usage" response)
usage_within _ = false

-- the event has a response with a usage, of whatever type the event is
abbrev pub reports_usage : Fields → Bool
reports_usage event = usage_within (get "response" event)

unread_usage :
    (input details output : String) (o : Option Json)
    → is_object o ≡ false
    → usage_at input details output o ≡ none
unread_usage input details output none h = refl
unread_usage input details output (some null) h = refl
unread_usage input details output (some (bool b)) h = refl
unread_usage input details output (some (int n)) h = refl
unread_usage input details output (some (negative n)) h = refl
unread_usage input details output (some (str s)) h = refl
unread_usage input details output (some (arr xs)) h = refl
unread_usage input details output (some (obj fs)) h = absurd (cc)

-- the chunk has a usage
abbrev pub reports_chat_usage : Fields → Bool
reports_chat_usage chunk = is_object (get "usage" chunk)

unread_chunk :
    (chunk : Fields)
    → reports_chat_usage chunk ≡ false
    → chat_usage_from_payload (some chunk) ≡ none
unfolding chat_usage_from_payload
unread_chunk chunk h =
    unread_usage "prompt_tokens" "prompt_tokens_details" "completion_tokens" (get "usage" chunk) h

unread_response :
    (o : Option Json) → usage_within o ≡ false → responses_usage_from_payload (object_of o) ≡ none
unfolding responses_usage_from_payload
unread_response none h = refl
unread_response (some null) h = refl
unread_response (some (bool b)) h = refl
unread_response (some (int n)) h = refl
unread_response (some (negative n)) h = refl
unread_response (some (str s)) h = refl
unread_response (some (arr xs)) h = refl
unread_response (some (obj r)) h =
    unread_usage "input_tokens" "input_tokens_details" "output_tokens" (get "usage" r) h

neither : (a b : Bool) → (a || b) ≡ false → (a ≡ false) × (b ≡ false)
neither false b h = (refl, h)
neither true b h = absurd (cc)

module _ (read : Fields → Option ProviderUsage) (reports : Fields → Bool)
    (unread : (event : Fields) → reports event ≡ false → read event ≡ none) where
  -- events without a usage change nothing
  unreported :
      (usage : Option ProviderUsage) (events : List Fields)
      → any reports events ≡ false
      → last_usage read usage events ≡ usage
  unreported usage [] h = refl
  unreported usage (event ∷ events) h =
      let (here, later) = neither (reports event) (any reports events) h in
      ap (λ u. last_usage read (or_usage u usage) events) (unread event here)
      ∙ unreported usage events later

  reported :
      (usage : Option ProviderUsage) (before : List Fields) (event : Fields) (after : List Fields)
      {found : ProviderUsage}
      → read event ≡ some found
      → any reports after ≡ false
      → last_usage read usage (before ++ (event ∷ after)) ≡ some found
  reported usage [] event after h quiet =
      ap (λ u. last_usage read (or_usage u usage) after) h ∙ unreported _ after quiet
  reported usage (b ∷ before) event after h quiet =
      reported (or_usage (read b) usage) before event after h quiet

abbrev pub responses_reading : Fields → Option ProviderUsage
responses_reading p = responses_usage_from_payload (object_of (get "response" p))

abbrev pub chat_reading : Fields → Option ProviderUsage
chat_reading p = chat_usage_from_payload (some p)

reading :
    (event response usage : Fields)
    → get "response" event ≡ some (obj response)
    → get "usage" response ≡ some (obj usage)
    → responses_reading event
      ≡ some (record {
        input_tokens = token_count (get "input_tokens" usage);
        cached_input_tokens = token_count (cached_tokens (get "input_tokens_details" usage));
        output_tokens = token_count (get "output_tokens" usage);
      })
unfolding responses_usage_from_payload
reading event response usage h k =
    ap (λ (o : Option Json). responses_usage_from_payload (object_of o)) h
    ∙ ap (usage_at "input_tokens" "input_tokens_details" "output_tokens") k

-- Where an event of a Responses stream has a response with a usage object, and none of the events
-- behind it has one, the usage of the stream is made of the counts of that object, whatever the type
-- of the event and whatever usages were reported before.
pub streaming_responses_usage-last :
    (loads : String → Option Json) (blocks : List String) (status_code : ℕ) (before : List Fields)
    (event : Fields) (after : List Fields) (response usage : Fields)
    → sse_payloads loads blocks status_code ≡ before ++ (event ∷ after)
    → get "response" event ≡ some (obj response)
    → get "usage" response ≡ some (obj usage)
    → any reports_usage after ≡ false
    → streaming_responses_usage loads blocks status_code
      ≡ some (record {
        input_tokens = token_count (get "input_tokens" usage);
        cached_input_tokens = token_count (cached_tokens (get "input_tokens_details" usage));
        output_tokens = token_count (get "output_tokens" usage);
      })
unfolding streaming_responses_usage
streaming_responses_usage-last loads blocks status_code before event after response usage split has
      counts quiet =
    ap (last_usage responses_reading none) split
    ∙ reported responses_reading reports_usage (λ event. unread_response (get "response" event))
        none before event after (reading event response usage has counts) quiet

chat_counts :
    (chunk usage : Fields)
    → get "usage" chunk ≡ some (obj usage)
    → chat_reading chunk
      ≡ some (record {
        input_tokens = token_count (get "prompt_tokens" usage);
        cached_input_tokens = token_count (cached_tokens (get "prompt_tokens_details" usage));
        output_tokens = token_count (get "completion_tokens" usage);
      })
unfolding chat_usage_from_payload
chat_counts chunk usage h =
    ap (usage_at "prompt_tokens" "prompt_tokens_details" "completion_tokens") h

-- Where a chunk of a Chat Completions stream has a usage object, and none of the chunks behind it has
-- one, the usage of the stream is made of the counts of that object, whatever usages were reported
-- before.
pub streaming_chat_usage-last :
    (loads : String → Option Json) (blocks : List String) (status_code : ℕ) (before : List Fields)
    (chunk : Fields) (after : List Fields) (usage : Fields)
    → sse_payloads loads blocks status_code ≡ before ++ (chunk ∷ after)
    → get "usage" chunk ≡ some (obj usage)
    → any reports_chat_usage after ≡ false
    → streaming_chat_usage loads blocks status_code
      ≡ some (record {
        input_tokens = token_count (get "prompt_tokens" usage);
        cached_input_tokens = token_count (cached_tokens (get "prompt_tokens_details" usage));
        output_tokens = token_count (get "completion_tokens" usage);
      })
unfolding streaming_chat_usage
streaming_chat_usage-last loads blocks status_code before chunk after usage split counts quiet =
    ap (last_usage chat_reading none) split
    ∙ reported chat_reading reports_chat_usage unread_chunk none before chunk after
        (chat_counts chunk usage counts) quiet
