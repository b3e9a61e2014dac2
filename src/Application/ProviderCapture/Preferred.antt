-- ===== src/Application/ProviderCapture/Preferred.antt =====
-- Which messages a Responses stream is read as, against a description that does not follow its loop.
use ctx_ttl_oss.Application.ProviderCapture.{
  has_text, responses_message_from_item, append_message, responses_messages_from_payload, object_of,
}
use ctx_ttl_oss.Json.{Json, Fields, get}
use ctx_ttl_oss.Prelude.{
  Option, none, some, List, [], ◌∷◌, ◌++◌, nat_eq, option_eq, list_eq, if◌then◌else◌,
}
use ctx_ttl_oss.Models.Dimensions.{
  kind_eq, scope_eq, retention_eq, applicability_eq, authority_eq, status_eq, event_type_eq,
}

-- the completed message items of the stream
abbrev pub item_messages : List Fields → List Fields
item_messages [] = []
item_messages (event ∷ events) =
    (if has_text (get "type" event) "response.output_item.done"
      then append_message (responses_message_from_item (get "item" event)) []
      else [])
    ++ item_messages events

-- the snapshot of a terminal event
abbrev pub snapshot_of : Fields → Option (List Fields)
snapshot_of event =
    if has_text (get "type" event) "response.completed"
    then elim (object_of (get "response" event)) [
      | none ↦ none
      | some response ↦ some (responses_messages_from_payload (some response))
    ]
    else none

abbrev pub or_snapshot : Option (List Fields) → List Fields → List Fields
or_snapshot none ms = ms
or_snapshot (some ms) _ = ms

-- the snapshot of the last event that has one, or these messages
abbrev pub last_snapshot : List Fields → List Fields → List Fields
last_snapshot ms [] = ms
last_snapshot ms (event ∷ events) = last_snapshot (or_snapshot (snapshot_of event) ms) events
