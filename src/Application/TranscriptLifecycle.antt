-- ===== src/Application/TranscriptLifecycle.antt =====
-- application/transcript_lifecycle.py: complete turns that an agent has declared inactive are left
-- out before the compilation, and counted. The token estimator is a parameter.
pub mod Counts
pub mod Tests
use ctx_ttl_oss.Prelude.{
  ℕ, zero, suc, ◌+◌, ◌-◌, ◌*◌, ◌/◌, ◌%◌, ◌≤◌, ◌<◌, String, ◌≡◌, refl, sym, ap, subst, ◌∙◌, ◌≢◌, ◌↔◌,
  ◌⊎◌, inl, inr, Bool, true, false, not, ◌&&◌, ◌||◌, Option, none, some, List, [], ◌∷◌, ◌++◌, map,
  arith, Eq, ◌==◌, ==-refl, texts_iff, optional_iff, nat_eq, string_eq, option_eq, list_eq, nat_beq,
  ltb, leb, if◌then◌else◌, Bool-cases, Option-cases, is_some, is_none, or_else, or_text, Error,
  value_error, runtime_error, assertion_error, type_error, integrity_error, context_conflict,
  context_not_found, event_conflict, request_conflict, protocol_violation, token_budget_exceeded,
  structured_ingestion_error, invalid_identity, missing_session_identity, Result, ok, err, ◌>>=◌,
  ◌>>◌, raise_if, or_raise, >>=_inv, raise_if-eq-ok, ok_inj, length, get_elem?, take, keep, any,
  all, find, sum_by, count_by, sum_by-append, count_by-append, length-append, all-keep,
  sum_by-split, keep-append, keep-keep, All-append, All, contains,
}
use ctx_ttl_oss.Json.{
  Json, Items, Fields, null, bool, int, negative, str, arr, obj, nil, cons, end, field, get, put,
  json_eq,
}
use ctx_ttl_oss.Observability.{
  PreCompilationExclusion, no_exclusion, value_of, is_unnamed, validate_reason_totals,
  TokenSavingsLedger, validate_accounting,
}
use Prim.Native.String.{find as find_in, len}

pub record InactiveTranscriptTurn : Type 0 where
  pub marker : String
  pub reason : String

-- `__post_init__`
unfoldable pub construct_turn : InactiveTranscriptTurn → Result InactiveTranscriptTurn
construct_turn t = do
  raise_if (t.marker == "") value_error
  raise_if (t.reason == "") value_error
  ok t

pub record LifecycleFilterResult : Type 0 where
  pub payload : Fields
  pub exclusion : PreCompilationExclusion

-- the variables of the loop
pub record FilterState : Type 0 where
  pub filtered : List Json
  pub message_counts : List (String × ℕ)
  pub token_counts : List (String × ℕ)
  pub active_reason : Option String

-- `counts[reason] = counts.get(reason, 0) + n`
unfoldable pub add_count : List (String × ℕ) → String → ℕ → List (String × ℕ)
add_count [] reason n = (reason, n) ∷ []
add_count ((key, m) ∷ counts) reason n =
    let rest = add_count counts reason n in
    if key == reason then (key, m + n) ∷ counts else (key, m) ∷ rest

-- `marker in content`
contains_text : String → String → Bool
contains_text marker content = leb (find_in content marker) (len content)

is_marked : Option Json → InactiveTranscriptTurn → Bool
unfolding contains_text
is_marked (some (str content)) t = contains_text t.marker content
is_marked _ t = false

abbrev pub reason_of : Option InactiveTranscriptTurn → Option String
reason_of none = none
reason_of (some t) = some t.reason

-- the reason of the first turn whose marker stands in the message
unfoldable pub first_reason : List InactiveTranscriptTurn → Fields → Option String
unfolding is_marked
first_reason turns message = reason_of (find (is_marked (get "content" message)) turns)

-- what `role in {"system", "developer"}` and `role == "user"` tell; a list or a dict has no hash
pub data RoleClass : Type 0 where
  instruction user other unhashable : RoleClass

unfoldable pub role_class : Option Json → RoleClass
role_class (some (str role)) =
    if role == "system" || role == "developer"
    then instruction
    else if role == "user"
    then user
    else other
role_class (some (arr items)) = unhashable
role_class (some (obj fields)) = unhashable
role_class _ = other

abbrev pub keep_message : Json → FilterState → FilterState
keep_message message s = record s { filtered = s.filtered ++ message ∷ [] }

abbrev pub filtered_items : List Json → Items
filtered_items [] = nil
filtered_items (x ∷ xs) = cons x (filtered_items xs)

abbrev pub counted : FilterState → PreCompilationExclusion
counted s = record {
  message_count = sum_by value_of s.message_counts;
  token_count = sum_by value_of s.token_counts;
  message_counts_by_reason = s.message_counts;
  tokens_by_reason = s.token_counts;
}

-- `PreCompilationExclusion(...)`, which validates itself
unfoldable pub exclusion_of : FilterState → Result PreCompilationExclusion
exclusion_of s = do validate_reason_totals (counted s); ok (counted s)

abbrev pub initial_state : FilterState
initial_state = record {
  filtered = [];
  message_counts = [];
  token_counts = [];
  active_reason = none;
}

module _ (estimate : Fields → ℕ) where
  -- `_estimate`
  unfoldable pub estimate_tokens : Fields → Result ℕ
  estimate_tokens message = do
    raise_if (ltb (estimate message) 1) runtime_error
    ok (estimate message)

  -- the end of a round: the message is kept, or counted under the reason
  unfoldable pub place_message : Fields → Option String → FilterState → Result FilterState
  place_message message none s = ok (record (keep_message (obj message) s) { active_reason = none })
  place_message message (some reason) s = do
    n ← estimate_tokens message
    ok (record s {
      message_counts = add_count s.message_counts reason 1;
      token_counts = add_count s.token_counts reason n;
      active_reason = some reason;
    })

  unfoldable pub filter_object :
      List InactiveTranscriptTurn → RoleClass → Fields → FilterState → Result FilterState
  filter_object turns unhashable message s = err type_error
  filter_object turns instruction message s = place_message message none s
  filter_object turns user message s = place_message message (first_reason turns message) s
  filter_object turns other message s = place_message message s.active_reason s

  unfoldable pub filter_message :
      List InactiveTranscriptTurn → Json → FilterState → Result FilterState
  filter_message turns (obj message) s =
      filter_object turns (role_class (get "role" message)) message s
  filter_message turns message s = ok (record (keep_message message s) { active_reason = none })

  unfoldable pub filter_all : List InactiveTranscriptTurn → Items → FilterState → Result FilterState
  filter_all turns nil s = ok s
  filter_all turns (cons message messages) s = do
    s' ← filter_message turns message s
    filter_all turns messages s'

  unfoldable pub filter_transcript :
      List InactiveTranscriptTurn → Fields → Option Json → Result LifecycleFilterResult
  filter_transcript [] payload messages =
      ok (record { payload = payload; exclusion = no_exclusion })
  filter_transcript (t ∷ ts) payload (some (arr items)) = do
    s ← filter_all (t ∷ ts) items initial_state
    exclusion ← exclusion_of s
    ok (record {
      payload = put "messages" (arr (filtered_items s.filtered)) payload;
      exclusion = exclusion;
    })
  filter_transcript (t ∷ ts) payload none =
      ok (record { payload = put "messages" (arr nil) payload; exclusion = no_exclusion })
  filter_transcript (t ∷ ts) payload (some _) =
      ok (record { payload = payload; exclusion = no_exclusion })

  -- `TranscriptLifecycleFilter.apply`
  unfoldable pub filter_payload :
      Fields → List InactiveTranscriptTurn → Result LifecycleFilterResult
  filter_payload payload turns = filter_transcript turns payload (get "messages" payload)
