-- ===== src/Compiler/Units.antt =====
-- compiler/openai.py: the messages of a request, and the units that are kept or dropped whole.
-- `_message_units` reads the messages in two nested loops; here one pass keeps the open group of the
-- inner loop, and closes it where that loop ends.
pub mod Partition
pub mod Costs
pub mod Indices
pub mod Instructions
use Prim.Native.Nat.{min, max}
use ctx_ttl_oss.Json.{
  Json, Items, Fields, null, bool, int, negative, str, arr, obj, nil, cons, end, field, get, put,
  json_eq,
}
use ctx_ttl_oss.Prelude.{
  ℕ, zero, suc, ◌+◌, ◌-◌, ◌*◌, ◌/◌, ◌%◌, ◌≤◌, ◌<◌, String, ◌≡◌, refl, sym, ap, subst, ◌∙◌, ◌≢◌, ◌↔◌,
  ◌⊎◌, inl, inr, Bool, true, false, not, ◌&&◌, ◌||◌, Option, none, some, List, [], ◌∷◌, ◌++◌, map,
  arith, Eq, ◌==◌, ==-refl, texts_iff, optional_iff, nat_eq, string_eq, option_eq, list_eq, nat_beq,
  ltb, leb, if◌then◌else◌, Bool-cases, Option-cases, is_some, is_none, or_else, or_text, Error,
  value_error, runtime_error, assertion_error, integrity_error, context_conflict, context_not_found,
  event_conflict, request_conflict, protocol_violation, token_budget_exceeded,
  structured_ingestion_error, invalid_identity, missing_session_identity, Result, ok, err, ◌>>=◌,
  ◌>>◌, raise_if, or_raise, >>=_inv, raise_if-eq-ok, ok_inj, length, get_elem?, take, keep, any,
  all, find, sum_by, count_by, sum_by-append, count_by-append, length-append, all-keep,
  sum_by-split, keep-append, keep-keep, All-append, All, contains,
}

-- a message that `_normalize_messages` lets through
pub record Message : Type 0 where
  pub fields : Fields
  pub role : String

unfoldable pub normalize_message : Json → Result Message
normalize_message (obj fs) = elim (get "role" fs) [
  | some (str s) ↦ if s == "" then err protocol_violation else ok (record { fields = fs; role = s })
  | _ ↦ err protocol_violation
]
normalize_message _ = err protocol_violation

unfoldable pub normalize_messages : List Json → Result (List Message)
unfolding normalize_message
normalize_messages [] = ok []
normalize_messages (j ∷ js) = do m ← normalize_message j; ms ← normalize_messages js; ok (m ∷ ms)

-- the ids of the calls of one message, in order; a repeated id is refused
call_id : Json → Option String
call_id (obj fs) = elim (get "id" fs) [ some (str s) ↦ some s | _ ↦ none ]
call_id _ = none

unfoldable pub collect_ids : List String → Items → Result (List String)
unfolding call_id
collect_ids seen nil = ok seen
collect_ids seen (cons call calls) = do
  identifier ← or_raise (call_id call) protocol_violation
  raise_if (contains identifier seen) protocol_violation
  collect_ids (seen ++ identifier ∷ []) calls

abbrev pub calls_of : Message → Option Json
calls_of m = get "tool_calls" m.fields

-- `_tool_call_ids`
unfoldable pub ids_of_calls : Message → Option Json → Result (List String)
unfolding collect_ids
ids_of_calls m none = ok []
ids_of_calls m (some null) = ok []
ids_of_calls m (some (arr nil)) = err protocol_violation
ids_of_calls m (some (arr (cons call calls))) = do
  raise_if (not (m.role == "assistant")) protocol_violation
  collect_ids [] (cons call calls)
ids_of_calls m (some _) = err protocol_violation

unfoldable pub tool_call_ids : Message → Result (List String)
unfolding ids_of_calls
tool_call_ids m = ids_of_calls m (calls_of m)

-- consecutive messages and the position of the first; the others follow it
pub record RawUnit : Type 0 where
  pub index : ℕ
  pub messages : List Message

-- the inner loop's variables: the messages so far, the ids called and the ids answered
pub record OpenGroup : Type 0 where
  pub start : ℕ
  pub grouped : List Message
  pub tool_ids : List String
  pub seen : List String

abbrev pub is_tool : Message → Bool
is_tool m = m.role == "tool"

tool_id : Message → Option String
tool_id m = elim (get "tool_call_id" m.fields) [ some (str s) ↦ some s | _ ↦ none ]

-- one round of the inner loop
unfoldable pub answer : OpenGroup → Message → Result OpenGroup
unfolding tool_id
answer g m = do
  id ← or_raise (tool_id m) protocol_violation
  raise_if (not (contains id g.tool_ids) || contains id g.seen) protocol_violation
  ok (record g { grouped = g.grouped ++ m ∷ []; seen = g.seen ++ id ∷ [] })

-- `seen != tool_ids`, where everything seen was called
abbrev pub is_answered : OpenGroup → Bool
is_answered g = all (λ id. contains id g.seen) g.tool_ids

unfoldable pub close : OpenGroup → Result RawUnit
close g = do
  raise_if (not (is_answered g)) protocol_violation
  ok (record { index = g.start; messages = g.grouped })

-- where the next message goes: it is a unit alone, or opens a group
pub data Opening : Type 0 where
  alone : RawUnit → Opening
  opened : OpenGroup → Opening

abbrev pub opening : ℕ → Message → List String → Opening
opening index m [] = alone (record { index = index; messages = m ∷ [] })
opening index m (id ∷ ids) =
    opened (record { start = index; grouped = m ∷ []; tool_ids = id ∷ ids; seen = [] })

unfoldable pub open_at : ℕ → Message → Result Opening
open_at index m = do
  raise_if (is_tool m) protocol_violation
  ids ← tool_call_ids m
  ok (opening index m ids)

-- what one message does: the units that it completes, and the group that is open behind it
abbrev pub after_opening : List RawUnit → Opening → List RawUnit × Option OpenGroup
after_opening done (alone u) = (done ++ u ∷ [], none)
after_opening done (opened g) = (done, some g)

unfoldable pub read_message :
    ℕ → Option OpenGroup → Message → Result (List RawUnit × Option OpenGroup)
read_message index none m = do o ← open_at index m; ok (after_opening [] o)
read_message index (some g) m =
    if is_tool m
    then (do g' ← answer g m; ok ([], some g'))
    else (do u ← close g; o ← open_at index m; ok (after_opening (u ∷ []) o))

unfoldable pub finish : Option OpenGroup → Result (List RawUnit)
finish none = ok []
finish (some g) = do u ← close g; ok (u ∷ [])

unfoldable pub raw_units : ℕ → Option OpenGroup → List Message → Result (List RawUnit)
raw_units index group [] = finish group
raw_units index group (m ∷ ms) = do
  (done, group') ← read_message index group m
  rest ← raw_units (suc index) group' ms
  ok (done ++ rest)

abbrev pub is_instruction : String → Bool
is_instruction role = role == "system" || role == "developer"

abbrev pub first_role : List Message → String
first_role [] = ""
first_role (m ∷ _) = m.role

abbrev pub role_of : RawUnit → String
role_of u = first_role u.messages

abbrev pub flush_pending : Option RawUnit → List RawUnit
flush_pending none = []
flush_pending (some p) = p ∷ []

-- `pending_indexes.extend`, `pending_messages.extend`
abbrev pub extend : Option RawUnit → RawUnit → RawUnit
extend none u = u
extend (some p) u = record p { messages = p.messages ++ u.messages }

-- instructions stand alone, and a user message begins a turn that takes what follows it
unfoldable pub grouped_units : Option RawUnit → List RawUnit → List RawUnit
grouped_units pending [] = flush_pending pending
grouped_units pending (u ∷ us) =
    let as_turn = flush_pending pending ++ grouped_units (some u) us in
    let as_instruction = flush_pending pending ++ u ∷ grouped_units none us in
    let as_part = grouped_units (some (extend pending u)) us in
    if is_instruction (role_of u)
    then as_instruction
    else if role_of u == "user"
    then as_turn
    else as_part

pub record MessageUnit : Type 0 where
  pub index : ℕ
  pub messages : List Message
  pub token_cost : ℕ
  pub hard : Bool
  pub utility : ℕ

-- positions of the units that begin with a user message
abbrev pub user_positions : ℕ → List RawUnit → List ℕ
user_positions position [] = []
user_positions position (u ∷ us) =
    let rest = user_positions (suc position) us in
    if role_of u == "user" then position ∷ rest else rest

-- `user_units[-min(reserve, len(user_units))]`, or the last unit where there is no user message
unfoldable pub cutoff : ℕ → List RawUnit → ℕ
cutoff reserve us =
    let positions = user_positions 0 us in
    elim (get_elem? positions (length positions - min reserve (length positions))) [
      | none ↦ length us - 1
      | some p ↦ p
    ]

abbrev pub is_hard_unit : ℕ → ℕ → RawUnit → Bool
is_hard_unit cut position u = is_instruction (role_of u) || leb cut position

-- `0.55 + 0.4 * (position / denominator)`: twice its hundred millionths, and the odd number between
-- two of these where it lies between them
abbrev pub unit_utility : ℕ → ℕ → ℕ
unit_utility denominator position =
    let part = 40000000 * position in
    110000000 + 2 * (part / denominator) + (if part % denominator == 0 then 0 else 1)

module _ (estimate : Message → ℕ) where
  -- `_estimate_message`: an estimator that returns no positive number is a fault
  unfoldable pub estimate_message : Message → Result ℕ
  estimate_message m = if ltb (estimate m) 1 then err runtime_error else ok (estimate m)

  unfoldable pub estimate_all : List Message → Result ℕ
  unfolding estimate_message
  estimate_all [] = ok 0
  estimate_all (m ∷ ms) = do n ← estimate_message m; rest ← estimate_all ms; ok (n + rest)

  unfoldable pub build_units : ℕ → ℕ → ℕ → List RawUnit → Result (List MessageUnit)
  unfolding estimate_all
  build_units cut denominator position [] = ok []
  build_units cut denominator position (u ∷ us) = do
    cost ← estimate_all u.messages
    rest ← build_units cut denominator (suc position) us
    ok (
        record {
          index = u.index;
          messages = u.messages;
          token_cost = cost;
          hard = is_hard_unit cut position u;
          utility = unit_utility denominator position;
        }
        ∷ rest)

  -- `_message_units`
  unfoldable pub message_units : List Message → ℕ → Result (List MessageUnit)
  unfolding raw_units read_message open_at tool_call_ids answer close finish grouped_units cutoff
      build_units
  message_units messages reserve = do
    raw ← raw_units 0 none messages
    let grouped = grouped_units none raw
    build_units (cutoff reserve grouped) (max 1 (length grouped - 1)) 0 grouped
