-- ===== src/Anthropic/Stream.antt =====
-- reverso/protocols/anthropic_stream.py: the mapper from a Responses event stream to the Anthropic
-- Messages streaming events. The asynchronous generator is a function from what the upstream
-- iterator delivers, a list of events and the way it ends, to the list of what is yielded.
pub mod Grammar
pub mod WellFormed
pub mod Replayed
use Prim.Native.String
use reverso_llm.Prelude.{
  ℕ, String, Bool, true, false, not, Option, none, some, List, [], ◌∷◌, ◌++◌, if◌then◌else◌, ◌==◌,
  text_key, contains, ◌&&◌, ◌||◌,
}
use reverso_llm.Prelude.Int.{ℤ, pos, negsuc, ◌+ℤ◌}
use reverso_llm.Json.{
  Json, null, bool, int, real, str, arr, obj, nil, cons, end, field, get, has, elems, field_of,
  is_text, or_empty, Fields,
}
use reverso_llm.Outcome.{Outcome, ok, raised, ◌>>=◌}
use reverso_llm.Sse.{SseEvent}

pub data BlockKind : Type 0 where
  text tool_use : BlockKind

-- One constructor for each shape of dict that the mapper yields.
pub data AnthropicEvent : Type 0 where
  message_start : (model message_id : String) → AnthropicEvent
  ping : AnthropicEvent
  text_start : (index : ℤ) → AnthropicEvent
  tool_start : (index : ℤ) (id name : Json) → AnthropicEvent
  text_delta : (index : ℤ) → String → AnthropicEvent
  input_json_delta : (index : ℤ) → String → AnthropicEvent
  block_stop : (index : ℤ) → AnthropicEvent
  message_delta : (stop_reason : String) (output_tokens : Json) → AnthropicEvent
  message_stop : AnthropicEvent
  error : (message : String) → AnthropicEvent

pub record StreamState : Type 0 where
  pub model : String
  pub message_id : String
  pub block_index : ℤ
  pub open_kind : Option BlockKind
  pub stop_reason : String
  pub output_tokens : Json
  pub completed : Bool
  pub failed : Bool
  pub failure_message : String

pub init : String → String → StreamState
init model message_id = record {
  model = model;
  message_id = message_id;
  block_index = negsuc 0;
  open_kind = none;
  stop_reason = "end_turn";
  output_tokens = int (pos 0);
  completed = false;
  failed = false;
  failure_message = "upstream backend error";
}

pub message_start_event : StreamState → AnthropicEvent
message_start_event s = message_start s.model s.message_id

pub message_delta_event : StreamState → AnthropicEvent
message_delta_event s = message_delta s.stop_reason s.output_tokens

-- `close_open_block`: what it emits, and the state that it leaves.
pub close_events : Option BlockKind → ℤ → List AnthropicEvent
close_events none index = []
close_events (some _) index = block_stop index ∷ []

pub close_open_block : StreamState → List AnthropicEvent × StreamState
unfolding close_events
close_open_block s = (close_events s.open_kind s.block_index, record s { open_kind = none })

pub on_output_item_added : StreamState → Json → List AnthropicEvent × StreamState
unfolding close_open_block
on_output_item_added s payload =
    let (out, closed) = close_open_block s in
    let item = field_of "item" payload in
    let index = closed.block_index +ℤ pos 1 in
    if is_text "function_call" (field_of "type" item)
    then (
      out
          ++ tool_start index (or_empty (field_of "call_id" item)) (or_empty (field_of "name" item))
            ∷ [],
      record closed { block_index = index; open_kind = some tool_use },
    )
    else (
      out ++ text_start index ∷ [],
      record closed { block_index = index; open_kind = some text },
    )

text_delta_for : Option BlockKind → ℤ → Json → List AnthropicEvent
text_delta_for (some text) index (str delta) =
    if delta == "" then [] else text_delta index delta ∷ []
text_delta_for _ index delta = []

pub on_text_delta : StreamState → Json → List AnthropicEvent
unfolding text_delta_for
on_text_delta s delta = text_delta_for s.open_kind s.block_index delta

tool_delta_for : Option BlockKind → ℤ → Json → List AnthropicEvent
tool_delta_for (some tool_use) index (str delta) =
    if delta == "" then [] else input_json_delta index delta ∷ []
tool_delta_for _ index delta = []

pub on_tool_input_delta : StreamState → Json → List AnthropicEvent
unfolding tool_delta_for
on_tool_input_delta s delta = tool_delta_for s.open_kind s.block_index delta

-- `map_stop_reason` of anthropic_translate.py
unfoldable pub map_stop_reason : Json → String
unfolding contains
map_stop_reason (str reason) =
    if contains reason ("end_turn" ∷ "tool_use" ∷ "max_tokens" ∷ "stop_sequence" ∷ [])
    then reason
    else "end_turn"
map_stop_reason _ = "end_turn"

pub has_function_call : List Json → Bool
has_function_call [] = false
has_function_call (item ∷ rest) =
    if is_text "function_call" (field_of "type" item) then true else has_function_call rest

pub stop_reason_from_response : Fields → String
unfolding map_stop_reason has_function_call
stop_reason_from_response response = elim (get "output" response) [
  | arr output ↦
      if has_function_call (elems output)
      then "tool_use"
      else map_stop_reason (get "stop_reason" response)
  | _ ↦ map_stop_reason (get "stop_reason" response)
]

-- `isinstance(tokens, int)` holds of a bool too.
abbrev pub tokens_or : Json → Json → Json
tokens_or (int n) old = int n
tokens_or (bool b) old = bool b
tokens_or _ old = old

absorb : StreamState → Json → StreamState
unfolding stop_reason_from_response
absorb s (obj response) = record s {
  output_tokens = tokens_or (field_of "output_tokens" (get "usage" response)) s.output_tokens;
  stop_reason = stop_reason_from_response response;
}
absorb s _ = s

pub absorb_completion : StreamState → Json → StreamState
unfolding absorb
absorb_completion s payload = absorb s (field_of "response" payload)

abbrev pub silent_drop_events : List String
silent_drop_events =
    "response.created" ∷ "response.in_progress" ∷ "response.content_part.added"
    ∷ "response.output_text.done" ∷ "response.content_part.done"
    ∷ "response.function_call_arguments.done" ∷ []

-- `event_type in _SILENT_DROP_EVENTS` hashes the value: a list or a dict raises. The two branches
-- that follow the test both emit nothing.
drop_event : StreamState → Json → Outcome (List AnthropicEvent × StreamState)
drop_event s (arr _) = raised "TypeError"
drop_event s (obj _) = raised "TypeError"
drop_event s _ = ok ([], s)

-- `event.event or event.data.get("type", "")`; a payload that is no dict has no `get`.
pub event_type : SseEvent → Outcome Json
event_type e =
    if e.event == ""
    then elim e.payload [
      | obj fs ↦ ok (if has "type" fs then get "type" fs else str "")
      | _ ↦ raised "AttributeError"
    ]
    else ok (str e.event)

consume_as : StreamState → Json → Json → Outcome (List AnthropicEvent × StreamState)
consume_as s kind payload =
    if is_text "response.output_item.added" kind
    then ok (on_output_item_added s payload)
    else if is_text "response.output_text.delta" kind
    then ok (on_text_delta s (field_of "delta" payload), s)
    else if is_text "response.refusal.delta" kind
    then ok (on_text_delta s (field_of "delta" payload), s)
    else if is_text "response.function_call_arguments.delta" kind
    then ok (on_tool_input_delta s (field_of "delta" payload), s)
    else if is_text "response.output_item.done" kind
    then ok (close_open_block s)
    else if is_text "response.completed" kind
    then ok ([], record (absorb_completion s payload) { completed = true })
    else if is_text "response.failed" kind
    then ok (
      [],
      record s { failed = true; failure_message = "upstream backend error"; completed = true },
    )
    else if is_text "response.reasoning_summary_text.delta" kind
    then ok ([], s)
    else drop_event s kind

pub consume : StreamState → SseEvent → Outcome (List AnthropicEvent × StreamState)
unfolding consume_as
consume s e = do kind ← event_type e; consume_as s kind e.payload

-- How the upstream iterator ends: it is exhausted, or it raises.
pub data Ending : Type 0 where
  exhausted : Ending
  broken : String → Ending

-- The `except` branch: close the open block and report the class of the exception.
pub mid_stream_failure : StreamState → String → List AnthropicEvent
unfolding close_open_block
mid_stream_failure s name =
    (close_open_block s).0
    ++ error (String.◌++◌ "upstream backend error (" (String.◌++◌ name ")")) ∷ []

-- What follows the loop: an error after `response.failed`, else the terminal sequence.
pub finish : StreamState → List AnthropicEvent
unfolding close_open_block message_delta_event
finish s =
    if s.failed
    then (close_open_block s).0 ++ error s.failure_message ∷ []
    else (close_open_block s).0 ++ message_delta_event s ∷ message_stop ∷ []

-- The loop over the events.
pub drive : StreamState → List SseEvent → Ending → List AnthropicEvent
drive s [] exhausted = finish s
drive s [] (broken name) = mid_stream_failure s name
drive s (e ∷ es) ending = elim (consume s e) [
  | raised name ↦ mid_stream_failure s name
  | ok (out, next) ↦
      out ++ elim next.completed [ true ↦ finish next | false ↦ drive next es ending ]
]

pub responses_sse_to_anthropic :
    String → String → List SseEvent → Ending → Outcome (List AnthropicEvent)
unfolding init message_start_event message_delta_event
responses_sse_to_anthropic model message_id [] exhausted =
    let s = init model message_id in
    ok (message_start_event s ∷ ping ∷ message_delta_event s ∷ message_stop ∷ [])
responses_sse_to_anthropic model message_id [] (broken name) = raised name
responses_sse_to_anthropic model message_id (e ∷ es) ending =
    let s = init model message_id in ok (message_start_event s ∷ ping ∷ drive s (e ∷ es) ending)
