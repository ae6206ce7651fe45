-- ===== src/Responses/Incremental.antt =====
-- `replay_incremental` of reverso/protocols/replay.py: a turn that is streamed while the provider
-- produces it. The upstream is what its chunks hold and how it ends; `finalize`, a callable that the
-- adapter passes, is an argument.
pub mod Calls
pub mod Deltas
pub mod Texts
use Prim.Native.String.{◌++◌ as str_append}
use reverso_llm.Prelude.{
  ℕ, zero, suc, String, Bool, true, false, Option, none, some, List, [], ◌∷◌, ◌++◌, if◌then◌else◌,
  nat_eq, length, Key, ◌==◌, map,
}
use reverso_llm.Prelude.Int.{ℤ, pos, negsuc, leb_ℤ, int_key}
use reverso_llm.Prelude.Dict
use reverso_llm.Prelude.Dict.{Dict}
use reverso_llm.Json.{
  Json, null, bool, int, real, str, arr, obj, Items, nil, cons, Fields, end, field, get, is_some,
  truthy, or_empty,
}
use reverso_llm.Outcome.{Outcome, ok, raised, ◌>>=◌}
use reverso_llm.Sse.{SseEvent}
use reverso_llm.Responses.Store.{ResponseEnvelope}
use reverso_llm.Responses.Generator.{Steps, done, raises, yields, stores, yield_all, call}
use reverso_llm.Responses.Replay.{
  sse_event, message_item, output_text, part_body, in_progress_message, item_steps, created,
  in_progress, completed,
}

-- A slot of the tool-call buffer, with the fields of its `function`.
pub record ToolCall : Type 0 where
  pub id : Json
  pub type : Json
  pub name : String
  pub arguments : String

abbrev pub no_call : ToolCall
no_call = record { id = null; type = str "function"; name = ""; arguments = "" }

pub record ReplayState : Type 0 where
  pub text_parts : List Json
  pub reasoning_parts : List Json
  pub tool_calls_buffer : Dict ℤ ToolCall
  pub last_tool_call_index : Option ℤ
  pub usage : Json

abbrev pub initial : ReplayState
initial = record {
  text_parts = [];
  reasoning_parts = [];
  tool_calls_buffer = [];
  last_tool_call_index = none;
  usage = null;
}

-- `isinstance(index, int)`, which a Boolean is too; otherwise the last seen index, or a fresh slot.
abbrev pub call_index : Json → Option ℤ → Dict ℤ ToolCall → ℤ
call_index (int i) last buffer = i
call_index (bool b) last buffer = if b then pos 1 else pos 0
call_index _ (some i) buffer = i
call_index _ none buffer = pos (length buffer)

-- The text with a delta behind it, if the delta is a text.
unfoldable pub extended : String → Json → String
extended s (str delta) = str_append s delta
extended s _ = s

unfoldable pub with_function : Json → ToolCall → ToolCall
with_function (obj delta) slot = record slot {
  name = extended slot.name (get "name" delta);
  arguments = extended slot.arguments (get "arguments" delta);
}
with_function _ slot = slot

abbrev pub slot_of : Option ToolCall → ToolCall
slot_of none = no_call
slot_of (some slot) = slot

unfoldable pub merge : Fields → ToolCall → ToolCall
merge raw_call slot =
    let identified =
      if is_some (get "id" raw_call) then record slot { id = get "id" raw_call } else slot in
    let typed =
      if is_some (get "type" raw_call)
      then record identified { type = get "type" raw_call }
      else identified in
    with_function (get "function" raw_call) typed

unfoldable pub absorb_call : Fields → ReplayState → ReplayState
absorb_call raw_call s =
    let index = call_index (get "index" raw_call) s.last_tool_call_index s.tool_calls_buffer in
    record s {
      last_tool_call_index = some index;
      tool_calls_buffer =
          Dict.put index (merge raw_call (slot_of (Dict.get index s.tool_calls_buffer)))
            s.tool_calls_buffer;
    }

unfoldable pub absorb_calls : Items → ReplayState → ReplayState
absorb_calls nil s = s
absorb_calls (cons (obj raw_call) rest) s = absorb_calls rest (absorb_call raw_call s)
absorb_calls (cons _ rest) s = absorb_calls rest s

abbrev pub calls_of : Json → Items
calls_of (arr calls) = calls
calls_of _ = nil

-- What a chunk leaves in the buffers.
unfoldable pub absorb : Fields → ReplayState → ReplayState
absorb chunk s =
    let text = get "text" chunk in
    let reasoning = get "reasoning_text" chunk in
    let reasoned =
      if truthy reasoning
      then record s { reasoning_parts = s.reasoning_parts ++ reasoning ∷ [] }
      else s in
    let called = absorb_calls (calls_of (get "tool_calls" chunk)) reasoned in
    let used =
      if is_some (get "usage" chunk) then record called { usage = get "usage" chunk } else called in
    if truthy text then record used { text_parts = used.text_parts ++ text ∷ [] } else used

-- "".join(parts)
unfoldable pub join : List Json → Outcome String
join [] = ok ""
join (str s ∷ parts) = do rest ← join parts; ok (str_append s rest)
join (_ ∷ parts) = raised "TypeError"

-- `[buffer[index] for index in sorted(buffer)]`
unfoldable pub insert : ℤ → ToolCall → Dict ℤ ToolCall → Dict ℤ ToolCall
insert i c [] = (i, c) ∷ []
insert i c ((j, d) ∷ rest) =
    let later = insert i c rest in if leb_ℤ i j then (i, c) ∷ (j, d) ∷ rest else (j, d) ∷ later

unfoldable pub by_index : Dict ℤ ToolCall → Dict ℤ ToolCall
by_index [] = []
by_index ((i, c) ∷ rest) = insert i c (by_index rest)

abbrev pub accumulated_tool_calls : Dict ℤ ToolCall → List ToolCall
accumulated_tool_calls buffer = map (λ (entry : ℤ × ToolCall). entry.1) (by_index buffer)

-- How an upstream ends when its chunks are used up: it stops, or it raises.
pub data Ending : Type 0 where
  stops : Ending
  breaks_off : String → Ending

-- finalize(full_text, full_reasoning, usage, tool_calls)
abbrev pub Finalize : Type 0
Finalize = String → Option String → Json → List ToolCall → Outcome ResponseEnvelope

unfoldable pub full_reasoning : List Json → Outcome (Option String)
full_reasoning [] = ok none
full_reasoning (part ∷ parts) = do text ← join (part ∷ parts); ok (some text)

abbrev pub primary_item : String → String → List Fields → Fields
primary_item message_id full_text [] = message_item message_id full_text
primary_item message_id full_text (item ∷ _) = item

abbrev pub extra_items : List Fields → List Fields
extra_items [] = []
extra_items (_ ∷ items) = items

unfoldable pub delta_event : String → Json → SseEvent
unfolding sse_event
delta_event message_id text =
    sse_event "response.output_text.delta" (part_body (str message_id) 0 "delta" text)

-- The three events that close the message.
unfoldable pub closing : String → String → ResponseEnvelope → List SseEvent
unfolding sse_event
closing message_id full_text envelope =
    sse_event "response.output_text.done" (part_body (str message_id) 0 "text" (str full_text))
    ∷ sse_event "response.content_part.done"
        (part_body (str message_id) 0 "part" (output_text (str full_text)))
    ∷ sse_event "response.output_item.done" (
        field "output_index" (int (pos 0))
          (field "item" (obj (primary_item message_id full_text envelope.output)) end))
    ∷ []

-- After the loop: the envelope is built and stored, then announced.
unfoldable pub settle : Finalize → String → List Json → ReplayState → Steps
settle finalize message_id input_items s = call (join s.text_parts) (λ full_text.
    call (full_reasoning s.reasoning_parts) (λ reasoning.
      call (finalize full_text reasoning s.usage (accumulated_tool_calls s.tool_calls_buffer))
        (λ envelope. stores envelope (some input_items) (
          yield_all (closing message_id full_text envelope)
            (item_steps 1 (extra_items envelope.output) (yields (completed envelope) done))))))

-- The loop over the chunks, then what follows it.
unfoldable pub loop : String → (ReplayState → Steps) → List Fields → Ending → ReplayState → Steps
loop message_id after [] stops s = after s
loop message_id after [] (breaks_off x) s = raises x
loop message_id after (chunk ∷ chunks) ending s =
    let s' = absorb chunk s in
    let rest = loop message_id after chunks ending s' in
    let next = if truthy (get "done" chunk) then after s' else rest in
    if truthy (get "text" chunk)
    then yields (delta_event message_id (get "text" chunk)) next
    else next

-- The four events that open the message.
unfoldable pub opening : String → String → String → List SseEvent
unfolding sse_event
opening response_id message_id model =
    created response_id model
    ∷ in_progress response_id model
    ∷ sse_event "response.output_item.added" (
        field "output_index" (int (pos 0))
          (field "item" (in_progress_message (str message_id)) end))
    ∷ sse_event "response.content_part.added"
        (part_body (str message_id) 0 "part" (output_text (str "")))
    ∷ []

unfoldable pub replay_incremental :
    List Fields → Ending → String → String → String → List Json → Finalize → Steps
replay_incremental chunks ending response_id message_id model input_items finalize =
    yield_all (opening response_id message_id model)
      (loop message_id (settle finalize message_id input_items) chunks ending initial)
