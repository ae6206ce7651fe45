-- ===== src/Responses/Replay.antt =====
-- reverso/protocols/replay.py: the events of an output item, and the replay of a buffered turn.
pub mod Delivery
pub mod Turns
use reverso_llm.Prelude.{
  ℕ, suc, ◌+◌, String, Bool, true, false, Option, none, some, List, [], ◌∷◌, ◌++◌, if◌then◌else◌,
}
use reverso_llm.Prelude.Int.{pos}
use reverso_llm.Json.{
  Json, null, bool, int, real, str, arr, obj, nil, cons, Fields, end, field, get, has, put, items,
  is_text, or_empty,
}
use reverso_llm.Outcome.{Outcome, ok, raised, ◌>>=◌}
use reverso_llm.Sse.{SseEvent}
use reverso_llm.Responses.Store.{ResponseEnvelope}
use reverso_llm.Responses.Generator.{Steps, done, raises, yields, stores, yield_all, call}

-- data.update(body)
unfoldable pub update : Fields → Fields → Fields
update d end = d
update d (field k v body) = update (put k v d) body

unfoldable pub sse_event : String → Fields → SseEvent
unfolding update put
sse_event kind body = record {
  event = kind;
  payload = obj (update (field "type" (str kind) end) body);
}

-- d[k]
abbrev lookup_key : String → Fields → Outcome Json
lookup_key k fs = if has k fs then ok (get k fs) else raised "KeyError"

-- v[0]
first : Json → Outcome Json
first (arr nil) = raised "IndexError"
first (arr (cons v _)) = ok v
first (str s) = if is_text "" (str s) then raised "IndexError" else ok (str s)
first (obj _) = raised "KeyError"
first _ = raised "TypeError"

-- v["text"]
text_of : Json → Outcome Json
text_of (obj fs) = lookup_key "text" fs
text_of _ = raised "TypeError"

abbrev pub output_text : Json → Json
output_text text =
    obj (field "type" (str "output_text") (field "text" text (field "annotations" (arr nil) end)))

unfoldable pub message_item : String → String → Fields
message_item item_id text = field "id" (str item_id) (
    field "type" (str "message") (
      field "role" (str "assistant") (
        field "status" (str "completed")
          (field "content" (arr (cons (output_text (str text)) nil)) end))))

abbrev pub in_progress_message : Json → Json
in_progress_message id = obj (
    field "id" id (
      field "type" (str "message") (
        field "role" (str "assistant")
          (field "status" (str "in_progress") (field "content" (arr nil) end)))))

abbrev pub part_body : Json → ℕ → String → Json → Fields
part_body id index name value = field "item_id" id (
    field "output_index" (int (pos index))
      (field "content_index" (int (pos 0)) (field name value end)))

-- The list of six events that `_message_item_events` returns, once it has read the item.
unfoldable pub message_events : Fields → ℕ → Json → Json → List SseEvent
unfolding sse_event
message_events item index id text =
    sse_event "response.output_item.added"
      (field "output_index" (int (pos index)) (field "item" (in_progress_message id) end))
    ∷ sse_event "response.content_part.added" (part_body id index "part" (output_text (str "")))
    ∷ sse_event "response.output_text.delta" (part_body id index "delta" text)
    ∷ sse_event "response.output_text.done" (part_body id index "text" text)
    ∷ sse_event "response.content_part.done" (part_body id index "part" (output_text text))
    ∷ sse_event "response.output_item.done"
        (field "output_index" (int (pos index)) (field "item" (obj item) end))
    ∷ []

unfoldable pub message_item_events : Fields → ℕ → Outcome (List SseEvent)
unfolding first text_of
message_item_events item index = do
  id ← lookup_key "id" item
  content ← lookup_key "content" item
  part ← first content
  text ← text_of part
  ok (message_events item index id text)

abbrev pub in_progress_call : Fields → Json
in_progress_call item = obj (
    field "id" (get "id" item) (
      field "type" (str "function_call") (
        field "status" (str "in_progress") (
          field "call_id" (get "call_id" item)
            (field "name" (get "name" item) (field "arguments" (str "") end))))))

abbrev pub call_body : Fields → ℕ → String → Json → Fields
call_body item index name arguments =
    field "item_id" (get "id" item)
      (field "output_index" (int (pos index)) (field name arguments end))

-- The list of four events that `_function_call_item_events` returns.
unfoldable pub call_events : Fields → ℕ → Json → List SseEvent
unfolding sse_event
call_events item index arguments =
    sse_event "response.output_item.added"
      (field "output_index" (int (pos index)) (field "item" (in_progress_call item) end))
    ∷ sse_event "response.function_call_arguments.delta" (call_body item index "delta" arguments)
    ∷ sse_event "response.function_call_arguments.done" (call_body item index "arguments" arguments)
    ∷ sse_event "response.output_item.done"
        (field "output_index" (int (pos index)) (field "item" (obj item) end))
    ∷ []

unfoldable pub function_call_item_events : Fields → ℕ → List SseEvent
function_call_item_events item index = call_events item index (or_empty (get "arguments" item))

unfoldable pub item_events : Fields → ℕ → Outcome (List SseEvent)
item_events item index =
    if is_text "function_call" (get "type" item)
    then ok (function_call_item_events item index)
    else message_item_events item index

abbrev pub base_response : String → String → Json
base_response id model = obj (
    field "id" (str id) (
      field "object" (str "response")
        (field "status" (str "in_progress") (field "model" (str model) end))))

abbrev pub objects : List Fields → List Json
objects [] = []
objects (fs ∷ rest) = obj fs ∷ objects rest

abbrev completed_response : ResponseEnvelope → Json
completed_response envelope = obj (
    field "id" (str envelope.id) (
      field "object" (str "response") (
        field "status" (str "completed") (
          field "model" (str envelope.model) (
            field "output" (arr (items (objects envelope.output)))
              (field "usage" envelope.usage end))))))

-- The loop over `enumerate(output, start=index)`.
unfoldable pub item_steps : ℕ → List Fields → Steps → Steps
item_steps index [] k = k
item_steps index (item ∷ rest) k =
    call (item_events item index) (λ es. yield_all es (item_steps (suc index) rest k))

unfoldable pub created : String → String → SseEvent
unfolding sse_event
created id model = sse_event "response.created" (field "response" (base_response id model) end)

unfoldable pub in_progress : String → String → SseEvent
unfolding sse_event
in_progress id model =
    sse_event "response.in_progress" (field "response" (base_response id model) end)

unfoldable pub completed : ResponseEnvelope → SseEvent
unfolding sse_event
completed envelope =
    sse_event "response.completed" (field "response" (completed_response envelope) end)

unfoldable pub replay_turn : ResponseEnvelope → List Json → Steps
replay_turn envelope input_items = stores envelope (some input_items) (
    yields (created envelope.id envelope.model) (
      yields (in_progress envelope.id envelope.model)
        (item_steps 0 envelope.output (yields (completed envelope) done))))
