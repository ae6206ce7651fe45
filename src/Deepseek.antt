-- ===== src/Deepseek.antt =====
-- reverso/protocols/adapters/deepseek.py: Responses requests as chat requests for DeepSeek, and its
-- completions, buffered or streamed, as response envelopes. `dumps`, `str_of` and `new_id` are as in
-- Chat. The HTTP calls are not modelled.
pub mod Bodies
pub mod Envelopes
pub mod Streamed
use reverso_llm.Prelude.{
  ℕ, String, Bool, true, false, Option, none, some, List, [], ◌∷◌, ◌++◌, ◌≡◌, refl, arith,
  if◌then◌else◌, ◌==◌, text_key, contains,
}
use reverso_llm.Json.{
  Json, null, bool, int, real, str, arr, obj, Items, nil, cons, items, Fields, end, field, get, has,
  put, is_some, is_text, truthy, get-put,
}
use reverso_llm.Outcome.{Outcome, ok, raised, ◌>>=◌}
use reverso_llm.Responses.Store.{ResponseEnvelope, ResponseStore, get_response}
use reverso_llm.Responses.Replay.{update}
use reverso_llm.Features.Responses.{ResponsesRequest}
use reverso_llm.Routing.Models.{resolve_profile_model}
use reverso_llm.Chat.Requests.{build_messages_from_request, chat_tools, chat_tool_choice}

-- The first output_text of a message's parts.
text_of_part : Json → Option String → Option String
text_of_part (str text) rest = some text
text_of_part _ rest = rest

first_text : Items → Option String
unfolding text_of_part
first_text nil = none
first_text (cons (obj part) parts) =
    let rest = first_text parts in
    if is_text "output_text" (get "type" part) then text_of_part (get "text" part) rest else rest
first_text (cons _ parts) = first_text parts

-- `item.get("content", [])`, iterated: a text or a dict yields texts, which are passed over.
content_text : Json → Outcome (Option String)
unfolding first_text
content_text (arr parts) = ok (first_text parts)
content_text (str _) = ok none
content_text (obj _) = ok none
content_text _ = raised "TypeError"

item_text : Fields → Outcome (Option String)
unfolding content_text
item_text item =
    if is_text "message" (get "type" item)
    then (if has "content" item then content_text (get "content" item) else ok none)
    else ok none

unfoldable pub output_text : List Fields → Outcome String
unfolding item_text
output_text [] = ok ""
output_text (item ∷ output) =
    let rest = output_text output in
    item_text item >>= (λ found. elim found [ some text ↦ ok text | none ↦ rest ])

-- The assistant message of a stored turn.
unfoldable pub prior_message : String → Json → Json
prior_message text reasoning = obj (
    field "role" (str "assistant") (
      field "content" (str text)
        (if is_some reasoning then field "reasoning_content" reasoning end else end)))

unfoldable pub prior_turn : Json → ResponseStore → Outcome (List Json)
prior_turn (str id) store =
    if truthy (str id)
    then elim (get_response id store) [
      | none ↦ ok []
      | some envelope ↦
          output_text envelope.output
          >>= (λ text. ok (prior_message text (get "reasoning_content" envelope.raw) ∷ []))
    ]
    else ok []
prior_turn _ store = ok []

-- `if value is not None: schema_body[key] = value`, in front of the later keys
abbrev kept : String → Fields → Fields → Fields
kept key fmt rest = if is_some (get key fmt) then field key (get key fmt) rest else rest

unfoldable pub response_format_from_text : Fields → Json
response_format_from_text fmt =
    if is_text "text" (get "type" fmt)
    then obj (field "type" (str "text") end)
    else if is_text "json_object" (get "type" fmt)
    then obj (field "type" (str "json_object") end)
    else if is_text "json_schema" (get "type" fmt)
    then obj (
        field "type" (str "json_schema") (
          field "json_schema"
            (obj (
              kept "name" fmt (kept "schema" fmt (kept "strict" fmt (kept "description" fmt end)))))
            end))
    else null

abbrev pub format_of : Json → Json
format_of (obj text) = elim (get "format" text) [
  | obj fmt ↦ response_format_from_text fmt
  | _ ↦ null
]
format_of _ = null

abbrev pub max_tokens : Json → Fields
max_tokens (int n) = field "max_tokens" (int n) end
max_tokens (bool b) = field "max_tokens" (bool b) end
max_tokens _ = end

unfoldable pub translate_extras : Fields → Fields
translate_extras extra =
    let format = format_of (get "text" extra) in
    let tokens = max_tokens (get "max_output_tokens" extra) in
    if is_some format then field "response_format" format tokens else tokens

abbrev pub non_forwarded_extra : List String
non_forwarded_extra =
    "input" ∷ "instructions" ∷ "model" ∷ "messages" ∷ "stream" ∷ "tools" ∷ "tool_choice" ∷ "text"
    ∷ "max_output_tokens" ∷ []

-- The loop over the extra fields.
unfoldable pub forward : Fields → Fields → Fields
forward end body = body
forward (field key value extra) body =
    forward extra (if contains key non_forwarded_extra then body else put key value body)

-- `request.model or ""`, whose `removeprefix` is called
unfoldable pub model_text : Json → Outcome String
model_text (str model) = ok model
model_text model = if truthy model then raised "AttributeError" else ok ""

-- `_chat_tools` iterates over what it is given.
pub tools_field : Json → Outcome Fields
tools_field null = ok end
tools_field (arr tools) = ok (field "tools" (arr (items (chat_tools tools))) end)
tools_field (str _) = ok (field "tools" (arr nil) end)
tools_field (obj _) = ok (field "tools" (arr nil) end)
tools_field _ = raised "TypeError"

abbrev pub choice_field : Json → Fields → Fields
choice_field choice body =
    if is_some choice then put "tool_choice" (chat_tool_choice choice) body else body

abbrev pub stream_options : Bool → Fields → Fields
stream_options true body = put "stream_options" (obj (field "include_usage" (bool true) end)) body
stream_options false body = body

module _ (dumps : Json → Option String) (str_of : Json → String) where
  abbrev pub build_messages : ResponsesRequest → ResponseStore → Outcome (List Json)
  build_messages request store = do
    prior ← prior_turn request.previous_response_id store
    build_messages_from_request dumps str_of request.instructions request.input prior

  unfoldable pub build_body : ResponsesRequest → Bool → ResponseStore → Outcome Fields
  unfolding tools_field
  build_body request stream store = do
    model ← model_text request.model
    messages ← build_messages request store
    tools ← tools_field request.tools
    let opened =
        field "model" (str (resolve_profile_model "deepseek" model))
          (field "messages" (arr (items messages)) (field "stream" (bool stream) end))
    let asked = choice_field request.tool_choice (update (stream_options stream opened) tools)
    ok (forward request.extra (update asked (translate_extras request.extra)))
