-- ===== src/Anthropic/Requests.antt =====
-- The request half of reverso/protocols/anthropic_translate.py: an Anthropic Messages payload as a
-- Responses request. `dumps` is `json.dumps`, `none` where it raises. The addresses that
-- `_record_source` notes beside the items are not modelled.
pub mod Grouping
use Prim.Native.String.{◌++◌ as str_append}
use reverso_llm.Prelude.{
  String, Bool, true, false, Option, none, some, List, [], ◌∷◌, ◌++◌, if◌then◌else◌, ◌==◌, text_key,
}
use reverso_llm.Json.{
  Json, null, bool, int, real, str, arr, obj, Items, nil, cons, items, Fields, end, field, get, put,
  is_some, is_text, truthy,
}
use reverso_llm.Texts.{join_with, block_texts}
use reverso_llm.Features.Responses.{ResponsesRequest}

-- `text or None`
abbrev pub text_or_none : String → Json
text_or_none s = if truthy (str s) then str s else null

unfoldable pub system_to_instructions : Json → Json
system_to_instructions (str s) = text_or_none s
system_to_instructions (arr blocks) = text_or_none (join_with "\n" (block_texts blocks))
system_to_instructions _ = null

abbrev pub text_part : String → String → Json
text_part role text = obj (
    field "type" (str (if role == "assistant" then "output_text" else "input_text"))
      (field "text" (str text) end))

abbrev pub image_part : Fields → Json
image_part block =
    let source = get "source" block in
    obj
      (field "type" (str "input_image") (if is_some source then field "source" source end else end))

unfoldable pub request_message_item : String → List Json → Json
request_message_item role parts = obj (
    field "type" (str "message")
      (field "role" (str role) (field "content" (arr (items parts)) end)))

unfoldable pub tool_result_content_text : Json → String
tool_result_content_text (str s) = s
tool_result_content_text (arr blocks) = join_with "\n" (block_texts blocks)
tool_result_content_text _ = ""

-- `value is True`
abbrev pub is_true : Json → Bool
is_true (bool b) = b
is_true _ = false

unfoldable pub function_call_output_item : Fields → Json
function_call_output_item block =
    let text = tool_result_content_text (get "content" block) in
    let is_error = is_true (get "is_error" block) in
    obj (
      field "type" (str "function_call_output") (
        field "call_id" (get "tool_use_id" block) (
          field "output" (str (if is_error then str_append "[tool_error] " text else text))
            (if is_error then field "is_error" (bool true) end else end))))

-- `if pending_parts: items.append(...)`
abbrev pub flush : String → List Json → List Json
flush role [] = []
flush role (part ∷ parts) = request_message_item role (part ∷ parts) ∷ []

abbrev pub role_or_user : Json → String
role_or_user (str role) = role
role_or_user _ = "user"

-- A text block's part, behind the pending ones.
abbrev pub with_text : String → Json → List Json → List Json
with_text role (str t) pending = pending ++ text_part role t ∷ []
with_text role _ pending = pending

module _ (dumps : Json → Option String) where
  unfoldable pub dump_arguments : Json → String
  dump_arguments null = "{}"
  dump_arguments value = elim (dumps value) [ none ↦ "{}" | some text ↦ text ]

  unfoldable pub function_call_item : Fields → Json
  function_call_item block = obj (
      field "type" (str "function_call") (
        field "call_id" (get "id" block) (
          field "name" (get "name" block)
            (field "arguments" (str (dump_arguments (get "input" block))) end))))

  -- What a block appends to the items, and the pending parts that it leaves.
  block_step : String → Fields → List Json → List Json × List Json
  block_step role block pending =
      let kind = get "type" block in
      if is_text "text" kind
      then ([], with_text role (get "text" block) pending)
      else if is_text "image" kind
      then ([], pending ++ image_part block ∷ [])
      else if is_text "tool_use" kind
      then (flush role pending ++ function_call_item block ∷ [], [])
      else if is_text "tool_result" kind
      then (flush role pending ++ function_call_output_item block ∷ [], [])
      else ([], pending)

  -- The loop over the blocks and the last flush.
  unfoldable pub block_items : String → Items → List Json → List Json
  unfolding block_step
  block_items role nil pending = flush role pending
  block_items role (cons (obj block) blocks) pending =
      let (out, left) = block_step role block pending in out ++ block_items role blocks left
  block_items role (cons _ blocks) pending = block_items role blocks pending

  unfoldable pub message_to_items : String → Json → List Json
  message_to_items role (str s) =
      if truthy (str s) then request_message_item role (text_part role s ∷ []) ∷ [] else []
  message_to_items role (arr blocks) = block_items role blocks []
  message_to_items role _ = []

  unfoldable pub message_list_items : Items → List Json
  message_list_items nil = []
  message_list_items (cons (obj message) messages) =
      message_to_items (role_or_user (get "role" message)) (get "content" message)
      ++ message_list_items messages
  message_list_items (cons _ messages) = message_list_items messages

  abbrev pub messages_to_input_items : Json → List Json
  messages_to_input_items (arr messages) = message_list_items messages
  messages_to_input_items _ = []

-- The optional fields of a function tool.
unfoldable pub function_tool : String → Fields → Json
function_tool name tool =
    let parameters = get "input_schema" tool in
    let last = if is_some parameters then field "parameters" parameters end else end in
    obj (
      field "type" (str "function") (
        field "name" (str name)
          (elim (get "description" tool) [ str d ↦ field "description" (str d) last | _ ↦ last ])))

unfoldable pub converted_tools : Items → List Json
converted_tools nil = []
converted_tools (cons (obj tool) tools) =
    let rest = converted_tools tools in
    elim (get "name" tool) [ str name ↦ function_tool name tool ∷ rest | _ ↦ rest ]
converted_tools (cons _ tools) = converted_tools tools

-- `converted or None`
abbrev pub list_or_none : List Json → Json
list_or_none [] = null
list_or_none (v ∷ vs) = arr (items (v ∷ vs))

unfoldable pub tools_to_responses : Json → Json
tools_to_responses (arr tools) = list_or_none (converted_tools tools)
tools_to_responses _ = null

named_choice : Json → Json
named_choice (str name) =
    if truthy (str name)
    then obj (field "type" (str "function") (field "name" (str name) end))
    else str "required"
named_choice _ = str "required"

unfoldable pub tool_choice_to_responses : Json → Json
unfolding named_choice
tool_choice_to_responses (obj choice) =
    let kind = get "type" choice in
    if is_text "auto" kind
    then str "auto"
    else if is_text "any" kind
    then str "required"
    else if is_text "none" kind
    then str "none"
    else if is_text "tool" kind
    then named_choice (get "name" choice)
    else null
tool_choice_to_responses _ = null

-- `_EXTRA_PASSTHROUGH`
pass_on : String → Fields → Fields → Fields
pass_on key payload extra =
    if is_some (get key payload) then put key (get key payload) extra else extra

unfoldable pub extra_passthrough : Fields → Fields
unfolding pass_on
extra_passthrough payload =
    pass_on "stop_sequences" payload
      (pass_on "temperature" payload (pass_on "max_tokens" payload end))

unfoldable pub anthropic_request_to_responses : (Json → Option String) → Fields → ResponsesRequest
anthropic_request_to_responses dumps payload = record {
  model = elim (get "model" payload) [ str m ↦ str m | _ ↦ str "" ];
  input = arr (items (messages_to_input_items dumps (get "messages" payload)));
  stream = truthy (get "stream" payload);
  previous_response_id = null;
  tools = tools_to_responses (get "tools" payload);
  instructions = system_to_instructions (get "system" payload);
  tool_choice = tool_choice_to_responses (get "tool_choice" payload);
  extra = extra_passthrough payload;
}
