-- ===== src/Chat/Requests.antt =====
-- The request half of reverso/protocols/openai_chat.py: Responses input, tools and tool choice as
-- chat messages and tools. `dumps` is `json.dumps`, `none` where it raises; `str_of` is `str` on
-- values that are no texts.
pub mod FromAnthropic
pub mod ToolLoop
pub mod Tools
use reverso_llm.Prelude.{
  String, Bool, true, false, not, ◌&&◌, ◌||◌, Option, none, some, List, [], ◌∷◌, ◌++◌,
  if◌then◌else◌,
}
use reverso_llm.Json.{
  Json, null, bool, int, real, str, arr, obj, Items, nil, cons, items, Fields, end, field, get, has,
  is_some, is_text, truthy,
}
use reverso_llm.Outcome.{Outcome, ok, raised, ◌>>=◌}
use reverso_llm.Responses.Prompts.{input_content_text, flatten_input}

-- `kind in {"function_call", "function_call_output"}`: a list or a dict has no hash.
is_tool_kind : Json → Outcome Bool
is_tool_kind (arr _) = raised "TypeError"
is_tool_kind (obj _) = raised "TypeError"
is_tool_kind kind = ok (is_text "function_call" kind || is_text "function_call_output" kind)

any_tool_item : Items → Outcome Bool
unfolding is_tool_kind
any_tool_item nil = ok false
any_tool_item (cons (obj item) rest) =
    is_tool_kind (get "type" item) >>= (λ found. if found then ok true else any_tool_item rest)
any_tool_item (cons _ rest) = any_tool_item rest

unfoldable pub has_tool_items : Json → Outcome Bool
unfolding any_tool_item
has_tool_items (arr vs) = any_tool_item vs
has_tool_items _ = ok false

abbrev pub text_or_empty : Json → String
text_or_empty (str s) = s
text_or_empty _ = ""

unfoldable pub chat_call : String → String → String → Json
chat_call call_id name arguments = obj (
    field "id" (str call_id) (
      field "type" (str "function") (
        field "function" (obj (field "name" (str name) (field "arguments" (str arguments) end)))
          end)))

-- A call whose id and name are texts is appended to the pending ones.
abbrev pub with_call : Json → Json → Json → List Json → List Json
with_call (str call_id) (str name) arguments pending =
    pending ++ chat_call call_id name (text_or_empty arguments) ∷ []
with_call _ _ _ pending = pending

-- `flush_pending`
unfoldable pub flush_pending : List Json → List Json
flush_pending [] = []
flush_pending (call ∷ calls) =
    obj (
      field "role" (str "assistant")
        (field "content" (str "") (field "tool_calls" (arr (items (call ∷ calls))) end)))
    ∷ []

unfoldable pub role_message : Json → String → List Json
role_message (str role) text = obj (field "role" (str role) (field "content" (str text) end)) ∷ []
role_message _ text = []

module _ (dumps : Json → Option String) where
  unfoldable pub tool_output_content : Json → String
  tool_output_content (str s) = s
  tool_output_content null = ""
  tool_output_content output = elim (dumps output) [ none ↦ "" | some text ↦ text ]

  unfoldable pub tool_message : Json → Json → List Json
  tool_message (str call_id) output =
      obj (
        field "role" (str "tool") (
          field "tool_call_id" (str call_id)
            (field "content" (str (tool_output_content output)) end)))
      ∷ []
  tool_message _ output = []

  -- What an item that is no call appends, behind the flushed calls.
  unfoldable pub other_messages : Fields → List Json
  other_messages item =
      if is_text "function_call_output" (get "type" item)
      then tool_message (get "call_id" item) (get "output" item)
      else if is_text "message" (get "type" item) || is_some (get "role" item)
      then role_message (get "role" item) (input_content_text item)
      else []

  -- One turn of the loop: the messages that it appends, and the pending calls that it leaves.
  unfoldable pub walk_step : Fields → List Json → List Json × List Json
  walk_step item pending =
      if is_text "function_call" (get "type" item)
      then ([], with_call (get "call_id" item) (get "name" item) (get "arguments" item) pending)
      else (flush_pending pending ++ other_messages item, [])

  unfoldable pub walk : Items → List Json → List Json
  walk nil pending = flush_pending pending
  walk (cons (obj item) rest) pending =
      let (out, left) = walk_step item pending in out ++ walk rest left
  walk (cons _ rest) pending = walk rest pending

  abbrev pub walk_input_items : Items → List Json
  walk_input_items vs = walk vs []

  -- `if instructions`, which are a text or None
  system_message : Json → List Json
  system_message instructions =
      if truthy instructions
      then obj (field "role" (str "system") (field "content" instructions end)) ∷ []
      else []

  user_messages : String → List Json
  user_messages text = if truthy (str text) then role_message (str "user") text else []

  abbrev input_items : Json → Items
  input_items (arr vs) = vs
  input_items _ = nil

  module _ (str_of : Json → String) where
    input_messages : Json → Bool → List Json
    unfolding user_messages
    input_messages input_value tool_items =
        if tool_items
        then walk_input_items (input_items input_value)
        else user_messages (flatten_input str_of input_value)

    -- No prior messages are the empty list.
    unfoldable pub build_messages_from_request : Json → Json → List Json → Outcome (List Json)
    unfolding system_message input_messages
    build_messages_from_request instructions input_value prior_messages = do
      tool_items ← has_tool_items input_value
      ok (system_message instructions ++ prior_messages ++ input_messages input_value tool_items)

-- `if tool.get(key) is not None`, in front of the other keys
abbrev pub kept : String → Fields → Fields → Fields
kept key tool rest = if is_some (get key tool) then field key (get key tool) rest else rest

unfoldable pub function_of : Fields → Fields
function_of tool = kept "name" tool (kept "description" tool (kept "parameters" tool end))

unfoldable pub chat_tools : Items → List Json
unfolding function_of
chat_tools nil = []
chat_tools (cons (obj tool) tools) =
    let rest = chat_tools tools in
    if has "function" tool
    then obj tool ∷ rest
    else if is_text "function" (get "type" tool)
    then obj (field "type" (str "function") (field "function" (obj (function_of tool)) end)) ∷ rest
    else rest
chat_tools (cons _ tools) = chat_tools tools

unfoldable pub chat_tool_choice : Json → Json
chat_tool_choice (obj choice) =
    if is_text "function" (get "type" choice) && not (has "function" choice)
    then obj (
        field "type" (str "function")
          (field "function" (obj (field "name" (get "name" choice) end)) end))
    else obj choice
chat_tool_choice choice = choice
