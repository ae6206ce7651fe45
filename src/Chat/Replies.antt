-- ===== src/Chat/Replies.antt =====
-- The response half of reverso/protocols/openai_chat.py: a chat completion, or the events of a
-- streamed one, as Responses output, usage and replay chunks. `new_id` gives the ids that
-- `new_message_id` mints, in their order.
pub mod Delivered
pub mod Usage
use reverso_llm.Prelude.{
  ℕ, suc, String, Bool, true, false, not, ◌&&◌, List, [], ◌∷◌, Option, none, some, if◌then◌else◌,
}
use reverso_llm.Prelude.Int.{pos}
use reverso_llm.Json.{
  Json, null, bool, int, real, str, arr, obj, Items, nil, cons, items, Fields, end, field, get, has,
  is_some, truthy, or_empty,
}
use reverso_llm.Outcome.{Outcome, ok, raised, ◌>>=◌}
use reverso_llm.Responses.Replay.{message_item}

-- The dict at the head of a list, and {} for any other value.
abbrev pub fields_or_end : Json → Fields
fields_or_end (obj fs) = fs
fields_or_end _ = end

abbrev pub first_dict : Json → Fields
first_dict (arr (cons (obj choice) _)) = choice
first_dict _ = end

unfoldable pub first_message : Fields → Fields
first_message raw = fields_or_end (get "message" (first_dict (get "choices" raw)))

-- d.get(k, 0)
abbrev pub get_or_zero : String → Fields → Json
get_or_zero key fs = if has key fs then get key fs else int (pos 0)

unfoldable pub responses_usage : Json → Json
responses_usage (obj usage) = obj (
    field "input_tokens" (get_or_zero "prompt_tokens" usage) (
      field "output_tokens" (get_or_zero "completion_tokens" usage)
        (field "total_tokens" (get_or_zero "total_tokens" usage) end)))
responses_usage _ = null

unfoldable pub usage_to_chat : Fields → Json
usage_to_chat usage = obj (
    field "prompt_tokens" (get_or_zero "input_tokens" usage) (
      field "completion_tokens" (get_or_zero "output_tokens" usage)
        (field "total_tokens" (get_or_zero "total_tokens" usage) end)))

-- The item once `function` is known: a dict, whose `get` is called.
abbrev surfaced : String → Json → Json → Outcome Fields
surfaced id call_id (obj function) = ok (
    field "id" (str id) (
      field "type" (str "function_call") (
        field "status" (str "completed") (
          field "call_id" call_id (
            field "name" (get "name" function)
              (field "arguments" (get "arguments" function) end))))))
surfaced id call_id _ = raised "AttributeError"

unfoldable pub tool_call_item : String → Json → Outcome Fields
tool_call_item id (obj call) =
    surfaced id (get "id" call) (if has "function" call then get "function" call else obj end)
tool_call_item id _ = surfaced id null (obj end)

module _ (new_id : ℕ → String) where
  -- The items of the calls; the ids from `n` are still to be minted.
  unfoldable pub call_items : ℕ → Items → Outcome (List Fields)
  call_items n nil = ok []
  call_items n (cons call rest) = do
    item ← tool_call_item (new_id n) call
    items ← call_items (suc n) rest
    ok (item ∷ items)

  abbrev tool_calls_of : Json → Items
  tool_calls_of (arr calls) = calls
  tool_calls_of _ = nil

  -- `str(text)`, where `str_of` is `str` on values that are no texts
  abbrev text_of : (Json → String) → Json → String
  text_of str_of (str s) = s
  text_of str_of v = str_of v

  unfoldable pub map_completion_output : (Json → String) → Fields → Outcome (List Fields × Fields)
  map_completion_output str_of raw = do
    let message = first_message raw
    let text = text_of str_of (or_empty (get "content" message))
    called ← call_items 1 (tool_calls_of (get "tool_calls" message))
    ok (message_item (new_id 0) text ∷ called, message)

abbrev text_or_empty : Json → String
text_or_empty (str s) = s
text_or_empty _ = ""

abbrev dicts_of : Items → Items
dicts_of nil = nil
dicts_of (cons (obj call) rest) = cons (obj call) (dicts_of rest)
dicts_of (cons _ rest) = dicts_of rest

abbrev delta_calls : Json → Items
delta_calls (arr calls) = dicts_of calls
delta_calls _ = nil

unfoldable pub chunk : Json → Json → Items → Json → Fields
chunk text reasoning_text tool_calls usage = field "text" text (
    field "reasoning_text" reasoning_text
      (field "tool_calls" (arr tool_calls) (field "usage" usage (field "done" (bool false) end))))

unfoldable pub parse_stream_event : Fields → Option Fields
parse_stream_event event =
    let delta = fields_or_end (get "delta" (first_dict (get "choices" event))) in
    let text = str (text_or_empty (get "content" delta)) in
    let reasoning_text = str (text_or_empty (get "reasoning_content" delta)) in
    let tool_calls = delta_calls (get "tool_calls" delta) in
    let usage = responses_usage (get "usage" event) in
    if not (truthy text)
      && not (truthy reasoning_text)
      && not (truthy (arr tool_calls))
      && not (is_some usage)
    then none
    else some (chunk text reasoning_text tool_calls usage)
