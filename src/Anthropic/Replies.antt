-- ===== src/Anthropic/Replies.antt =====
-- The response half of reverso/protocols/anthropic_translate.py: a completed envelope as an Anthropic
-- message. `loads` is `json.loads`, `none` where it raises `JSONDecodeError`.
pub mod Agreement
use Prim.Native.String.{String}
use Prim.Native.String
use reverso_llm.Prelude.{
  Bool, true, false, Option, none, some, List, [], ◌∷◌, ◌++◌, if◌then◌else◌, any,
}
use reverso_llm.Prelude.Int.{pos}
use reverso_llm.Json.{
  Json, null, bool, int, real, str, arr, obj, Items, nil, cons, items, Fields, end, field, get, has,
  is_text, truthy,
}
use reverso_llm.Outcome.{Outcome, ok, raised, ◌>>=◌}
use reverso_llm.OpenRouter.Identity.{after_prefix}
use reverso_llm.Responses.Store.{ResponseEnvelope}

abbrev pub text_block : String → Fields
text_block text = field "type" (str "text") (field "text" (str text) end)

part_block : Json → List Fields → List Fields
part_block (str text) blocks = if truthy (str text) then text_block text ∷ blocks else blocks
part_block _ blocks = blocks

unfoldable pub part_blocks : Items → List Fields
unfolding part_block
part_blocks nil = []
part_blocks (cons (obj part) parts) =
    let rest = part_blocks parts in
    if is_text "output_text" (get "type" part) then part_block (get "text" part) rest else rest
part_blocks (cons _ parts) = part_blocks parts

-- `for part in item.get("content", [])`: a text or a dict yields texts, which are passed over.
content_blocks : Json → Outcome (List Fields)
content_blocks (arr parts) = ok (part_blocks parts)
content_blocks (str _) = ok []
content_blocks (obj _) = ok []
content_blocks _ = raised "TypeError"

module _ (loads : String → Option Json) where
  abbrev pub object_or_empty : Option Json → Json
  object_or_empty (some (obj fs)) = obj fs
  object_or_empty _ = obj end

  unfoldable pub parse_arguments : Json → Json
  parse_arguments (obj fs) = obj fs
  parse_arguments (str s) = if truthy (str s) then object_or_empty (loads s) else obj end
  parse_arguments _ = obj end

  abbrev pub tool_use_block : Fields → Fields
  tool_use_block item = field "type" (str "tool_use") (
      field "id" (get "call_id" item) (
        field "name" (get "name" item)
          (field "input" (parse_arguments (get "arguments" item)) end)))

  item_blocks : Fields → Outcome (List Fields)
  unfolding content_blocks
  item_blocks item =
      if is_text "message" (get "type" item)
      then (if has "content" item then content_blocks (get "content" item) else ok [])
      else if is_text "function_call" (get "type" item)
      then ok (tool_use_block item ∷ [])
      else ok []

  unfoldable pub output_to_content_blocks : List Fields → Outcome (List Fields)
  unfolding item_blocks
  output_to_content_blocks [] = ok []
  output_to_content_blocks (item ∷ output) = do
    blocks ← item_blocks item
    rest ← output_to_content_blocks output
    ok (blocks ++ rest)

unfoldable pub stop_reason_from_output : List Fields → String
unfolding any
stop_reason_from_output content =
    if any (λ (block : Fields). is_text "tool_use" (get "type" block)) content
    then "tool_use"
    else "end_turn"

unfoldable pub anthropic_message_id : String → String
anthropic_message_id response_id = elim (after_prefix "resp_" response_id) [
  | some rest ↦ String.◌++◌ "msg_" rest
  | none ↦ String.◌++◌ "msg_" response_id
]

-- A Boolean is an int.
abbrev pub int_or_zero : Json → Json
int_or_zero (int n) = int n
int_or_zero (bool b) = bool b
int_or_zero _ = int (pos 0)

unfoldable pub usage_to_anthropic : Json → Json
usage_to_anthropic (obj usage) = obj (
    field "input_tokens" (int_or_zero (get "input_tokens" usage))
      (field "output_tokens" (int_or_zero (get "output_tokens" usage)) end))
usage_to_anthropic _ =
    obj (field "input_tokens" (int (pos 0)) (field "output_tokens" (int (pos 0)) end))

-- The message's fields.
pub record AnthropicMessage : Type 0 where
  pub id : String
  pub model : String
  pub content : List Fields
  pub stop_reason : String
  pub usage : Json

unfoldable pub responses_envelope_to_anthropic :
    (String → Option Json) → ResponseEnvelope → Outcome AnthropicMessage
responses_envelope_to_anthropic loads envelope = do
  content ← output_to_content_blocks loads envelope.output
  ok (record {
    id = anthropic_message_id envelope.id;
    model = envelope.model;
    content = content;
    stop_reason = stop_reason_from_output content;
    usage = usage_to_anthropic envelope.usage;
  })
