-- ===== src/Deepseek/Envelopes.antt =====
-- Completions as envelopes in deepseek.py, and the turn that follows one.
pub mod Chained
use reverso_llm.Prelude.{
  ℕ, String, Bool, true, false, Option, none, some, List, [], ◌∷◌, map, ◌≡◌, refl, arith,
  if◌then◌else◌, ◌==◌, text_key,
}
use reverso_llm.Prelude.Int.{pos}
use reverso_llm.Json.{
  Json, null, str, int, arr, obj, nil, cons, items, Fields, end, field, get, has, put, is_some,
  is_text, truthy,
}
use reverso_llm.Outcome.{Outcome, ok, raised, ◌>>=◌}
use reverso_llm.Responses.Store.{ResponseEnvelope, ResponseStore, put_response}
use reverso_llm.Responses.Incremental.{ToolCall, Finalize}
use reverso_llm.Responses.Prompts.{record_input_items}
use reverso_llm.Features.Responses.{ResponsesRequest}
use reverso_llm.Routing.Models.{resolve_profile_model}
use reverso_llm.Chat.Replies.{map_completion_output, responses_usage, usage_to_chat, fields_or_end}

abbrev pub if_some : String → Json → Fields → Fields
if_some key value rest = if is_some value then field key value rest else rest

-- str(value), where `str_of` is `str` on values that are no texts
abbrev text_with : (Json → String) → Json → String
text_with str_of (str s) = s
text_with str_of v = str_of v

-- raw.get("model", "")
abbrev raw_model : Fields → Json
raw_model raw = if has "model" raw then get "model" raw else str ""

-- `request.model or str(raw.get("model", ""))`, of a model that is a text or None
unfoldable pub echoed_model : (Json → String) → Json → Fields → String
echoed_model str_of model raw =
    if truthy model then text_with str_of model else text_with str_of (raw_model raw)

-- `ResponseEnvelope(...)` and its `raw`, from the ids and what the completion gives.
unfoldable pub envelope_of :
    String → String → ResponsesRequest → List Fields → Json → Json → ResponseEnvelope
envelope_of response_id model request output usage reasoning = record {
  id = response_id;
  model = model;
  output = output;
  status = "completed";
  usage = usage;
  previous_response_id = request.previous_response_id;
  raw = field "id" (str response_id) (
      field "object" (str "response") (
        field "status" (str "completed") (
          field "model" (str model) (
            field "output" (arr (items (map obj output))) (
              if_some "usage" usage (
                if_some "previous_response_id" request.previous_response_id
                  (if_some "reasoning_content" reasoning end)))))));
}

-- The first item is rewritten in place, and `raw` holds the same list.
unfoldable pub readdressed_output : String → List Fields → List Fields
readdressed_output message_id [] = []
readdressed_output message_id (item ∷ output) =
    (if is_text "message" (get "type" item) then put "id" (str message_id) item else item) ∷ output

unfoldable pub readdressed : String → String → ResponseEnvelope → ResponseEnvelope
unfolding readdressed_output
readdressed response_id message_id envelope =
    let output = readdressed_output message_id envelope.output in
    record envelope {
      id = response_id;
      output = output;
      raw = put "output" (arr (items (map obj output))) (put "id" (str response_id) envelope.raw);
    }

-- A slot of the tool-call buffer as the dict that it is.
unfoldable pub slot_json : ToolCall → Json
slot_json slot = obj (
    field "id" slot.id (
      field "type" slot.type (
        field "function"
          (obj (field "name" (str slot.name) (field "arguments" (str slot.arguments) end))) end)))

-- `if full_reasoning`
abbrev pub reasoning_json : Option String → Json
reasoning_json none = null
reasoning_json (some text) = if truthy (str text) then str text else null

abbrev pub calls_json : List ToolCall → Json
calls_json [] = null
calls_json (c ∷ cs) = arr (items (map slot_json (c ∷ cs)))

unfoldable pub chat_message : String → Option String → List ToolCall → Fields
chat_message full_text full_reasoning tool_calls = field "role" (str "assistant") (
    field "content" (str full_text) (
      if_some "reasoning_content" (reasoning_json full_reasoning)
        (if_some "tool_calls" (calls_json tool_calls) end)))

-- `if usage is not None`, of a usage that is a dict
abbrev usage_back : Json → Json
usage_back (obj usage) = usage_to_chat usage
usage_back _ = null

abbrev resolved : Json → String
resolved (str model) = resolve_profile_model "deepseek" model
resolved _ = resolve_profile_model "deepseek" ""

finish_reason : List ToolCall → String
finish_reason [] = "stop"
finish_reason (_ ∷ _) = "tool_calls"

unfoldable pub streamed_raw :
    ResponsesRequest → String → String → Option String → Json → List ToolCall → Fields
unfolding finish_reason
streamed_raw request response_id full_text full_reasoning usage tool_calls =
    field "id" (str response_id) (
      field "model" (str (resolved request.model)) (
        field "choices"
          (arr (
            cons
              (obj (
                field "index" (int (pos 0)) (
                  field "message" (obj (chat_message full_text full_reasoning tool_calls))
                    (field "finish_reason" (str (finish_reason tool_calls)) end))))
              nil))
          (if_some "usage" (usage_back usage) end)))

-- `new_response_id()` gives `fresh`, and `new_message_id()` the ids of `new_id` in their order.
module _ (new_id : ℕ → String) (fresh : String) (str_of : Json → String) where
  unfoldable pub map_completion : ResponsesRequest → Fields → Outcome ResponseEnvelope
  map_completion request raw = do
    (output, message) ← map_completion_output new_id str_of raw
    ok (
        envelope_of fresh (echoed_model str_of request.model raw) request output
          (responses_usage (get "usage" raw)) (get "reasoning_content" message))

  unfoldable pub finalize_streaming_envelope : ResponsesRequest → String → String → Finalize
  finalize_streaming_envelope request response_id message_id full_text full_reasoning usage
        tool_calls =
      do
        envelope ←
            map_completion request
              (streamed_raw request response_id full_text full_reasoning usage tool_calls)
        ok (readdressed response_id message_id envelope)

  -- `create_response`, once the upstream has answered.
  unfoldable pub create_response :
      ResponsesRequest → Fields → ResponseStore → Outcome (ResponseEnvelope × ResponseStore)
  create_response request raw store = do
    envelope ← map_completion request raw
    ok (envelope, put_response envelope (some (record_input_items str_of request.input)) store)
