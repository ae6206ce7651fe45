-- ===== src/Tests/Translation.antt =====
-- Conversations and completions through the translations.
use reverso_llm.Prelude.{
  ℕ, zero, suc, String, Option, none, some, List, [], ◌∷◌, ◌++◌, ◌≡◌, refl, map,
}
use reverso_llm.Json.{Json, null, str, arr, obj, Items, nil, cons, items, Fields, end, field, get}
use reverso_llm.Outcome.{ok, ◌>>=◌}
use reverso_llm.Responses.Store.{ResponseEnvelope}
use reverso_llm.Responses.Generator.{events}
use reverso_llm.Responses.Replay.{replay_turn}
use reverso_llm.Responses.Replay.Turns.{TurnItem, says, calls, render}
use reverso_llm.Anthropic.Stream.{responses_sse_to_anthropic, exhausted}
use reverso_llm.Anthropic.Requests.{messages_to_input_items}
use reverso_llm.Anthropic.Requests.Grouping
use reverso_llm.Anthropic.Replies.{responses_envelope_to_anthropic}
use reverso_llm.Anthropic.Replies.Agreement.{received_message, message_of, received-replay_turn}
use reverso_llm.Chat.Requests.{
  walk, walk_step, other_messages, flush_pending, role_message, walk_input_items, chat_tools,
  chat_tool_choice,
}
use reverso_llm.Chat.Requests.Tools.{chat_tools-chat_tools}
use reverso_llm.Chat.Requests.ToolLoop.{all_entries, all_opened, opened-walk_input_items}
use reverso_llm.Chat.Requests.FromAnthropic.{tools_of, message_tools, tools-walk_input_items}
use reverso_llm.Chat.Replies.{first_message, map_completion_output}
use reverso_llm.Chat.Replies.Delivered.{
  Called, upstream_call, output_item, tool_answer, walk_input_items-map_completion_output,
}

-- `json.dumps` and `json.loads` on the one value of these tests.
abbrev dumps : Json → Option String
dumps (obj end) = some "{}"
dumps _ = none

abbrev loads : String → Option Json
loads s = some (obj end)

abbrev text_block : String → Json
text_block t = obj (field "type" (str "text") (field "text" (str t) end))

abbrev tool_use : Json
tool_use = obj (
    field "type" (str "tool_use")
      (field "id" (str "call_1") (field "name" (str "ls") (field "input" (obj end) end))))

abbrev tool_result : Json
tool_result = obj (
    field "type" (str "tool_result")
      (field "tool_use_id" (str "call_1") (field "content" (str "a.txt") end)))

abbrev message : String → Json → Json
message role content = obj (field "role" (str role) (field "content" content end))

abbrev conversation : Items
conversation = items (
    message "user" (str "list the files")
    ∷ message "assistant" (arr (items (text_block "let me see" ∷ tool_use ∷ [])))
    ∷ message "user" (arr (items (tool_result ∷ [])))
    ∷ [])

opened-messages_to_input_items_example :
    Grouping.all_opened (messages_to_input_items dumps (arr conversation))
    ≡ Grouping.message_entries dumps conversation
opened-messages_to_input_items_example = Grouping.opened-messages_to_input_items dumps conversation

abbrev input : Items
input = items (messages_to_input_items dumps (arr conversation))

opened-walk_input_items_example :
    all_opened (walk_input_items dumps input) ≡ all_entries dumps input
opened-walk_input_items_example = opened-walk_input_items dumps input

tools-walk_input_items_example :
    tools_of (all_opened (walk_input_items dumps input)) ≡ message_tools dumps conversation
tools-walk_input_items_example = tools-walk_input_items dumps dumps conversation

abbrev turn : List TurnItem
turn = says "msg_1" "let me see" ∷ calls "fc_1" "call_1" "ls" "{}" ∷ []

abbrev envelope : ResponseEnvelope
envelope = record {
  id = "resp_1";
  model = "m";
  output = map render turn;
  status = "completed";
  usage = null;
  previous_response_id = null;
  raw = end;
}

received-replay_turn_example :
    (responses_sse_to_anthropic "m" "msg_1" (events (replay_turn envelope [])) exhausted
      >>= received_message loads)
    ≡ (responses_envelope_to_anthropic loads envelope >>= message_of)
received-replay_turn_example = received-replay_turn loads "m" "msg_1" envelope [] turn refl

abbrev flat_tool : Json
flat_tool = obj (field "type" (str "function") (field "name" (str "ls") end))

chat_tools-chat_tools_example :
    (chat_tools (items (chat_tools (cons flat_tool nil))) ≡ chat_tools (cons flat_tool nil))
    × (chat_tool_choice (chat_tool_choice flat_tool) ≡ chat_tool_choice flat_tool)
chat_tools-chat_tools_example = chat_tools-chat_tools (cons flat_tool nil) flat_tool

abbrev ls : Called
ls = record { call_id = "call_1"; name = "ls"; arguments = "{}" }

abbrev completion : Fields
completion =
    field "choices"
      (arr (
        cons
          (obj (
            field "message"
              (obj (
                field "content" (str "let me see")
                  (field "tool_calls" (arr (items (map upstream_call (ls ∷ [])))) end)))
              end))
          nil))
      end

abbrev new_id : ℕ → String
new_id zero = "msg_1"
new_id (suc n) = "msg_2"

abbrev str_of : Json → String
str_of v = "None"

abbrev answers : List (String × String)
answers = ("call_1", "a.txt") ∷ []

walk_input_items-map_completion_output_example :
    (map_completion_output new_id str_of completion >>= (λ result.
      ok (walk_input_items dumps (items (map obj result.0 ++ map output_item answers)))))
    ≡ ok (
        role_message (str "assistant") "let me see"
        ++ flush_pending (map upstream_call (ls ∷ []))
        ++ map tool_answer answers)
unfolding first_message get
walk_input_items-map_completion_output_example =
    walk_input_items-map_completion_output new_id str_of dumps completion "let me see" (ls ∷ [])
      answers refl refl

-- A reasoning item between two calls, which is skipped, splits them into two messages.
abbrev echoed_call : Json
echoed_call = obj (
    field "type" (str "function_call")
      (field "call_id" (str "call_1") (field "name" (str "ls") (field "arguments" (str "{}") end))))

split_calls :
    walk_input_items dumps
      (items (echoed_call ∷ obj (field "type" (str "reasoning") end) ∷ echoed_call ∷ []))
    ≡ flush_pending (upstream_call ls ∷ []) ++ flush_pending (upstream_call ls ∷ [])
unfolding walk walk_step other_messages get flush_pending
split_calls = refl

joined_calls :
    walk_input_items dumps (items (echoed_call ∷ echoed_call ∷ []))
    ≡ flush_pending (upstream_call ls ∷ upstream_call ls ∷ [])
unfolding walk walk_step get
joined_calls = refl
