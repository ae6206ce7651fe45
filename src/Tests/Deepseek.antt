-- ===== src/Tests/Deepseek.antt =====
-- A DeepSeek turn, buffered and streamed, and the turn after it.
use reverso_llm.Prelude.{
  ℕ, zero, suc, String, true, Option, none, some, inl, [], ◌∷◌, ◌≡◌, refl, map, text_key, contains,
}
use reverso_llm.Json.{
  Json, null, bool, str, arr, obj, nil, cons, items, Fields, end, field, get, put,
}
use reverso_llm.Outcome.{ok, ◌>>=◌}
use reverso_llm.Responses.Store.{ResponseEnvelope, empty}
use reverso_llm.Features.Responses.{ResponsesRequest}
use reverso_llm.Chat.Replies.{first_message, responses_usage}
use reverso_llm.Chat.Replies.Delivered.{Called, upstream_call}
use reverso_llm.Deepseek.{forward, prior_turn, build_body}
use reverso_llm.Deepseek.Bodies.{get-build_body}
use reverso_llm.Deepseek.Envelopes.{map_completion, finalize_streaming_envelope, create_response}
use reverso_llm.Deepseek.Envelopes.Chained.{Recalls, prior_turn-create_response}
use reverso_llm.Deepseek.Streamed.{slot_of}
use reverso_llm.Deepseek.Streamed.Addressed.{IsReaddressed, finalize-IsReaddressed}

abbrev new_id : ℕ → String
new_id zero = "msg_1"
new_id (suc n) = "fc_1"

abbrev str_of : Json → String
str_of v = "None"

abbrev ls : Called
ls = record { call_id = "call_1"; name = "ls"; arguments = "{}" }

abbrev completion : Fields
completion =
    field "choices"
      (arr (
        cons
          (obj (
            field "message"
              (obj (
                field "content" (str "let me see") (
                  field "reasoning_content" (str "files?")
                    (field "tool_calls" (arr (items (map upstream_call (ls ∷ [])))) end))))
              end))
          nil))
      end

abbrev request : ResponsesRequest
request = record {
  model = str "deepseek-chat";
  input = str "list the files";
  stream = true;
  previous_response_id = null;
  tools = null;
  instructions = null;
  tool_choice = null;
  extra = end;
}

finalize-IsReaddressed_example :
    (buffered streamed : ResponseEnvelope) × (map_completion new_id "resp_2" str_of request
        completion
      ≡ ok buffered)
    × (finalize_streaming_envelope new_id "resp_2" str_of request "resp_1" "msg_0" "let me see"
          (some "files?")
          null
          (map slot_of (ls ∷ []))
        ≡ ok streamed)
    × IsReaddressed new_id "resp_1" "msg_0" "let me see" (ls ∷ []) buffered streamed
unfolding first_message get responses_usage
finalize-IsReaddressed_example =
    finalize-IsReaddressed new_id str_of request "resp_1" "let me see" (some "files?") null "resp_2"
      "msg_0" completion (ls ∷ []) refl (inl refl) (inl refl) refl refl

prior_turn-create_response_example :
    (message : Fields) × ((create_response new_id "resp_1" str_of request completion empty
        >>= (λ turn. prior_turn (str "resp_1") turn.1))
      ≡ ok (obj message ∷ []))
    × Recalls "let me see" (get "reasoning_content" (first_message completion)) message
unfolding first_message get
prior_turn-create_response_example =
    prior_turn-create_response new_id "resp_1" str_of request completion "let me see" (ls ∷ [])
      empty refl (inl refl) (inl refl)

abbrev clobbering : Fields
clobbering = field "messages" null (field "stream_options" null end)

abbrev chat_body : Fields
chat_body =
    field "messages" (arr nil)
      (field "stream_options" (obj (field "include_usage" (bool true) end)) end)

-- `json.dumps` on the values of these tests.
abbrev dumps : Json → Option String
dumps v = none

get-build_body_example :
    (build_body dumps str_of (record request { extra = clobbering }) true empty
      >>= (λ body. ok (get "messages" body)))
    ≡ (build_body dumps str_of (record request { extra = end }) true empty
        >>= (λ body. ok (get "messages" body)))
unfolding contains
get-build_body_example = get-build_body dumps str_of "messages" refl request true empty clobbering

-- `stream_options` is no key that the adapter keeps to itself: an extra field replaces it.
stream_options_replaced : get "stream_options" (forward clobbering chat_body) ≡ null
unfolding forward contains get put
stream_options_replaced = refl
