-- ===== src/Tests/Streams.antt =====
-- Turns, replays and their Anthropic streams.
use reverso_llm.Prelude.{List, [], ◌∷◌, ◌≡◌, refl, some, map, text_key, any}
use reverso_llm.Prelude.Int.{pos}
use reverso_llm.Json.{Json, null, int, str, obj, field, end, get}
use reverso_llm.Outcome.{ok}
use reverso_llm.Sse.{SseEvent}
use reverso_llm.Responses.Store.{ResponseEnvelope, empty, get_response, get_input_items}
use reverso_llm.Responses.Generator.{events, drain}
use reverso_llm.Responses.Replay.{replay_turn}
use reverso_llm.Responses.Replay.Delivery.{replay_turn-stores_first}
use reverso_llm.Responses.Replay.Turns.{TurnItem, says, calls, render}
use reverso_llm.Anthropic.Stream.{
  message_start, ping, message_delta, message_stop, exhausted, responses_sse_to_anthropic,
}
use reverso_llm.Anthropic.Stream.WellFormed.{Delivers, responses_sse_to_anthropic-IsWellFormed}
use reverso_llm.Anthropic.Stream.Replayed.{blocks, replayed-blocks}

abbrev turn : List TurnItem
turn = says "msg_1" "Hello" ∷ calls "fc_1" "call_1" "ls" "{}" ∷ []

abbrev envelope : ResponseEnvelope
envelope = record {
  id = "resp_1";
  model = "opus";
  output = map render turn;
  status = "completed";
  usage = obj (field "output_tokens" (int (pos 7)) end);
  previous_response_id = null;
  raw = end;
}

abbrev hello : List Json
hello = str "hi" ∷ []

abbrev broken_stream : List SseEvent
broken_stream =
    record { event = "response.output_item.added"; payload = null }
    ∷ record { event = ""; payload = str "not a dict" }
    ∷ []

responses_sse_to_anthropic-IsWellFormed_example : Delivers "opus" "msg_1" broken_stream exhausted
responses_sse_to_anthropic-IsWellFormed_example =
    responses_sse_to_anthropic-IsWellFormed "opus" "msg_1" broken_stream exhausted

replayed-blocks_example :
    responses_sse_to_anthropic "opus" "msg_1" (events (replay_turn envelope hello)) exhausted
    ≡ ok (
        message_start "opus" "msg_1"
        ∷ ping
        ∷ blocks 0 turn (message_delta "tool_use" (int (pos 7)) ∷ message_stop ∷ []))
unfolding any get
replayed-blocks_example = replayed-blocks "opus" "msg_1" envelope hello turn refl

replay_turn-stores_first_example :
    (get_response "resp_1" (drain 2 (replay_turn envelope hello) empty) ≡ some envelope)
    × (get_input_items "resp_1" (drain 2 (replay_turn envelope hello) empty)
        ≡ some (record { response_id = "resp_1"; items = hello }))
    × (drain 0 (replay_turn envelope hello) empty ≡ empty)
replay_turn-stores_first_example = replay_turn-stores_first envelope hello empty 1 "resp_1"
