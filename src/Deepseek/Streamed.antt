-- ===== src/Deepseek/Streamed.antt =====
-- The two ways of a completion through deepseek.py: `_map_completion` of a buffered one, and
-- `_finalize_streaming_envelope` of what `replay_incremental` has gathered.
pub mod Addressed
use reverso_llm.Prelude.{
  ℕ, String, true, Option, List, [], ◌∷◌, ◌≡◌, refl, ap, ◌∙◌, map, arith, text_key,
}
use reverso_llm.Json.{
  Json, null, bool, int, real, str, obj, arr, or_empty-str, items, Fields, get, has, truthy,
}
use reverso_llm.Outcome.{ok, ◌>>=◌}
use reverso_llm.Responses.Incremental.{ToolCall}
use reverso_llm.Responses.Replay.Turns.{says, render}
use reverso_llm.Features.Responses.{ResponsesRequest}
use reverso_llm.Chat.Requests.{chat_call}
use reverso_llm.Chat.Replies.{
  first_message, responses_usage, usage_to_chat, map_completion_output, call_items,
}
use reverso_llm.Chat.Replies.Delivered.{
  Called, Says, Makes, upstream_call, called_items, map_completion_output-render,
  map_completion_output-Makes,
}
use reverso_llm.Deepseek.Envelopes.{
  map_completion, finalize_streaming_envelope, readdressed, slot_json, reasoning_json, chat_message,
  calls_json, streamed_raw, echoed_model,
}

-- The slot of a call that has arrived whole.
abbrev pub slot_of : Called → ToolCall
slot_of c = record {
  id = str c.call_id;
  type = str "function";
  name = c.name;
  arguments = c.arguments;
}

slots-upstream_call : (cs : List Called) → map slot_json (map slot_of cs) ≡ map upstream_call cs
unfolding slot_json chat_call
slots-upstream_call [] = refl
slots-upstream_call (c ∷ cs) = ap (λ l. upstream_call c ∷ l) (slots-upstream_call cs)

tool_calls-chat_message :
    (text : String) (r : Option String) (slots : List ToolCall)
    → get "tool_calls" (chat_message text r slots) ≡ calls_json slots
unfolding chat_message get
tool_calls-chat_message text r slots = ground arith

reasoning-chat_message :
    (text : String) (r : Option String) (slots : List ToolCall)
    → get "reasoning_content" (chat_message text r slots) ≡ reasoning_json r
unfolding chat_message get
reasoning-chat_message text r slots = ground arith

module _ (new_id : ℕ → String) (str_of : Json → String) (request : ResponsesRequest)
    (id text : String) (r : Option String) (usage : Json) where
  abbrev gathered : List Called → Fields
  gathered cs = streamed_raw request id text r usage (map slot_of cs)

  message-gathered :
      (cs : List Called) → first_message (gathered cs) ≡ chat_message text r (map slot_of cs)
  unfolding streamed_raw first_message get
  message-gathered cs = refl

  content-gathered : (cs : List Called) → get "content" (first_message (gathered cs)) ≡ str text
  unfolding chat_message get
  content-gathered cs = rw (message-gathered cs) refl

  output-gathered :
      (cs : List Called)
      → map_completion_output new_id str_of (gathered cs)
        ≡ ok (
          map render (says (new_id 0) text ∷ called_items new_id 1 cs),
          chat_message text r (map slot_of cs),
        )
  unfolding map_completion_output call_items
  output-gathered [] =
      rw
        (
          content-gathered [],
          or_empty-str text,
          message-gathered [],
          tool_calls-chat_message text r [],
        )
        refl
  output-gathered (c ∷ cs) =
      map_completion_output-render new_id str_of (gathered (c ∷ cs)) text (c ∷ cs)
        (content-gathered (c ∷ cs))
        (rw (message-gathered (c ∷ cs), tool_calls-chat_message text r (map slot_of (c ∷ cs)))
          (ap (λ l. arr (items l)) (slots-upstream_call (c ∷ cs))))
      ∙ rw (message-gathered (c ∷ cs)) refl

  usage-gathered :
      (u : Json) (cs : List Called)
      → usage ≡ responses_usage u
      → responses_usage (get "usage" (gathered cs)) ≡ responses_usage u
  unfolding streamed_raw get has responses_usage usage_to_chat
  usage-gathered (obj u) cs e = rw e refl
  usage-gathered null cs e = rw e refl
  usage-gathered (bool _) cs e = rw e refl
  usage-gathered (int _) cs e = rw e refl
  usage-gathered (real _ _) cs e = rw e refl
  usage-gathered (str _) cs e = rw e refl
  usage-gathered (arr _) cs e = rw e refl

  -- What is gathered of a completion is finalized as `_map_completion` maps the completion itself, with
  -- the response id and the first message's id replaced by the announced ones.
  pub finalize-map_completion :
      (fresh message_id : String) (raw : Fields) (cs : List Called)
      → truthy request.model ≡ true
      → Says text (get "content" (first_message raw))
      → Makes cs (get "tool_calls" (first_message raw))
      → get "reasoning_content" (first_message raw) ≡ reasoning_json r
      → usage ≡ responses_usage (get "usage" raw)
      → finalize_streaming_envelope new_id fresh str_of request id message_id text r usage
          (map slot_of cs)
        ≡ (map_completion new_id fresh str_of request raw
            >>= (λ envelope. ok (readdressed id message_id envelope)))
  unfolding finalize_streaming_envelope map_completion echoed_model
  finalize-map_completion fresh message_id raw cs model content called reasoning u =
      rw
        (
          output-gathered cs,
          map_completion_output-Makes new_id str_of raw text cs content called,
          model,
          reasoning-chat_message text r (map slot_of cs),
          reasoning,
          usage-gathered (get "usage" raw) cs u,
        )
        refl
