-- ===== src/Deepseek/Streamed/Addressed.antt =====
-- A streamed completion beside the buffered one, in deepseek.py.
use reverso_llm.Prelude.{
  ℕ, String, true, false, Option, List, ◌∷◌, ◌≡◌, refl, ap, ◌∙◌, map, text_key, ◌==◌,
}
use reverso_llm.Json.{Json, str, obj, arr, items, Fields, get, put, get-put, truthy}
use reverso_llm.Outcome.{ok, ◌>>=◌}
use reverso_llm.Responses.Store.{ResponseEnvelope}
use reverso_llm.Responses.Replay.{message_item}
use reverso_llm.Responses.Replay.Turns.{says, render}
use reverso_llm.Features.Responses.{ResponsesRequest}
use reverso_llm.Chat.Replies.{first_message, responses_usage}
use reverso_llm.Chat.Replies.Delivered.{
  Called, Says, Makes, called_items, map_completion_output-Makes,
}
use reverso_llm.Deepseek.Envelopes.{
  map_completion, finalize_streaming_envelope, readdressed, readdressed_output, envelope_of,
  echoed_model, reasoning_json,
}
use reverso_llm.Deepseek.Streamed.{slot_of, finalize-map_completion}

-- A streamed envelope is a buffered one under another response id and another id of its message: the
-- turn of the text and the calls, under the ids minted for the calls, and everything else as it was.
pub record IsReaddressed (new_id : ℕ → String) (id message_id text : String) (cs : List Called)
    (buffered streamed : ResponseEnvelope) : Type 0 where
  pub from : buffered.output ≡ map render (says (new_id 0) text ∷ called_items new_id 1 cs)
  pub output : streamed.output ≡ map render (says message_id text ∷ called_items new_id 1 cs)
  pub named : streamed.id ≡ id
  pub model : streamed.model ≡ buffered.model
  pub status : streamed.status ≡ buffered.status
  pub usage : streamed.usage ≡ buffered.usage
  pub chained : streamed.previous_response_id ≡ buffered.previous_response_id
  pub raw_id : get "id" streamed.raw ≡ str id
  pub raw_output : get "output" streamed.raw ≡ arr (items (map obj streamed.output))
  pub raw_others :
      (key : String)
      → ("id" == key) ≡ false
      → ("output" == key) ≡ false
      → get key streamed.raw ≡ get key buffered.raw

readdressed-says :
    (message_id first text : String) (rest : List Fields)
    → readdressed_output message_id (render (says first text) ∷ rest)
      ≡ render (says message_id text) ∷ rest
unfolding readdressed_output message_item get put
readdressed-says message_id first text rest = refl

readdressed-IsReaddressed :
    (new_id : ℕ → String) (id message_id text : String) (cs : List Called) (e : ResponseEnvelope)
    → e.output ≡ map render (says (new_id 0) text ∷ called_items new_id 1 cs)
    → IsReaddressed new_id id message_id text cs e (readdressed id message_id e)
unfolding readdressed
readdressed-IsReaddressed new_id id message_id text cs e same = record {
  from = same;
  output =
      ap (readdressed_output message_id) same
      ∙ readdressed-says message_id (new_id 0) text (map render (called_items new_id 1 cs));
  named = refl;
  model = refl;
  status = refl;
  usage = refl;
  chained = refl;
  raw_id = get-put "output" "id" _ (put "id" (str id) e.raw) ∙ get-put "id" "id" _ e.raw;
  raw_output = get-put "output" "output" _ (put "id" (str id) e.raw);
  raw_others = λ key not_id not_output.
      rw
        (
          get-put "output" key _ (put "id" (str id) e.raw),
          get-put "id" key (str id) e.raw,
          not_id,
          not_output,
        )
        refl;
}

-- A streamed completion ends in the envelope of the buffered one. Let a completion have a text or none,
-- calls or none, a reasoning and a usage, let what is gathered of it be the same, and let the request
-- name a model. Then both ways succeed: the output is the message with the text and the calls in their
-- order, the streamed one has the announced response id and message id, in its raw form too, and
-- everything else of the two envelopes is the same.
pub finalize-IsReaddressed :
    (new_id : ℕ → String) (str_of : Json → String) (request : ResponsesRequest) (id text : String)
    (r : Option String) (usage : Json) (fresh message_id : String) (raw : Fields) (cs : List Called)
    → truthy request.model ≡ true
    → Says text (get "content" (first_message raw))
    → Makes cs (get "tool_calls" (first_message raw))
    → get "reasoning_content" (first_message raw) ≡ reasoning_json r
    → usage ≡ responses_usage (get "usage" raw)
    → (buffered streamed : ResponseEnvelope) × (map_completion new_id fresh str_of request raw
        ≡ ok buffered)
      × (finalize_streaming_envelope new_id fresh str_of request id message_id text r usage
            (map slot_of cs)
          ≡ ok streamed)
      × IsReaddressed new_id id message_id text cs buffered streamed
unfolding map_completion envelope_of
finalize-IsReaddressed new_id str_of request id text r usage fresh message_id raw cs model content
      called reasoning u =
    let output = map_completion_output-Makes new_id str_of raw text cs content called in
    let buffered =
      envelope_of fresh (echoed_model str_of request.model raw) request
        (map render (says (new_id 0) text ∷ called_items new_id 1 cs))
        (responses_usage (get "usage" raw)) (get "reasoning_content" (first_message raw)) in
    let mapped : map_completion new_id fresh str_of request raw ≡ ok buffered = rw output refl in
    (
      buffered,
      readdressed id message_id buffered,
      mapped,
      finalize-map_completion new_id str_of request id text r usage fresh message_id raw cs model
            content called reasoning u
          ∙ ap (λ o. o >>= (λ envelope. ok (readdressed id message_id envelope))) mapped,
      readdressed-IsReaddressed new_id id message_id text cs buffered refl,
    )
