-- ===== src/Deepseek/Envelopes/Chained.antt =====
-- A turn that names the one before it, in deepseek.py.
use reverso_llm.Prelude.{ℕ, String, true, List, [], ◌∷◌, ◌≡◌, refl, ap, ◌∙◌, map, arith, text_key}
use reverso_llm.Prelude.Dict.{key_refl}
use reverso_llm.Json.{Json, null, bool, int, real, str, arr, obj, Fields, get, has, is_some, truthy}
use reverso_llm.Outcome.{ok, ◌>>=◌}
use reverso_llm.Responses.Store.{ResponseStore, get_response-put_response}
use reverso_llm.Responses.Replay.{message_item}
use reverso_llm.Responses.Replay.Turns.{says, render}
use reverso_llm.Features.Responses.{ResponsesRequest}
use reverso_llm.Chat.Replies.{first_message, responses_usage}
use reverso_llm.Chat.Replies.Delivered.{
  Called, Says, Makes, called_items, map_completion_output-Makes,
}
use reverso_llm.Deepseek.{prior_turn, prior_message, output_text}
use reverso_llm.Deepseek.Envelopes.{map_completion, create_response, envelope_of, echoed_model}

output_text-message_item :
    (id text : String) (rest : List Fields) → output_text (message_item id text ∷ rest) ≡ ok text
unfolding output_text message_item get has
output_text-message_item id text rest = refl

reasoning-envelope_of :
    (id model : String) (request : ResponsesRequest) (output : List Fields) (usage reasoning : Json)
    → get "reasoning_content" (envelope_of id model request output usage reasoning).raw ≡ reasoning
unfolding envelope_of get
reasoning-envelope_of id model request output usage reasoning = ground arith

prior_turn-stored :
    (new_id : ℕ → String) (fresh : String) (str_of : Json → String) (request : ResponsesRequest)
    (raw : Fields) (text : String) (cs : List Called) (store : ResponseStore)
    → truthy (str fresh) ≡ true
    → Says text (get "content" (first_message raw))
    → Makes cs (get "tool_calls" (first_message raw))
    → (create_response new_id fresh str_of request raw store
        >>= (λ turn. prior_turn (str fresh) turn.1))
      ≡ ok (prior_message text (get "reasoning_content" (first_message raw)) ∷ [])
unfolding create_response map_completion prior_turn envelope_of prior_message
prior_turn-stored new_id fresh str_of request raw text cs store nonempty content called =
    rw
      (
        map_completion_output-Makes new_id str_of raw text cs content called,
        nonempty,
        get_response-put_response,
        key_refl fresh,
      )
      (rw
        (
          output_text-message_item (new_id 0) text (map render (called_items new_id 1 cs)),
          reasoning-envelope_of fresh (echoed_model str_of request.model raw) request
              (map render (says (new_id 0) text ∷ called_items new_id 1 cs))
              (responses_usage (get "usage" raw)) (get "reasoning_content" (first_message raw)),
        )
        refl)

-- The assistant message of a text, with a reasoning where there is one.
pub record Recalls (text : String) (reasoning : Json) (message : Fields) : Type 0 where
  pub speaker : get "role" message ≡ str "assistant"
  pub content : get "content" message ≡ str text
  pub thought : get "reasoning_content" message ≡ reasoning
  pub thoughtless : has "reasoning_content" message ≡ is_some reasoning

prior_message-Recalls :
    (text : String) (reasoning : Json)
    → (message : Fields) × (prior_message text reasoning ≡ obj message)
      × Recalls text reasoning message
unfolding prior_message get has
prior_message-Recalls text null =
    (_, refl, record { speaker = refl; content = refl; thought = refl; thoughtless = refl })
prior_message-Recalls text (bool _) =
    (_, refl, record { speaker = refl; content = refl; thought = refl; thoughtless = refl })
prior_message-Recalls text (int _) =
    (_, refl, record { speaker = refl; content = refl; thought = refl; thoughtless = refl })
prior_message-Recalls text (real _ _) =
    (_, refl, record { speaker = refl; content = refl; thought = refl; thoughtless = refl })
prior_message-Recalls text (str _) =
    (_, refl, record { speaker = refl; content = refl; thought = refl; thoughtless = refl })
prior_message-Recalls text (arr _) =
    (_, refl, record { speaker = refl; content = refl; thought = refl; thoughtless = refl })
prior_message-Recalls text (obj _) =
    (_, refl, record { speaker = refl; content = refl; thought = refl; thoughtless = refl })

-- Thinking carries over: once a completion of a text, or of none, and of any calls has been stored under a
-- new id that is not empty, a turn that names the id as the previous one is preceded by exactly one
-- message, the assistant's: its content is that text and its reasoning_content is, exactly as it came,
-- the completion's, or missing with it.
pub prior_turn-create_response :
    (new_id : ℕ → String) (fresh : String) (str_of : Json → String) (request : ResponsesRequest)
    (raw : Fields) (text : String) (cs : List Called) (store : ResponseStore)
    → truthy (str fresh) ≡ true
    → Says text (get "content" (first_message raw))
    → Makes cs (get "tool_calls" (first_message raw))
    → (message : Fields) × ((create_response new_id fresh str_of request raw store
          >>= (λ turn. prior_turn (str fresh) turn.1))
        ≡ ok (obj message ∷ []))
      × Recalls text (get "reasoning_content" (first_message raw)) message
prior_turn-create_response new_id fresh str_of request raw text cs store nonempty content called =
    let (message, same, recalls) =
      prior_message-Recalls text (get "reasoning_content" (first_message raw)) in
    (
      message,
      prior_turn-stored new_id fresh str_of request raw text cs store nonempty content called
          ∙ ap (λ m. ok (m ∷ [])) same,
      recalls,
    )
