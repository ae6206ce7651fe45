-- ===== src/Responses/Replay/Turns.antt =====
-- The turns that the adapters hand to `replay_turn`: their output items, and their events.
use mathlib.Core.List.{append_assoc}
use reverso_llm.Prelude.{ℕ, suc, String, List, [], ◌∷◌, ◌++◌, ◌≡◌, refl, sym, ap, ◌∙◌, map}
use reverso_llm.Json.{Json, str, field, end, Fields, get, has, or_empty-str}
use reverso_llm.Outcome.{ok}
use reverso_llm.Sse.{SseEvent}
use reverso_llm.Responses.Store.{ResponseEnvelope}
use reverso_llm.Responses.Generator.{Steps, events, events-yield_all, yields, done}
use reverso_llm.Responses.Replay.{
  message_item, item_events, message_item_events, message_events, function_call_item_events,
  call_events, item_steps, replay_turn, created, in_progress, completed,
}

-- The output items of a buffered turn: assistant text, or a function call.
pub data TurnItem : Type 0 where
  says : (id text : String) → TurnItem
  calls : (id call_id name arguments : String) → TurnItem

abbrev pub render : TurnItem → Fields
render (says id text) = message_item id text
render (calls id call_id name arguments) = field "id" (str id) (
    field "type" (str "function_call") (
      field "status" (str "completed") (
        field "call_id" (str call_id)
          (field "name" (str name) (field "arguments" (str arguments) end)))))

abbrev pub item_list : ℕ → TurnItem → List SseEvent
item_list i (says id text) = message_events (message_item id text) i (str id) (str text)
item_list i (calls id call_id name arguments) =
    call_events (render (calls id call_id name arguments)) i (str arguments)

item_events-render : (i : ℕ) (t : TurnItem) → item_events (render t) i ≡ ok (item_list i t)
unfolding item_events message_item message_item_events function_call_item_events has get
item_events-render i (says id text) = refl
item_events-render i (calls id call_id name arguments) = rw or_empty-str

abbrev pub all_items : ℕ → List TurnItem → List SseEvent
all_items i [] = []
all_items i (t ∷ ts) = item_list i t ++ all_items (suc i) ts

events-item_steps :
    (i : ℕ) (ts : List TurnItem) (k : Steps)
    → events (item_steps i (map render ts) k) ≡ all_items i ts ++ events k
unfolding item_steps
events-item_steps i [] k = refl
events-item_steps i (t ∷ ts) k =
    rw (item_events-render i t, events-yield_all, events-item_steps (suc i) ts k)
      (sym (append_assoc (item_list i t) (all_items (suc i) ts) (events k)))

-- The events of a replayed turn: the two that open the envelope, those of each item, the last.
pub events-replay_turn :
    (envelope : ResponseEnvelope) (input_items : List Json) (ts : List TurnItem)
    → envelope.output ≡ map render ts
    → events (replay_turn envelope input_items)
      ≡ created envelope.id envelope.model
        ∷ in_progress envelope.id envelope.model
        ∷ (all_items 0 ts ++ completed envelope ∷ [])
unfolding replay_turn events
events-replay_turn envelope input_items ts shape =
    ap
      (λ out.
        created envelope.id envelope.model
        ∷ in_progress envelope.id envelope.model
        ∷ events (item_steps 0 out (yields (completed envelope) done)))
      shape
    ∙ rw (events-item_steps 0 ts (yields (completed envelope) done))

-- The event names of an item.
abbrev pub names : TurnItem → List String
names (says id text) =
    "response.output_item.added" ∷ "response.content_part.added" ∷ "response.output_text.delta"
    ∷ "response.output_text.done" ∷ "response.content_part.done" ∷ "response.output_item.done" ∷ []
names (calls id call_id name arguments) =
    "response.output_item.added" ∷ "response.function_call_arguments.delta"
    ∷ "response.function_call_arguments.done" ∷ "response.output_item.done" ∷ []

abbrev pub all_names : List TurnItem → List String
all_names [] = "response.completed" ∷ []
all_names (t ∷ ts) = names t ++ all_names ts

names-all_items :
    (envelope : ResponseEnvelope) (i : ℕ) (ts : List TurnItem)
    → map (λ (e : SseEvent). e.event) (all_items i ts ++ completed envelope ∷ []) ≡ all_names ts
unfolding message_events call_events completed
names-all_items envelope i [] = refl
names-all_items envelope i (says id text ∷ ts) =
    ap (λ l. names (says id text) ++ l) (names-all_items envelope (suc i) ts)
names-all_items envelope i (calls id call_id name arguments ∷ ts) =
    ap (λ l. names (calls id call_id name arguments) ++ l) (names-all_items envelope (suc i) ts)

-- A replayed turn of texts and calls sends response.created and response.in_progress, then six
-- events for each text and four for each call, in the order of the items, then response.completed;
-- a turn of one text sends the canonical nine.
pub replay_turn-names :
    (envelope : ResponseEnvelope) (input_items : List Json) (ts : List TurnItem)
    → envelope.output ≡ map render ts
    → map (λ (e : SseEvent). e.event) (events (replay_turn envelope input_items))
      ≡ "response.created" ∷ "response.in_progress" ∷ all_names ts
unfolding created in_progress
replay_turn-names envelope input_items ts shape =
    rw (events-replay_turn envelope input_items ts shape)
      (ap (λ l. "response.created" ∷ "response.in_progress" ∷ l) (names-all_items envelope 0 ts))
