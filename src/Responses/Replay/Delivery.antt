-- ===== src/Responses/Replay/Delivery.antt =====
-- What a replayed turn leaves in the store, and which events it sends.
use reverso_llm.Prelude.{
  ℕ, zero, suc, String, some, List, [], ◌∷◌, ◌≡◌, refl, if◌then◌else◌, ◌==◌, text_key,
}
use reverso_llm.Json.{Json, Fields}
use reverso_llm.Outcome.{Outcome, ok, raised}
use reverso_llm.Sse.{SseEvent}
use reverso_llm.Responses.Store.{
  ResponseEnvelope, ResponseStore, put_response, get_response, get_input_items,
  get_response-put_response, get_input_items-put_response,
}
use reverso_llm.Responses.Generator.{Steps, done, yields, yield_all, call, drain}
use reverso_llm.Responses.Replay.{completed, item_events, item_steps, replay_turn}

-- A generator that writes nothing.
abbrev pub IsQuiet : Steps → Type 0
IsQuiet k = (n : ℕ) (store : ResponseStore) → drain n k store ≡ store

pub IsQuiet-yield_all : (es : List SseEvent) (k : Steps) → IsQuiet k → IsQuiet (yield_all es k)
unfolding drain
IsQuiet-yield_all [] k h n store = h n store
IsQuiet-yield_all (e ∷ es) k h zero store = refl
IsQuiet-yield_all (e ∷ es) k h (suc n) store = IsQuiet-yield_all es k h n store

pub IsQuiet-call :
    (r : Outcome (List SseEvent)) (k : Steps) → IsQuiet k → IsQuiet (call r (λ es. yield_all es k))
unfolding drain
IsQuiet-call (ok es) k h n store = IsQuiet-yield_all es k h n store
IsQuiet-call (raised x) k h zero store = refl
IsQuiet-call (raised x) k h (suc n) store = refl

pub IsQuiet-item_steps :
    (index : ℕ) (items : List Fields) (k : Steps) → IsQuiet k → IsQuiet (item_steps index items k)
unfolding item_steps
IsQuiet-item_steps index [] k h = h
IsQuiet-item_steps index (item ∷ rest) k h =
    IsQuiet-call (item_events item index) _ (IsQuiet-item_steps (suc index) rest k h)

pub IsQuiet-done : IsQuiet done
unfolding drain
IsQuiet-done zero store = refl
IsQuiet-done (suc n) store = refl

drain-replay_turn :
    (envelope : ResponseEnvelope) (input_items : List Json) (store : ResponseStore) (n : ℕ)
    → drain (suc n) (replay_turn envelope input_items) store
      ≡ put_response envelope (some input_items) store
unfolding drain replay_turn
drain-replay_turn envelope input_items store zero = refl
drain-replay_turn envelope input_items store (suc zero) = refl
drain-replay_turn envelope input_items store (suc (suc n)) =
    IsQuiet-item_steps 0 envelope.output (yields (completed envelope) done)
      (IsQuiet-yield_all (completed envelope ∷ []) done IsQuiet-done) (suc n)
      (put_response envelope (some input_items) store)

-- Store before drain: whenever the client disconnects, after one event or more, and whatever the
-- output items are, the turn and its input items are in the store under the turn's id, and all
-- other ids answer as before. A client that disconnects before the first event changes nothing.
pub replay_turn-stores_first :
    (envelope : ResponseEnvelope) (input_items : List Json) (store : ResponseStore) (n : ℕ)
    (id : String)
    → (get_response id (drain (suc n) (replay_turn envelope input_items) store)
        ≡ (if envelope.id == id then some envelope else get_response id store))
      × (get_input_items id (drain (suc n) (replay_turn envelope input_items) store) ≡ (
          if envelope.id == id
          then some (record { response_id = id; items = input_items })
          else get_input_items id store))
      × (drain 0 (replay_turn envelope input_items) store ≡ store)
unfolding drain
replay_turn-stores_first envelope input_items store n id = (
  rw (drain-replay_turn envelope input_items store n)
      (get_response-put_response envelope (some input_items) store id),
  rw (drain-replay_turn envelope input_items store n)
      (get_input_items-put_response envelope input_items store id),
  refl,
)
