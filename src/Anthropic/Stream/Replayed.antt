-- ===== src/Anthropic/Stream/Replayed.antt =====
-- A buffered turn on its way to an Anthropic client: the events of `replay_turn` (replay.py) through
-- the mapper of anthropic_stream.py.
use reverso_llm.Prelude.{
  ℕ, suc, String, Bool, true, false, List, [], ◌∷◌, ◌++◌, ◌≡◌, refl, ap, arith, map, if◌then◌else◌,
  ◌==◌, text_key, any,
}
use reverso_llm.Prelude.Int.{ℤ, pos, negsuc, ◌+ℤ◌}
use reverso_llm.Json.{Json, int, str, field_of, get, has, or_empty-str, elems, items}
use mathlib.Core.List.{append_assoc}
use reverso_llm.Outcome.{ok}
use reverso_llm.Sse.{SseEvent}
use reverso_llm.Responses.Store.{ResponseEnvelope}
use reverso_llm.Responses.Generator.{events}
use reverso_llm.Responses.Replay.{
  message_item, message_events, call_events, objects, replay_turn, created, in_progress, completed,
}
use reverso_llm.Responses.Replay.Turns.{
  TurnItem, says, calls, render, item_list, all_items, events-replay_turn,
}
use reverso_llm.Anthropic.Stream.{
  AnthropicEvent, message_start, ping, text_start, tool_start, text_delta, input_json_delta,
  block_stop, message_delta, message_stop, message_start_event, StreamState, init, consume,
  consume_as, event_type, drive, finish, on_output_item_added, on_text_delta, on_tool_input_delta,
  close_open_block, absorb_completion, drop_event, exhausted, has_function_call, map_stop_reason,
  message_delta_event, tokens_or, responses_sse_to_anthropic,
}

abbrev unless_empty : String → AnthropicEvent → List AnthropicEvent → List AnthropicEvent
unless_empty s e rest = (if s == "" then [] else e ∷ []) ++ rest

-- The content block of an item, numbered by its place.
abbrev pub block : ℕ → TurnItem → List AnthropicEvent → List AnthropicEvent
block i (says id text) rest =
    text_start (pos i) ∷ unless_empty text (text_delta (pos i) text) (block_stop (pos i) ∷ rest)
block i (calls id call_id name arguments) rest =
    tool_start (pos i) (str call_id) (str name)
    ∷ unless_empty arguments (input_json_delta (pos i) arguments) (block_stop (pos i) ∷ rest)

abbrev pub blocks : ℕ → List TurnItem → List AnthropicEvent → List AnthropicEvent
blocks i [] rest = rest
blocks i (t ∷ ts) rest = block i t (blocks (suc i) ts rest)

abbrev pub is_call : TurnItem → Bool
is_call (says _ _) = false
is_call (calls _ _ _ _) = true

-- `tool_use` exactly if some item is a call.
abbrev pub reason : List TurnItem → String
reason ts = if any is_call ts then "tool_use" else "end_turn"

has_function_call-render :
    (ts : List TurnItem)
    → has_function_call (elems (items (objects (map render ts)))) ≡ any is_call ts
unfolding has_function_call any get message_item
has_function_call-render [] = refl
has_function_call-render (says id text ∷ ts) = has_function_call-render ts
has_function_call-render (calls id call_id name arguments ∷ ts) = refl

next_index : (i : ℕ) → pos i +ℤ pos 1 ≡ pos (suc i)
unfolding ◌+ℤ◌
next_index i = ground arith

abbrev ready : String → String → ℤ → StreamState
ready model message_id index = record (init model message_id) { block_index = index }

module _ (model message_id : String) where
  -- The events of one item, from a state with no block open.
  drive-item :
      (t : TurnItem) (b : ℤ) (i : ℕ) (rest : List SseEvent)
      → b +ℤ pos 1 ≡ pos i
      → drive (ready model message_id b) (item_list i t ++ rest) exhausted
        ≡ block i t (drive (ready model message_id (pos i)) rest exhausted)
  unfolding drive consume consume_as event_type on_output_item_added close_open_block on_text_delta
      drop_event on_tool_input_delta message_events call_events init get message_item has
  drive-item (says id text) b i rest e = rw e refl
  drive-item (calls id call_id name arguments) b i rest e =
      rw (e, or_empty-str call_id, or_empty-str name) refl

  module _ (envelope : ResponseEnvelope) (ts : List TurnItem)
      (shape : envelope.output ≡ map render ts) where
    abbrev tokens : Json
    tokens = tokens_or (field_of "output_tokens" envelope.usage) (int (pos 0))

    drive-completed :
        (b : ℤ)
        → drive (ready model message_id b) (completed envelope ∷ []) exhausted
          ≡ message_delta (reason ts) tokens ∷ message_stop ∷ []
    unfolding drive consume consume_as event_type absorb_completion finish init get has completed
        map_stop_reason message_delta_event close_open_block
    drive-completed b = rw (shape, has_function_call-render ts)

    drive-items :
        (us : List TurnItem) (b : ℤ) (i : ℕ)
        → b +ℤ pos 1 ≡ pos i
        → drive (ready model message_id b) (all_items i us ++ completed envelope ∷ []) exhausted
          ≡ blocks i us (message_delta (reason ts) tokens ∷ message_stop ∷ [])
    drive-items [] b i e = drive-completed b
    drive-items (t ∷ us) b i e = rw append_assoc (
        rw (drive-item t b i (all_items (suc i) us ++ completed envelope ∷ []) e)
          (rw (drive-items us (pos i) (suc i) (next_index i))))

-- A buffered turn of assistant texts and function calls reaches an Anthropic client as one content
-- block for each item, in order and numbered from 0: a text block with the whole text as its one
-- delta, or a tool_use block with the call's id, name and arguments as its one delta (no delta for
-- an empty text). The stop reason is tool_use exactly if the turn holds a call, else end_turn, and
-- the output tokens are those of the envelope's usage, 0 where it has none.
pub replayed-blocks :
    (model message_id : String) (envelope : ResponseEnvelope) (input_items : List Json)
    (ts : List TurnItem)
    → envelope.output ≡ map render ts
    → responses_sse_to_anthropic model message_id
        (events (replay_turn envelope input_items))
        exhausted
      ≡ ok (
          message_start model message_id
          ∷ ping
          ∷ blocks 0 ts (
              message_delta
                (reason ts)
                (tokens_or (field_of "output_tokens" envelope.usage) (int (pos 0)))
              ∷ message_stop
              ∷ []))
unfolding responses_sse_to_anthropic drive consume consume_as event_type drop_event init created
    in_progress ◌+ℤ◌ message_start_event
replayed-blocks model message_id envelope input_items ts shape =
    rw (events-replay_turn envelope input_items ts shape) (
      ap (λ out. ok (message_start model message_id ∷ ping ∷ out))
        (drive-items model message_id envelope ts shape ts (negsuc 0) 0 refl))
