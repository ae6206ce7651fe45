-- ===== src/Anthropic/Replies/Agreement.antt =====
-- The two ways of a turn to an Anthropic client: anthropic_translate.py for a buffered reply,
-- anthropic_stream.py for a streamed one.
use Prim.Native.String
use mathlib.Core.List.{append-nil}
use package.text.Mathlib.TextLemmas.{nil-append}
use reverso_llm.Prelude.{
  ℕ, suc, String, Option, List, [], ◌∷◌, ◌++◌, ◌≡◌, refl, arith, map, if◌then◌else◌, text_key, any,
}
use reverso_llm.Json.{Json, str, Fields, end, field, get, has, truthy}
use reverso_llm.Outcome.{Outcome, ok, ◌>>=◌}
use reverso_llm.Responses.Store.{ResponseEnvelope}
use reverso_llm.Responses.Generator.{events}
use reverso_llm.Responses.Replay.{message_item, replay_turn}
use reverso_llm.Responses.Replay.Turns.{TurnItem, says, calls, render}
use reverso_llm.Anthropic.Stream.{
  AnthropicEvent, message_start, ping, text_start, tool_start, text_delta, input_json_delta,
  block_stop, message_delta, message_stop, error, exhausted, responses_sse_to_anthropic,
}
use reverso_llm.Anthropic.Stream.Replayed.{blocks, reason, replayed-blocks}
use reverso_llm.Anthropic.Replies.{
  AnthropicMessage, text_block, part_blocks, parse_arguments, tool_use_block,
  output_to_content_blocks, stop_reason_from_output, responses_envelope_to_anthropic,
}

-- The block that a client is receiving.
pub data Receiving : Type 0 where
  closed : Receiving
  text : String → Receiving
  tool : (id name : Json) → String → Receiving

abbrev with_delta : String → Receiving → Receiving
with_delta delta closed = closed
with_delta delta (text s) = text (String.◌++◌ s delta)
with_delta delta (tool id name s) = tool id name (String.◌++◌ s delta)

module _ (loads : String → Option Json) where
  -- A block at its stop. A text block without a text is passed over.
  abbrev received_block : Receiving → List Fields
  received_block closed = []
  received_block (text s) = if truthy (str s) then text_block s ∷ [] else []
  received_block (tool id name s) =
      field "type" (str "tool_use")
        (field "id" id (field "name" name (field "input" (parse_arguments loads (str s)) end)))
      ∷ []

  -- The blocks of a stream, as a client puts its deltas together.
  pub received : Receiving → List AnthropicEvent → List Fields
  received now [] = []
  received now (text_start _ ∷ es) = received (text "") es
  received now (tool_start _ id name ∷ es) = received (tool id name "") es
  received now (text_delta _ delta ∷ es) = received (with_delta delta now) es
  received now (input_json_delta _ delta ∷ es) = received (with_delta delta now) es
  received now (block_stop _ ∷ es) = received_block now ++ received closed es
  received now (message_start _ _ ∷ es) = received now es
  received now (ping ∷ es) = received now es
  received now (message_delta _ _ ∷ es) = received now es
  received now (message_stop ∷ es) = received now es
  received now (error _ ∷ es) = received now es

-- The stop reason that a stream gives.
pub received_reason : List AnthropicEvent → String
received_reason [] = ""
received_reason (message_delta r _ ∷ es) = r
received_reason (_ ∷ es) = received_reason es

-- The blocks and the reason.
abbrev pub received_message :
    (String → Option Json) → List AnthropicEvent → Outcome (List Fields × String)
received_message loads es = ok (received loads closed es, received_reason es)

abbrev pub message_of : AnthropicMessage → Outcome (List Fields × String)
message_of message = ok (message.content, message.stop_reason)

module _ (loads : String → Option Json) where
  abbrev item_block : TurnItem → List Fields
  item_block (says id s) = if truthy (str s) then text_block s ∷ [] else []
  item_block (calls id call_id name arguments) =
      tool_use_block loads (render (calls id call_id name arguments)) ∷ []

  abbrev turn_blocks : List TurnItem → List Fields
  turn_blocks [] = []
  turn_blocks (t ∷ ts) = item_block t ++ turn_blocks ts

  output_to_content_blocks-render :
      (ts : List TurnItem) → output_to_content_blocks loads (map render ts) ≡ ok (turn_blocks ts)
  unfolding output_to_content_blocks message_item get has part_blocks
  output_to_content_blocks-render [] = refl
  output_to_content_blocks-render (says id s ∷ ts) =
      rw (output_to_content_blocks-render ts) (ground arith)
  output_to_content_blocks-render (calls id call_id name arguments ∷ ts) =
      rw (output_to_content_blocks-render ts) refl

  received-blocks :
      (i : ℕ) (ts : List TurnItem) (rest : List AnthropicEvent)
      → received loads closed (blocks i ts rest) ≡ turn_blocks ts ++ received loads closed rest
  unfolding received get
  received-blocks i [] rest = refl
  received-blocks i (says id s ∷ ts) rest =
      ground (arith, received-blocks (suc i) ts rest, nil-append s, text_key.same_iff s "")
  received-blocks i (calls id call_id name arguments ∷ ts) rest =
      ground (
        arith,
        received-blocks (suc i) ts rest,
        nil-append arguments,
        text_key.same_iff arguments "",
      )

received_reason-blocks :
    (i : ℕ) (ts : List TurnItem) (rest : List AnthropicEvent)
    → received_reason (blocks i ts rest) ≡ received_reason rest
unfolding received_reason
received_reason-blocks i [] rest = refl
received_reason-blocks i (says id s ∷ ts) rest =
    ground (arith, received_reason-blocks (suc i) ts rest)
received_reason-blocks i (calls id call_id name arguments ∷ ts) rest =
    ground (arith, received_reason-blocks (suc i) ts rest)

stop_reason_from_output-turn_blocks :
    (loads : String → Option Json) (ts : List TurnItem)
    → stop_reason_from_output (turn_blocks loads ts) ≡ reason ts
unfolding stop_reason_from_output any get
stop_reason_from_output-turn_blocks loads [] = refl
stop_reason_from_output-turn_blocks loads (says id s ∷ ts) =
    ground (arith, stop_reason_from_output-turn_blocks loads ts)
stop_reason_from_output-turn_blocks loads (calls id call_id name arguments ∷ ts) = refl

-- A buffered turn of assistant texts and function calls gives an Anthropic client the same message
-- on both ways: the blocks that a client puts together from the deltas of the streamed turn (text
-- blocks without a text left aside) and its stop reason are the content and the stop reason of the
-- translated envelope.
pub received-replay_turn :
    (loads : String → Option Json) (model message_id : String) (envelope : ResponseEnvelope)
    (input_items : List Json) (ts : List TurnItem)
    → envelope.output ≡ map render ts
    → (responses_sse_to_anthropic model message_id
          (events (replay_turn envelope input_items))
          exhausted
        >>= received_message loads)
      ≡ (responses_envelope_to_anthropic loads envelope >>= message_of)
unfolding received received_reason responses_envelope_to_anthropic
received-replay_turn loads model message_id envelope input_items ts shape =
    rw
      (
        replayed-blocks model message_id envelope input_items ts shape,
        shape,
        output_to_content_blocks-render loads ts,
        received-blocks loads 0 ts,
        received_reason-blocks 0 ts,
        append-nil (turn_blocks loads ts),
        stop_reason_from_output-turn_blocks loads ts,
      )
      refl
