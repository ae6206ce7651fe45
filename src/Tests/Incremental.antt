-- ===== src/Tests/Incremental.antt =====
-- A turn that is streamed in two texts around two interleaved tool calls.
use reverso_llm.Prelude.{
  ℕ, ◌+◌, suc, String, true, none, List, [], ◌∷◌, ◌++◌, ◌≡◌, refl, length, arith,
}
use reverso_llm.Prelude.Int.{pos, int_key}
use reverso_llm.Prelude.Dict
use reverso_llm.Json.{
  Json, null, bool, int, str, arr, obj, Items, nil, cons, Fields, end, field, get,
}
use reverso_llm.Outcome.{ok, ◌>>=◌}
use reverso_llm.Responses.Store.{ResponseEnvelope, empty}
use reverso_llm.Responses.Generator.{drain, events}
use reverso_llm.Responses.Replay.{message_item}
use reverso_llm.Responses.Incremental.{
  stops, Finalize, initial, absorb, absorb_call, absorb_calls, full_reasoning, by_index, insert,
  merge, with_function, join, closing, replay_incremental,
}
use reverso_llm.Responses.Incremental.Calls.{IsPlaced, assembled, deltas_of, absorb_calls-assembled}
use reverso_llm.Responses.Incremental.Deltas.{
  texts, consumed, absorbed, outcome, finalized, stored, sent, steps,
  replay_incremental-stores_last,
}
use reverso_llm.Responses.Incremental.Texts.{last_events, events-replay_incremental}

abbrev delta : ℕ → String → Json
delta index arguments = obj (
    field "index" (int (pos index))
      (field "function" (obj (field "arguments" (str arguments) end)) end))

abbrev interleaved : Items
interleaved = cons (delta 0 "{") (cons (delta 1 "[") (cons (delta 0 "}") (cons (delta 1 "]") nil)))

abbrev chunks : List Fields
chunks =
    field "text" (str "Hel") end
    ∷ field "text" (str "lo") (field "tool_calls" (arr interleaved) (field "done" (bool true) end))
    ∷ field "text" (str "lost") end
    ∷ []

abbrev finalize : Finalize
finalize text reasoning usage tool_calls = ok (record {
  id = "resp_1";
  model = "m";
  output = message_item "msg_1" text ∷ [];
  status = "completed";
  usage = usage;
  previous_response_id = null;
  raw = end;
})

abbrev envelope : ResponseEnvelope
envelope = record {
  id = "resp_1";
  model = "m";
  output = message_item "msg_1" "Hello" ∷ [];
  status = "completed";
  usage = null;
  previous_response_id = null;
  raw = end;
}

replay_incremental-stores_last_example :
    (drain 6 (steps chunks stops "resp_1" "msg_1" "m" [] finalize) empty ≡ empty)
    × (drain
          (suc (4 + length (texts (consumed chunks)) + 2))
          (steps chunks stops "resp_1" "msg_1" "m" [] finalize)
          empty
        ≡ stored
            (outcome chunks stops
              >>= (λ _. finalized finalize (absorbed (consumed chunks) initial)))
            []
            empty)
unfolding consumed texts get
replay_incremental-stores_last_example =
    replay_incremental-stores_last chunks stops "resp_1" "msg_1" "m" [] finalize 6 2 empty
      (omega arith)

absorb_calls-assembled_example :
    Dict.get (pos 1) (absorb_calls interleaved initial).tool_calls_buffer
    ≡ assembled (deltas_of (pos 1) none interleaved) (Dict.get (pos 1) initial.tool_calls_buffer)
unfolding IsPlaced get
absorb_calls-assembled_example =
    absorb_calls-assembled (pos 1) interleaved initial
      ((pos 0, refl), ((pos 1, refl), ((pos 0, refl), ((pos 1, refl), tt))))

events-replay_incremental_example :
    (full : String) × (join (texts (consumed chunks)) ≡ ok full)
    × (events (replay_incremental chunks stops "resp_1" "msg_1" "m" [] finalize)
        ≡ sent chunks stops "resp_1" "msg_1" "m" [] finalize
          ++ (closing "msg_1" full envelope ++ last_events envelope))
unfolding outcome consumed absorbed absorb absorb_calls absorb_call finalized join full_reasoning
    get by_index insert merge with_function message_item
events-replay_incremental_example =
    events-replay_incremental chunks stops "resp_1" "msg_1" "m" [] finalize envelope refl refl
