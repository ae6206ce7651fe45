-- ===== src/Responses/Incremental/Texts.antt =====
-- The events of `replay_incremental` and the text that they carry.
use mathlib.Core.List.{append_assoc, append-nil}
use reverso_llm.Prelude.{
  String, List, [], ◌∷◌, ◌++◌, if◌then◌else◌, ◌≡◌, refl, sym, ap, ◌∙◌, arith, Bool-cases, inl, inr,
}
use reverso_llm.Json.{
  Json, null, bool, int, real, str, arr, obj, Items, nil, cons, Fields, get, truthy,
}
use reverso_llm.Outcome.{ok, bind_inversion}
use reverso_llm.Sse.{SseEvent}
use reverso_llm.Responses.Store.{ResponseEnvelope}
use reverso_llm.Responses.Generator.{done, yields, events, events-yield_all}
use reverso_llm.Responses.Replay.{item_steps, completed}
use reverso_llm.Responses.Incremental.{
  ReplayState, Ending, Finalize, initial, absorb, absorb_call, absorb_calls, calls_of, join, settle,
  closing, extra_items, full_reasoning, replay_incremental,
}
use reverso_llm.Responses.Incremental.Deltas.{
  consumed, texts, absorbed, outcome, finalized, sent, rest, steps-yield_all,
}

text_parts-absorb_calls :
    (calls : Items) (s : ReplayState) → (absorb_calls calls s).text_parts ≡ s.text_parts
unfolding absorb_calls absorb_call
text_parts-absorb_calls nil s = refl
text_parts-absorb_calls (cons (obj raw_call) calls) s =
    text_parts-absorb_calls calls (absorb_call raw_call s)
text_parts-absorb_calls (cons null calls) s = text_parts-absorb_calls calls s
text_parts-absorb_calls (cons (bool _) calls) s = text_parts-absorb_calls calls s
text_parts-absorb_calls (cons (int _) calls) s = text_parts-absorb_calls calls s
text_parts-absorb_calls (cons (real _ _) calls) s = text_parts-absorb_calls calls s
text_parts-absorb_calls (cons (str _) calls) s = text_parts-absorb_calls calls s
text_parts-absorb_calls (cons (arr _) calls) s = text_parts-absorb_calls calls s

text_parts-absorb :
    (chunk : Fields) (s : ReplayState)
    → (absorb chunk s).text_parts
      ≡ (if truthy (get "text" chunk) then s.text_parts ++ get "text" chunk ∷ [] else s.text_parts)
unfolding absorb
text_parts-absorb chunk s = elim (Bool-cases (truthy (get "reasoning_text" chunk))) [
  | inl r ↦ rw r (
      ground (
        arith,
        text_parts-absorb_calls (calls_of (get "tool_calls" chunk))
            (record s { reasoning_parts = s.reasoning_parts ++ get "reasoning_text" chunk ∷ [] }),
      ))
  | inr r ↦ rw r (ground (arith, text_parts-absorb_calls (calls_of (get "tool_calls" chunk)) s))
]

text_parts-absorbed :
    (chunks : List Fields) (s : ReplayState)
    → (absorbed chunks s).text_parts ≡ s.text_parts ++ texts chunks
unfolding absorbed texts
text_parts-absorbed [] s = sym (append-nil s.text_parts)
text_parts-absorbed (chunk ∷ chunks) s =
    text_parts-absorbed chunks (absorb chunk s)
    ∙ ap (λ parts. parts ++ texts chunks) (text_parts-absorb chunk s)
    ∙ split
  where
    split :
        (if truthy (get "text" chunk) then s.text_parts ++ get "text" chunk ∷ [] else s.text_parts)
          ++ texts chunks
        ≡ s.text_parts
          ++ (if truthy (get "text" chunk) then get "text" chunk ∷ texts chunks else texts chunks)
    split = elim (Bool-cases (truthy (get "text" chunk))) [
      | inl t ↦ rw t (append_assoc s.text_parts (get "text" chunk ∷ []) (texts chunks))
      | inr t ↦ rw t refl
    ]

-- What follows the message: the events of the other output items, and response.completed.
abbrev pub last_events : ResponseEnvelope → List SseEvent
last_events envelope =
    events (item_steps 1 (extra_items envelope.output) (yields (completed envelope) done))

events-settle :
    (finalize : Finalize) (message_id : String) (input_items : List Json) (s : ReplayState)
    (envelope : ResponseEnvelope)
    → finalized finalize s ≡ ok envelope
    → (full : String) × (join s.text_parts ≡ ok full)
      × (events (settle finalize message_id input_items s)
          ≡ closing message_id full envelope ++ last_events envelope)
unfolding finalized settle events
events-settle finalize message_id input_items s envelope h =
    let (full, t, h') = bind_inversion (join s.text_parts) _ h in
    let (reasoning, r, built) = bind_inversion (full_reasoning s.reasoning_parts) _ h' in
    (full, t, rw (t, r, built) (events-yield_all (closing message_id full envelope) _))

module _ (chunks : List Fields) (ending : Ending) (response_id message_id model : String)
    (input_items : List Json) (finalize : Finalize) where
  -- If the upstream comes to an end and finalizing gives an envelope, then the client gets the opening
  -- events, a delta for every non-empty text up to the first chunk that says it is done, the closing
  -- events with exactly the deltas' texts joined, the events of the envelope's further items, and
  -- response.completed.
  pub events-replay_incremental :
      (envelope : ResponseEnvelope)
      → outcome chunks ending ≡ ok tt
      → finalized finalize (absorbed (consumed chunks) initial) ≡ ok envelope
      → (full : String) × (join (texts (consumed chunks)) ≡ ok full)
        × (events
              (replay_incremental chunks ending response_id message_id model input_items finalize)
            ≡ sent chunks ending response_id message_id model input_items finalize
              ++ (closing message_id full envelope ++ last_events envelope))
  events-replay_incremental envelope o h = go (
      events-settle finalize message_id input_items (absorbed (consumed chunks) initial) envelope h)
    where
      go :
          (full : String) × (join (absorbed (consumed chunks) initial).text_parts ≡ ok full)
            × (events (settle finalize message_id input_items (absorbed (consumed chunks) initial))
                ≡ closing message_id full envelope ++ last_events envelope)
          → (full : String) × (join (texts (consumed chunks)) ≡ ok full)
            × (events (
                  replay_incremental chunks ending response_id message_id model input_items
                    finalize)
                ≡ sent chunks ending response_id message_id model input_items finalize
                  ++ (closing message_id full envelope ++ last_events envelope))
      go (full, t, e) = (
        full,
        ap join (sym (text_parts-absorbed (consumed chunks) initial)) ∙ t,
        rw
            (
              steps-yield_all chunks ending response_id message_id model input_items finalize,
              events-yield_all
                  (sent chunks ending response_id message_id model input_items finalize)
                  (rest chunks ending response_id message_id model input_items finalize),
              o,
              e,
            )
            refl,
      )
