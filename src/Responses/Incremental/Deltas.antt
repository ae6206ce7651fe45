-- ===== src/Responses/Incremental/Deltas.antt =====
-- What `replay_incremental` sends and when it stores.
use reverso_llm.Prelude.{
  ℕ, zero, suc, ◌+◌, ◌≤◌, String, Option, some, List, [], ◌∷◌, ◌++◌, if◌then◌else◌, ◌≡◌, refl, ap,
  ◌∙◌, length, map, arith, Bool-cases, inl, inr,
}
use reverso_llm.Json.{Json, Fields, get, truthy}
use reverso_llm.Outcome.{Outcome, ok, raised, ◌>>=◌}
use reverso_llm.Sse.{SseEvent}
use reverso_llm.Responses.Store.{ResponseEnvelope, ResponseStore, put_response}
use reverso_llm.Responses.Generator.{Steps, done, yields, stores, yield_all, call, drain}
use reverso_llm.Responses.Replay.{item_steps, completed}
use reverso_llm.Responses.Replay.Delivery.{IsQuiet-yield_all, IsQuiet-item_steps, IsQuiet-done}
use reverso_llm.Responses.Incremental.{
  ReplayState, Ending, stops, breaks_off, Finalize, initial, absorb, join, loop, settle,
  delta_event, opening, closing, extra_items, full_reasoning, accumulated_tool_calls,
  replay_incremental,
}

-- The chunks up to the first that says it is done.
unfoldable pub consumed : List Fields → List Fields
consumed [] = []
consumed (chunk ∷ chunks) =
    let rest = consumed chunks in if truthy (get "done" chunk) then chunk ∷ [] else chunk ∷ rest

-- The texts that chunks carry, without the empty ones.
unfoldable pub texts : List Fields → List Json
texts [] = []
texts (chunk ∷ chunks) =
    if truthy (get "text" chunk) then get "text" chunk ∷ texts chunks else texts chunks

-- The buffers behind chunks.
unfoldable pub absorbed : List Fields → ReplayState → ReplayState
absorbed [] s = s
absorbed (chunk ∷ chunks) s = absorbed chunks (absorb chunk s)

-- Whether the loop comes to an end: some chunk says that it is done, or the upstream stops.
unfoldable pub outcome : List Fields → Ending → Outcome (Unit {0})
outcome [] stops = ok tt
outcome [] (breaks_off x) = raised x
outcome (chunk ∷ chunks) ending =
    let rest = outcome chunks ending in if truthy (get "done" chunk) then ok tt else rest

module _ (message_id : String) (after : ReplayState → Steps) where
  loop-yield_all :
      (chunks : List Fields) (ending : Ending) (s : ReplayState)
      → loop message_id after chunks ending s
        ≡ yield_all
            (map (delta_event message_id) (texts (consumed chunks)))
            (call (outcome chunks ending) (λ _. after (absorbed (consumed chunks) s)))
  unfolding loop texts consumed outcome absorbed
  loop-yield_all [] stops s = refl
  loop-yield_all [] (breaks_off x) s = refl
  loop-yield_all (chunk ∷ chunks) ending s = elim (Bool-cases (truthy (get "done" chunk))) [
    | inl d ↦ elim (Bool-cases (truthy (get "text" chunk))) [
      | inl t ↦ rw (d, t) refl
      | inr t ↦ rw (d, t) refl
    ]
    | inr d ↦ elim (Bool-cases (truthy (get "text" chunk))) [
      | inl t ↦
          rw (d, t)
            (ap (yields (delta_event message_id (get "text" chunk)))
              (loop-yield_all chunks ending (absorb chunk s)))
      | inr t ↦ rw (d, t) (loop-yield_all chunks ending (absorb chunk s))
    ]
  ]

-- Yielding changes nothing, until what follows is reached.
drain_early :
    (es : List SseEvent) (k : Steps) (n : ℕ) (store : ResponseStore)
    → n ≤ length es
    → drain n (yield_all es k) store ≡ store
unfolding drain
drain_early es k zero store h = refl
drain_early [] k (suc n) store h = absurd (omega arith)
drain_early (e ∷ es) k (suc n) store h = drain_early es k n store (omega arith)

drain_late :
    (es : List SseEvent) (k : Steps) (n m : ℕ) (store : ResponseStore)
    → m ≡ length es + n
    → drain (suc m) (yield_all es k) store ≡ drain (suc n) k store
unfolding drain
drain_late [] k n m store h = ap (λ (i : ℕ). drain (suc i) k store) (omega arith)
drain_late (e ∷ es) k n zero store h = absurd (omega arith)
drain_late (e ∷ es) k n (suc m) store h = drain_late es k n m store (omega arith)

length-map : {A B : Type 0} (f : A → B) (xs : List A) → length (map f xs) ≡ length xs
length-map f [] = refl
length-map f (x ∷ xs) = ap suc (length-map f xs)

append-yield_all :
    (es fs : List SseEvent) (k : Steps) → yield_all es (yield_all fs k) ≡ yield_all (es ++ fs) k
append-yield_all [] fs k = refl
append-yield_all (e ∷ es) fs k = ap (yields e) (append-yield_all es fs k)

-- The envelope that is built from the buffers.
unfoldable pub finalized : Finalize → ReplayState → Outcome ResponseEnvelope
finalized finalize s = do
  full_text ← join s.text_parts
  reasoning ← full_reasoning s.reasoning_parts
  finalize full_text reasoning s.usage (accumulated_tool_calls s.tool_calls_buffer)

abbrev pub stored : Outcome ResponseEnvelope → List Json → ResponseStore → ResponseStore
stored (ok envelope) input_items store = put_response envelope (some input_items) store
stored (raised x) input_items store = store

drain-settle :
    (finalize : Finalize) (message_id : String) (input_items : List Json) (s : ReplayState) (n : ℕ)
    (store : ResponseStore)
    → drain (suc n) (settle finalize message_id input_items s) store
      ≡ stored (finalized finalize s) input_items store
unfolding settle finalized drain
drain-settle finalize message_id input_items s n store =
    go (join s.text_parts) (full_reasoning s.reasoning_parts)
  where
    last :
        (text : String) (o : Outcome ResponseEnvelope)
        → drain
            (suc n)
            (call o (λ envelope. stores envelope (some input_items) (
              yield_all
                (closing message_id text envelope)
                (item_steps 1 (extra_items envelope.output) (yields (completed envelope) done)))))
            store
          ≡ stored o input_items store
    last text (raised x) = refl
    last text (ok envelope) =
        IsQuiet-yield_all (closing message_id text envelope) _
          (IsQuiet-item_steps 1 (extra_items envelope.output) _
            (IsQuiet-yield_all (completed envelope ∷ []) done IsQuiet-done))
          (suc n) (put_response envelope (some input_items) store)

    go :
        (t : Outcome String) (r : Outcome (Option String))
        → drain
            (suc n)
            (call t (λ full_text. call r (λ reasoning.
              call
                (finalize full_text reasoning s.usage (accumulated_tool_calls s.tool_calls_buffer))
                (λ envelope. stores envelope (some input_items) (
                  yield_all (closing message_id full_text envelope) (
                    item_steps 1
                      (extra_items envelope.output)
                      (yields (completed envelope) done)))))))
            store
          ≡ stored
              (t >>= (λ full_text. r >>= (λ reasoning.
                finalize full_text reasoning s.usage (accumulated_tool_calls s.tool_calls_buffer))))
              input_items
              store
    go (raised x) r = refl
    go (ok text) (raised x) = refl
    go (ok text) (ok reasoning) =
        last text (finalize text reasoning s.usage (accumulated_tool_calls s.tool_calls_buffer))

module _ (chunks : List Fields) (ending : Ending) (response_id message_id model : String)
    (input_items : List Json) (finalize : Finalize) where
  abbrev pub steps : Steps
  steps = replay_incremental chunks ending response_id message_id model input_items finalize

  -- The four opening events and the deltas.
  abbrev pub sent : List SseEvent
  sent =
      opening response_id message_id model ++ map (delta_event message_id) (texts (consumed chunks))

  abbrev pub rest : Steps
  rest =
      call (outcome chunks ending)
        (λ _. settle finalize message_id input_items (absorbed (consumed chunks) initial))

  pub steps-yield_all : steps ≡ yield_all sent rest
  unfolding replay_incremental
  steps-yield_all =
      ap (yield_all (opening response_id message_id model))
        (loop-yield_all message_id (settle finalize message_id input_items) chunks ending initial)
      ∙ append-yield_all (opening response_id message_id model) _ _

  length-sent : length sent ≡ 4 + length (texts (consumed chunks))
  unfolding opening
  length-sent = omega (arith, length-map (delta_event message_id) (texts (consumed chunks)))

  rest-stored :
      (n : ℕ) (store : ResponseStore)
      → drain (suc n) rest store
        ≡ stored
            (outcome chunks ending
              >>= (λ _. finalized finalize (absorbed (consumed chunks) initial)))
            input_items
            store
  unfolding drain
  rest-stored n store = go (outcome chunks ending)
    where
      go :
          (o : Outcome (Unit {0}))
          → drain
              (suc n)
              (call o
                (λ _. settle finalize message_id input_items (absorbed (consumed chunks) initial)))
              store
            ≡ stored
                (o >>= (λ _. finalized finalize (absorbed (consumed chunks) initial)))
                input_items
                store
      go (raised x) = refl
      go (ok _) =
          drain-settle finalize message_id input_items (absorbed (consumed chunks) initial) n store

  -- A client that disconnects after the four opening events and the deltas, or before, finds nothing
  -- in the store; one that asks for any event more finds the finalized envelope and the input items
  -- there, if the upstream came to an end and finalizing did not raise, and else nothing.
  pub replay_incremental-stores_last :
      (n m : ℕ) (store : ResponseStore)
      → n ≤ 4 + length (texts (consumed chunks))
      → (drain n steps store ≡ store)
        × (drain (suc (4 + length (texts (consumed chunks)) + m)) steps store
            ≡ stored
                (outcome chunks ending
                  >>= (λ _. finalized finalize (absorbed (consumed chunks) initial)))
                input_items
                store)
  replay_incremental-stores_last n m store h = (
    rw steps-yield_all (drain_early sent rest n store (omega (arith, length-sent))),
    rw steps-yield_all (
        drain_late sent rest m (4 + length (texts (consumed chunks)) + m) store
          (omega (arith, length-sent))
        ∙ rest-stored m store),
  )
