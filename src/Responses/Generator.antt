-- ===== src/Responses/Generator.antt =====
-- An asynchronous generator that writes to a response store, as the sequence of what it does when
-- it is driven. Nothing runs before the first event is asked for, and nothing after the event at
-- which the consumer closes it.
use reverso_llm.Prelude.{ℕ, zero, suc, String, List, [], ◌∷◌, ◌++◌, Option, ◌≡◌, refl, ap}
use reverso_llm.Json.{Json}
use reverso_llm.Outcome.{Outcome, ok, raised}
use reverso_llm.Sse.{SseEvent}
use reverso_llm.Responses.Store.{ResponseEnvelope, ResponseStore, put_response}

pub data Steps : Type 0 where
  done : Steps
  raises : String → Steps
  yields : SseEvent → Steps → Steps
  stores : ResponseEnvelope → Option (List Json) → Steps → Steps

abbrev pub yield_all : List SseEvent → Steps → Steps
yield_all [] k = k
yield_all (e ∷ es) k = yields e (yield_all es k)

-- A call that may raise, and what follows it.
abbrev pub call {ℓ} : {A : Type ℓ} → Outcome A → (A → Steps) → Steps
call (ok a) k = k a
call (raised x) k = raises x

-- All that is yielded to a consumer that never closes.
unfoldable pub events : Steps → List SseEvent
events done = []
events (raises _) = []
events (yields e k) = e ∷ events k
events (stores _ _ k) = events k

-- The store once the consumer has received so many events and closed the generator.
unfoldable pub drain : ℕ → Steps → ResponseStore → ResponseStore
drain zero k store = store
drain (suc n) done store = store
drain (suc n) (raises _) store = store
drain (suc n) (yields e k) store = drain n k store
drain (suc n) (stores envelope items k) store = drain (suc n) k (put_response envelope items store)

pub events-yield_all : (es : List SseEvent) (k : Steps) → events (yield_all es k) ≡ es ++ events k
unfolding events
events-yield_all [] k = refl
events-yield_all (e ∷ es) k = ap (λ l. e ∷ l) (events-yield_all es k)
