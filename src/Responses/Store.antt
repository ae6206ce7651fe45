-- ===== src/Responses/Store.antt =====
-- `ResponseEnvelope` of reverso/protocols/adapter.py and `ResponseStore` of store.py. Each method of
-- the store runs under its lock, so a call is one step from a store to the next.
use reverso_llm.Prelude.{
  String, Option, none, some, List, [], ◌≡◌, arith, if◌then◌else◌, ◌==◌, text_key,
}
use reverso_llm.Prelude.Dict
use reverso_llm.Prelude.Dict.{Dict, get-put, key_refl}
use reverso_llm.Json.{Json, Fields}

pub record ResponseEnvelope : Type 0 where
  pub id : String
  pub model : String
  pub output : List Fields
  pub status : String
  pub usage : Json
  pub previous_response_id : Json
  pub raw : Fields

pub record InputItemList : Type 0 where
  pub response_id : String
  pub items : List Json

pub record ResponseStore : Type 0 where
  pub responses : Dict String ResponseEnvelope
  pub input_items : Dict String (List Json)

-- also what `clear` leaves
abbrev pub empty : ResponseStore
empty = record { responses = []; input_items = [] }

put_items : String → Option (List Json) → Dict String (List Json) → Dict String (List Json)
put_items id none d = d
put_items id (some items) d = Dict.put id items d

unfoldable pub put_response : ResponseEnvelope → Option (List Json) → ResponseStore → ResponseStore
unfolding put_items
put_response envelope items store = record {
  responses = Dict.put envelope.id envelope store.responses;
  input_items = put_items envelope.id items store.input_items;
}

unfoldable pub get_response : String → ResponseStore → Option ResponseEnvelope
get_response id store = Dict.get id store.responses

or_empty : Option (List Json) → List Json
or_empty none = []
or_empty (some items) = items

unfoldable pub get_input_items : String → ResponseStore → Option InputItemList
unfolding or_empty
get_input_items id store = elim (Dict.get id store.responses) [
  | none ↦ none
  | some _ ↦ some (record { response_id = id; items = or_empty (Dict.get id store.input_items) })
]

-- A stored envelope is found under its own id, and no other id's envelope changes.
pub get_response-put_response :
    (envelope : ResponseEnvelope) (items : Option (List Json)) (store : ResponseStore) (id : String)
    → get_response id (put_response envelope items store)
      ≡ (if envelope.id == id then some envelope else get_response id store)
unfolding get_response put_response
get_response-put_response envelope items store id = get-put envelope.id id envelope store.responses

-- With recorded input items, the list of a stored response is those items; every other response
-- keeps its list.
pub get_input_items-put_response :
    (envelope : ResponseEnvelope) (items : List Json) (store : ResponseStore) (id : String)
    → get_input_items id (put_response envelope (some items) store) ≡ (
        if envelope.id == id
        then some (record { response_id = id; items = items })
        else get_input_items id store)
unfolding get_input_items put_response
get_input_items-put_response envelope items store id = ground (
  arith,
  get-put envelope.id id envelope store.responses,
  get-put envelope.id id items store.input_items,
)
