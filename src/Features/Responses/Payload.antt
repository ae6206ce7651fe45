-- ===== src/Features/Responses/Payload.antt =====
-- What `ResponsesRequest.from_payload` keeps of a payload.
use reverso_llm.Prelude.{
  String, Bool, true, false, ◌||◌, if◌then◌else◌, ◌≡◌, refl, arith, contains, text_key, ◌==◌,
  Bool-cases, inl, inr,
}
use reverso_llm.Json.{Json, null, bool, str, Fields, end, field, get, has, truthy}
use reverso_llm.Features.Responses.{ResponsesRequest, known, unknown_fields, from_payload}

contains-at : (j k : String) → (j == k) ≡ true → contains j known ≡ contains k known
contains-at j k e = rw ((text_key.same_iff j k).0 e) refl

-- A request's extra under a key.
extra-from_payload :
    (k : String) (payload : Fields)
    → (get k (from_payload payload).extra ≡ (if contains k known then null else get k payload))
      × (has k (from_payload payload).extra ≡ (if contains k known then false else has k payload))
unfolding from_payload get has unknown_fields
extra-from_payload k end = (ground arith, ground arith)
extra-from_payload k (field j v fs) = (
  ground (arith, contains-at j k, (extra-from_payload k fs).0),
  ground (arith, contains-at j k, (extra-from_payload k fs).1),
)

-- What a request holds under a key of a payload: the field of that name, and else its extra.
abbrev pub lookup : String → ResponsesRequest → Json
lookup k r =
    if "model" == k
    then r.model
    else if "input" == k
    then r.input
    else if "stream" == k
    then bool r.stream
    else if "previous_response_id" == k
    then r.previous_response_id
    else if "tools" == k
    then r.tools
    else if "instructions" == k
    then r.instructions
    else if "tool_choice" == k
    then r.tool_choice
    else get k r.extra

-- What is to be read there: the payload's value, but that a missing model is empty, and that only the
-- truth of stream is kept.
abbrev pub expected : String → Fields → Json
expected k payload =
    if "stream" == k
    then bool (truthy (get k payload))
    else if "model" == k
    then (if has k payload then get k payload else str "")
    else get k payload

abbrev pub is_field : String → Bool
is_field k =
    "model" == k
    || "input" == k
    || "stream" == k
    || "previous_response_id" == k
    || "tools" == k
    || "instructions" == k
    || "tool_choice" == k

held : (k : String) (payload : Fields) → lookup k (from_payload payload) ≡ expected k payload
unfolding from_payload contains
held k payload = elim (Bool-cases ("model" == k)) [
  | inl e0 ↦ rw (← ((text_key.same_iff "model" k).0 e0)) refl
  | inr e0 ↦ elim (Bool-cases ("input" == k)) [
    | inl e1 ↦ rw (← ((text_key.same_iff "input" k).0 e1)) refl
    | inr e1 ↦ elim (Bool-cases ("stream" == k)) [
      | inl e2 ↦ rw (← ((text_key.same_iff "stream" k).0 e2)) refl
      | inr e2 ↦ elim (Bool-cases ("previous_response_id" == k)) [
        | inl e3 ↦ rw (← ((text_key.same_iff "previous_response_id" k).0 e3)) refl
        | inr e3 ↦ elim (Bool-cases ("tools" == k)) [
          | inl e4 ↦ rw (← ((text_key.same_iff "tools" k).0 e4)) refl
          | inr e4 ↦ elim (Bool-cases ("instructions" == k)) [
            | inl e5 ↦ rw (← ((text_key.same_iff "instructions" k).0 e5)) refl
            | inr e5 ↦ elim (Bool-cases ("tool_choice" == k)) [
              | inl e6 ↦ rw (← ((text_key.same_iff "tool_choice" k).0 e6)) refl
              | inr e6 ↦
                  rw
                    (
                      e0,
                      e1,
                      e2,
                      e3,
                      e4,
                      e5,
                      e6,
                      (extra-from_payload k payload).0,
                      e0,
                      e1,
                      e2,
                      e3,
                      e4,
                      e5,
                      e6,
                    )
                    refl
            ]
          ]
        ]
      ]
    ]
  ]
]

extra_keys :
    (k : String) (payload : Fields)
    → has k (from_payload payload).extra ≡ (if is_field k then false else has k payload)
unfolding contains
extra_keys k payload = rw (extra-from_payload k payload).1 (ground arith)

-- No field of a payload is lost and none is kept twice: under every key the request holds what the
-- payload does, in its field of that name or else in its extra, but that a missing model is read as empty
-- and that only the truth of stream is kept; and its extra holds exactly those keys of the payload that
-- the request has no field for.
pub lookup-from_payload :
    (k : String) (payload : Fields)
    → (lookup k (from_payload payload) ≡ expected k payload)
      × (has k (from_payload payload).extra ≡ (if is_field k then false else has k payload))
lookup-from_payload k payload = (held k payload, extra_keys k payload)
