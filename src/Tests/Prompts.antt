-- ===== src/Tests/Prompts.antt =====
-- Inputs and what is recorded of them.
use reverso_llm.Prelude.{String, ◌≡◌}
use reverso_llm.Json.{Json, str, arr, nil, cons, items, obj, field, end}
use reverso_llm.Responses.Prompts.{record_input_items, record_input_items-record_input_items}

abbrev str_of : Json → String
str_of v = "None"

abbrev mixed : Json
mixed = arr (cons (str "loose") (cons (obj (field "content" (str "kept") end)) nil))

recorded_again :
    record_input_items str_of (arr (items (record_input_items str_of mixed)))
    ≡ record_input_items str_of mixed
recorded_again = record_input_items-record_input_items str_of mixed
