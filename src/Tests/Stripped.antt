-- ===== src/Tests/Stripped.antt =====
-- A reply with a reasoning item in front of its message.
use reverso_llm.Prelude.{String, none, ◌≡◌}
use reverso_llm.Json.{Json, str, arr, obj, nil, cons, end, field}
use reverso_llm.Stripped.{is_reasoning, strip_text_fields}
use reverso_llm.Stripped.Clean.{IsFree, IsFree-strip_text_fields}

-- A stripper that does nothing.
abbrev passes : String → Unit {0} → String × Unit {0}
passes s u = (s, u)

abbrev same : String → String
same s = s

abbrev reply : Json
reply = obj (
    field "output"
      (arr (
        cons (obj (field "type" (str "reasoning") end)) (
          cons
            (obj (
              field "type" (str "message") (
                field "content"
                  (arr (
                    cons (obj (field "type" (str "output_text") (field "text" (str "a") end))) nil))
                  end)))
            nil)))
      end)

IsFree-strip_text_fields_example :
    IsFree (strip_text_fields tt passes same same reply none).0
    × (is_reasoning (strip_text_fields tt passes same same reply none).0 ≡ is_reasoning reply)
IsFree-strip_text_fields_example = IsFree-strip_text_fields tt passes same same reply none
