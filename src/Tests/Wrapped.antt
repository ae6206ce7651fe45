-- ===== src/Tests/Wrapped.antt =====
-- An error reply and a model list, each cut in two.
use reverso_llm.Prelude.{List, [], ◌∷◌}
use reverso_llm.Json.{Json, arr, nil, obj, end, field}
use reverso_llm.Outcome.{Outcome, ok}
use reverso_llm.Bytes.{Bytes, ascii, Header}
use reverso_llm.Wrapped.{start, bodies}
use reverso_llm.Wrapped.Errors
use reverso_llm.Wrapped.Errors.Replies.{Sent, send_all-Sent}
use reverso_llm.Wrapped.Models
use reverso_llm.Wrapped.Models.Replies
use reverso_llm.Wrapped.Models.Replies.{send_all-Listed}

abbrev json_headers : List Header
json_headers =
    (ascii "Content-Type", ascii "application/json") ∷ (ascii "Content-Length", ascii "2") ∷ []

-- `json` on the values of these tests.
abbrev loads : Bytes → Outcome Json
loads s = ok (obj (field "data" (arr nil) end))

abbrev dumps : Json → Bytes
dumps v = ascii "{...}"

send_all-Sent_example : Sent dumps "anthropic" loads 404 json_headers (ascii "{" ∷ []) (ascii "}") (
    Errors.send_all loads dumps "anthropic" Errors.initial
      (start 404 json_headers ∷ bodies (ascii "{" ∷ []) (ascii "}")))
send_all-Sent_example =
    send_all-Sent loads dumps "anthropic" 404 json_headers (ascii "{" ∷ []) (ascii "}")

send_all-Listed_example : Replies.Sent dumps loads 200 json_headers (ascii "{" ∷ []) (ascii "}") (
    Models.send_all loads dumps Models.initial
      (start 200 json_headers ∷ bodies (ascii "{" ∷ []) (ascii "}")))
send_all-Listed_example = send_all-Listed loads dumps 200 json_headers (ascii "{" ∷ []) (ascii "}")
