-- ===== src/Normalizer/Requests.antt =====
-- `CodexResponsesNormalizerMiddleware` of codex_responses_normalizer.py. Its `_read_body`,
-- `_receive_replay` and `_headers_with_content_length` are those of profile_routing.py.
use reverso_llm.Prelude.{
  String, Bool, ◌&&◌, Option, none, some, List, if◌then◌else◌, ◌==◌, text_key, length,
}
use reverso_llm.Json.{Json, Fields}
use reverso_llm.Outcome.{Outcome, ok, ◌>>=◌}
use reverso_llm.Bytes.{Bytes, ascii, bytes_eq}
use reverso_llm.Paths.{is_responses_path}
use reverso_llm.Routing.Models.{split_profile_path}
use reverso_llm.Routing.Bodies.{Message, Read, complete, disconnected, waiting, read_body}
use reverso_llm.Routing.Requests.{
  Scope, Receive, source, replay, always_disconnect, upper, headers_with_content_length,
}
use reverso_llm.Normalizer.{normalize_body}

effective_path : String → String
effective_path path = elim (split_profile_path path) [ some p ↦ p.rewritten_path | none ↦ path ]

unfoldable pub is_responses_post : Scope → Bool
unfolding effective_path
is_responses_post scope =
    bytes_eq (upper scope.method) (ascii "POST") && is_responses_path (effective_path scope.path)

module _ (loads : Bytes → Outcome Json) (dumps : Json → Bytes) (same : Fields → Fields → Bool) where
  -- The scope and the receive callable that the application gets, once the body is read.
  normalized : Scope → Read → Outcome (Option (Scope × Receive))
  normalized scope waiting = ok none
  normalized scope (disconnected rest) = ok (some (scope, always_disconnect))
  normalized scope (complete body rest) = do
    body' ← normalize_body loads dumps same body
    ok (
        some (
          record scope { headers = headers_with_content_length scope.headers (length body') },
          replay body' rest,
        ))

  unfoldable pub normalized_call : Scope → List Message → Outcome (Option (Scope × Receive))
  unfolding normalized
  normalized_call scope messages =
      if scope.type == "http" && is_responses_post scope
      then normalized scope (read_body messages)
      else ok (some (scope, source messages))
