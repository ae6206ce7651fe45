-- ===== src/Wrapped/Models.antt =====
-- reverso/middleware/codex_models_compat.py: a model list that a Codex refresh asks for gets an empty
-- `models` field. `loads` and `dumps` are the calls of json.
pub mod Replies
use mathlib.Core.List.{append_assoc}
use reverso_llm.Prelude.{
  ℕ, String, Bool, true, false, ◌&&◌, Option, none, some, List, [], ◌∷◌, ◌++◌, ◌≡◌, refl, ap, ◌∙◌,
  if◌then◌else◌, length, ◌==◌, text_key, Bool-cases, inl, inr,
}
use reverso_llm.Json.{Json, arr, nil, obj, Fields, get, has, put}
use reverso_llm.Outcome.{Outcome, ok, ◌>>=◌}
use reverso_llm.Bytes.{Bytes, ascii, lower, Header, is_header, without_content_length}
use reverso_llm.Bytes.Search.{occurs}
use reverso_llm.Paths.{without_slashes, ends_with}
use reverso_llm.Wrapped.{
  Message, start, body, other, with_content_length, bodies, joined, without_content_length_twice,
}
use reverso_llm.Wrapped.Errors.{recovered, bind_ok, Outcome-cases}

unfoldable pub is_models_path : String → Bool
is_models_path path = ends_with (ascii "/models") (without_slashes (ascii path))

-- The query string as bytes.
unfoldable pub is_codex_refresh : Bytes → Bool
is_codex_refresh query = occurs (ascii "client_version=") query

-- `_is_json`
unfoldable pub names_json : List Header → Bool
names_json [] = false
names_json (header ∷ headers) =
    let rest = names_json headers in
    if is_header "content-type" header && occurs (ascii "json") (lower header.1) then true else rest

-- The reply that is held back.
pub record Refresh : Type 0 where
  pub is_json_response : Bool
  pub start_message : Option (ℕ × List Header)
  pub body_parts : Bytes

abbrev pub initial : Refresh
initial = record { is_json_response = false; start_message = none; body_parts = [] }

module _ (loads : Bytes → Outcome Json) (dumps : Json → Bytes) where
  abbrev with_models : Bytes → Fields → Json → Bytes
  with_models s payload (arr data_items) = dumps (obj (put "models" (arr nil) payload))
  with_models s payload _ = s

  abbrev pub normalized : Bytes → Json → Bytes
  normalized s (obj payload) =
      if has "models" payload then s else with_models s payload (get "data" payload)
  normalized s _ = s

  unfoldable pub normalize_models_body : Bytes → Outcome Bytes
  normalize_models_body s = recovered s (loads s >>= (λ payload. ok (normalized s payload)))

  -- The held start, with the length of the body.
  abbrev started : Option (ℕ × List Header) → Bytes → List Message
  started none s = []
  started (some (status, headers)) s = start status (with_content_length headers (length s)) ∷ []

  abbrev released : Option (ℕ × List Header) → List Message
  released none = []
  released (some (status, headers)) = start status headers ∷ []

  unfoldable pub wrapped_send : Refresh → Message → Outcome (List Message × Refresh)
  wrapped_send r (start status headers) =
      let json = names_json headers in
      ok (
        [],
        record r {
          is_json_response = json;
          start_message = some (status, if json then without_content_length headers else headers);
        },
      )
  wrapped_send r other =
      ok (released r.start_message ++ other ∷ [], record r { start_message = none })
  wrapped_send r (body chunk more) =
      let parts = r.body_parts ++ chunk in
      if r.is_json_response
      then (if more
          then ok ([], record r { body_parts = parts })
          else (normalize_models_body parts >>= (λ s. ok (
            started r.start_message s ++ body s false ∷ [],
            record r { body_parts = parts; start_message = none },
          ))))
      else ok (released r.start_message ++ body chunk more ∷ [], record r { start_message = none })

  -- The application's messages, and the start that is left behind them.
  unfoldable pub send_all : Refresh → List Message → Outcome (List Message)
  send_all r [] = ok (released r.start_message)
  send_all r (message ∷ messages) = do
    (sent, now) ← wrapped_send r message
    rest ← send_all now messages
    ok (sent ++ rest)

  unfoldable pub sent_through : (type path : String) → Bytes → List Message → Outcome (List Message)
  sent_through type path query messages =
      if type == "http" && is_models_path path && is_codex_refresh query
      then send_all initial messages
      else ok messages

  abbrev framed : ℕ → List Header → Bytes → Outcome (List Message)
  framed status headers s =
      normalize_models_body s
      >>= (λ t. ok (start status (with_content_length headers (length t)) ∷ body t false ∷ []))

  -- What a client is to be sent of a reply.
  abbrev pub Refreshed : ℕ → List Header → List Bytes → Bytes → Outcome (List Message)
  Refreshed status headers chunks last_chunk =
      if names_json headers
      then framed status headers (joined chunks last_chunk)
      else ok (start status headers ∷ bodies chunks last_chunk)

  send_all-bodies :
      (parts : Bytes) (chunks : List Bytes) (last_chunk : Bytes)
      → send_all
          (record { is_json_response = false; start_message = none; body_parts = parts })
          (bodies chunks last_chunk)
        ≡ ok (bodies chunks last_chunk)
  unfolding send_all wrapped_send bodies
  send_all-bodies parts [] last_chunk = refl
  send_all-bodies parts (chunk ∷ chunks) last_chunk =
      ap (λ r. r >>= (λ rest. ok (body chunk true ∷ rest)))
        (send_all-bodies parts chunks last_chunk)

  send_all-released :
      (status : ℕ) (headers : List Header) (chunks : List Bytes) (last_chunk : Bytes)
      → send_all
          (record {
            is_json_response = false;
            start_message = some (status, headers);
            body_parts = [];
          })
          (bodies chunks last_chunk)
        ≡ ok (start status headers ∷ bodies chunks last_chunk)
  unfolding send_all wrapped_send bodies
  send_all-released status headers [] last_chunk = refl
  send_all-released status headers (chunk ∷ chunks) last_chunk =
      ap (λ r. r >>= (λ rest. ok (start status headers ∷ body chunk true ∷ rest)))
        (send_all-bodies [] chunks last_chunk)

  send_all-held :
      (status : ℕ) (headers : List Header) (parts : Bytes) (chunks : List Bytes)
      (last_chunk : Bytes)
      → send_all
          (record {
            is_json_response = true;
            start_message = some (status, headers);
            body_parts = parts;
          })
          (bodies chunks last_chunk)
        ≡ framed status headers (parts ++ joined chunks last_chunk)
  unfolding send_all wrapped_send bodies
  send_all-held status headers parts [] last_chunk =
      elim (Outcome-cases (normalize_models_body (parts ++ last_chunk))) [
        | inl (e, r) ↦ rw r refl
        | inr (b, r) ↦ rw r refl
      ]
  send_all-held status headers parts (chunk ∷ chunks) last_chunk =
      bind_ok _
      ∙ send_all-held status headers (parts ++ chunk) chunks last_chunk
      ∙ ap (framed status headers) (append_assoc parts chunk _)

  -- However its body is cut, a JSON reply is sent as one start and one body: what normalize_models_body
  -- makes of it, under the headers that with_content_length makes. A failure of json is passed on. Every other reply is sent
  -- as it comes.
  pub send_all-Refreshed :
      (status : ℕ) (headers : List Header) (chunks : List Bytes) (last_chunk : Bytes)
      → send_all initial (start status headers ∷ bodies chunks last_chunk)
        ≡ Refreshed status headers chunks last_chunk
  unfolding send_all wrapped_send with_content_length
  send_all-Refreshed status headers chunks last_chunk = elim (Bool-cases (names_json headers)) [
    | inl e ↦ rw e (
        bind_ok _
        ∙ send_all-held status (without_content_length headers) [] chunks last_chunk
        ∙ rw (without_content_length_twice headers, framed) refl)
    | inr e ↦ rw e (bind_ok _ ∙ send_all-released status headers chunks last_chunk)
  ]
