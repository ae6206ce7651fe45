-- ===== src/Wrapped/Errors.antt =====
-- reverso/middleware/x_gateway_error_envelope.py: a JSON reply with an error status gets the gateway's
-- envelope. `loads` and `dumps` are the calls of json, `lower` is that of a text.
pub mod Replies
use text.Mathlib.Text.{starts_with as text_starts_with}
use mathlib.Core.List.{append_assoc}
use reverso_llm.Prelude.{
  ℕ, String, Bool, true, false, ◌&&◌, Option, none, some, List, [], ◌∷◌, ◌++◌, ◌≡◌, refl, ap, ◌∙◌,
  if◌then◌else◌, leb, length, ◌==◌, text_key, Bool-cases, inl, inr, ◌⊎◌,
}
use reverso_llm.Prelude.Dict
use reverso_llm.Prelude.Dict.{Dict}
use reverso_llm.Json.{Json, null, str, arr, nil, obj, end, field, get, has, put}
use reverso_llm.Outcome.{Outcome, ok, raised, ◌>>=◌}
use reverso_llm.Bytes.{Bytes, ascii, lower, Header, is_header}
use reverso_llm.Bytes.Search.{occurs}
use reverso_llm.Routing.Models.{at_slash, split_profile_path}
use reverso_llm.Routing.Bodies.{Read, complete, disconnected, waiting}
use reverso_llm.Wrapped.{Message, start, body, other, with_content_length, bodies, joined}

abbrev model_to_provider : Dict String String
model_to_provider =
    ("claude-opus-4-8", "anthropic")
    ∷ ("claude-sonnet-4-6", "anthropic")
    ∷ ("claude-haiku-4-6", "anthropic")
    ∷ ("claude-opus", "anthropic")
    ∷ ("claude-sonnet", "anthropic")
    ∷ ("claude-haiku", "anthropic")
    ∷ ("claude", "anthropic")
    ∷ ("gpt-5.5", "openai")
    ∷ ("gpt-5.4", "openai")
    ∷ ("gpt-5.4-mini", "openai")
    ∷ ("gpt-5.3-codex-spark", "openai")
    ∷ ("gpt-4.1", "openai")
    ∷ ("deepseek-v4-pro", "deepseek")
    ∷ ("deepseek-v4-flash", "deepseek")
    ∷ ("deepseek-reasoner", "deepseek")
    ∷ ("deepseek-chat", "deepseek")
    ∷ []

-- `model.split("/", 1)[1] if "/" in model else model`
unfoldable pub normalise_model : String → String
normalise_model model = elim (at_slash model) [ none ↦ model | some (front, rest) ↦ rest ]

abbrev by_prefix : String → String
by_prefix lowered =
    if text_starts_with lowered "claude-"
    then "anthropic"
    else if text_starts_with lowered "gpt-"
    then "openai"
    else if text_starts_with lowered "deepseek-"
    then "deepseek"
    else "unknown"

unfoldable pub infer_provider : (String → String) → String → String
infer_provider lower_text model =
    let normalised = normalise_model model in
    elim (Dict.get normalised model_to_provider) [
      | some provider ↦ provider
      | none ↦ by_prefix (lower_text normalised)
    ]

unfoldable pub infer_provider_from_path : String → String
infer_provider_from_path path = elim (split_profile_path path) [
  | none ↦ "unknown"
  | some p ↦
      if p.profile == "claude"
      then "anthropic"
      else if p.profile == "deepseek"
      then "deepseek"
      else "unknown"
]

abbrev of_model : (String → String) → Json → String
of_model lower_text (str model) = infer_provider lower_text model
of_model lower_text _ = "unknown"

abbrev of_payload : (String → String) → Json → String
of_payload lower_text (obj payload) = of_model lower_text (get "model" payload)
of_payload lower_text _ = "unknown"

-- `body or b"{}"`
abbrev or_braces : Bytes → Bytes
or_braces [] = ascii "{}"
or_braces (c ∷ s) = c ∷ s

-- What `except json.JSONDecodeError` makes of a reading.
abbrev pub recovered : {A : Type 0} → A → Outcome A → Outcome A
recovered default (ok a) = ok a
recovered default (raised e) = if e == "JSONDecodeError" then ok default else raised e

abbrev envelope : String → Json
envelope provider = obj (
    field "session_id" null (
      field "observations" (arr nil)
        (field "provider" (str provider) (field "warnings" (arr nil) end))))

-- `_is_json`
unfoldable pub is_json : List Header → Bool
is_json [] = false
is_json (header ∷ headers) =
    let rest = is_json headers in
    if is_header "content-type" header && occurs (ascii "application/json") (lower header.1)
    then true
    else rest

-- The reply that is held back, its start and its chunks so far.
pub record Held : Type 0 where
  pub start_message : Option (ℕ × List Header)
  pub body_chunks : Bytes

abbrev pub initial : Held
initial = record { start_message = none; body_chunks = [] }

pub bind_ok : {A : Type 0} (m : Outcome A) → (m >>= (λ a. ok a)) ≡ m
bind_ok (ok a) = refl
bind_ok (raised e) = refl

pub Outcome-cases :
    {A : Type 0} (m : Outcome A) → ((name : String) × (m ≡ raised name)) ⊎ ((a : A) × (m ≡ ok a))
Outcome-cases (raised name) = inl (name, refl)
Outcome-cases (ok a) = inr (a, refl)

module _ (loads : Bytes → Outcome Json) (lower_text : String → String) where
  unfoldable pub infer_provider_from_body : Bytes → Outcome String
  infer_provider_from_body s =
      recovered "unknown" (loads (or_braces s) >>= (λ payload. ok (of_payload lower_text payload)))

  -- The provider for a request, from its path and else from its body.
  unfoldable pub provider_of : String → Read → Outcome String
  provider_of path (complete s rest) =
      let provider = infer_provider_from_path path in
      if provider == "unknown" then infer_provider_from_body s else ok provider
  provider_of path (disconnected rest) = ok (infer_provider_from_path path)
  provider_of path waiting = ok (infer_provider_from_path path)

module _ (loads : Bytes → Outcome Json) (dumps : Json → Bytes) where
  abbrev pub enveloped : Bytes → String → Json → Bytes
  enveloped s provider (obj payload) =
      if has "x_gateway" payload
      then s
      else dumps (obj (put "x_gateway" (envelope provider) payload))
  enveloped s provider _ = s

  unfoldable pub add_x_gateway : Bytes → String → Outcome Bytes
  add_x_gateway s provider =
      recovered s (loads (or_braces s) >>= (λ payload. ok (enveloped s provider payload)))

  module _ (provider : String) where
    send_held : ℕ → List Header → Bytes → Bool → Held → Outcome (List Message × Held)
    send_held status headers chunks more held =
        let now = record held { body_chunks = chunks } in
        if more
        then ok ([], now)
        else (add_x_gateway chunks provider >>= (λ error_body.
            let framed = with_content_length headers (length error_body) in
            ok (
              start status framed ∷ body error_body false ∷ [],
              record now { start_message = some (status, framed) },
            )))

    unfoldable pub wrapped_send : Held → Message → Outcome (List Message × Held)
    unfolding send_held
    wrapped_send held (start status headers) =
        if leb 400 status && is_json headers
        then ok ([], record held { start_message = some (status, headers) })
        else ok (start status headers ∷ [], held)
    wrapped_send held (body chunk more) = elim held.start_message [
      | none ↦ ok (body chunk more ∷ [], held)
      | some (status, headers) ↦ send_held status headers (held.body_chunks ++ chunk) more held
    ]
    wrapped_send held other = ok (other ∷ [], held)

    unfoldable pub send_all : Held → List Message → Outcome (List Message)
    send_all held [] = ok []
    send_all held (message ∷ messages) = do
      (sent, now) ← wrapped_send held message
      rest ← send_all now messages
      ok (sent ++ rest)

    -- What a client is to be sent of a reply.
    abbrev pub Reply : ℕ → List Header → List Bytes → Bytes → Outcome (List Message)
    Reply status headers chunks last_chunk =
        if leb 400 status && is_json headers
        then (add_x_gateway (joined chunks last_chunk) provider >>= (λ error_body. ok (
            start status (with_content_length headers (length error_body))
            ∷ body error_body false
            ∷ [])))
        else ok (start status headers ∷ bodies chunks last_chunk)

    send_all-bodies :
        (chunks : List Bytes) (last_chunk : Bytes)
        → send_all initial (bodies chunks last_chunk) ≡ ok (bodies chunks last_chunk)
    unfolding send_all wrapped_send bodies
    send_all-bodies [] last_chunk = refl
    send_all-bodies (chunk ∷ chunks) last_chunk =
        ap (λ r. r >>= (λ rest. ok (body chunk true ∷ rest))) (send_all-bodies chunks last_chunk)

    abbrev framed : ℕ → List Header → Bytes → Outcome (List Message)
    framed status headers s = add_x_gateway s provider >>= (λ error_body. ok (
        start status (with_content_length headers (length error_body))
        ∷ body error_body false
        ∷ []))

    send_all-held :
        (status : ℕ) (headers : List Header) (acc : Bytes) (chunks : List Bytes)
        (last_chunk : Bytes)
        → send_all
            (record { start_message = some (status, headers); body_chunks = acc })
            (bodies chunks last_chunk)
          ≡ framed status headers (acc ++ joined chunks last_chunk)
    unfolding send_all wrapped_send bodies
    send_all-held status headers acc [] last_chunk =
        elim (Outcome-cases (add_x_gateway (acc ++ last_chunk) provider)) [
          | inl (e, r) ↦ rw r refl
          | inr (b, r) ↦ rw r refl
        ]
    send_all-held status headers acc (chunk ∷ chunks) last_chunk =
        bind_ok _
        ∙ send_all-held status headers (acc ++ chunk) chunks last_chunk
        ∙ ap (framed status headers) (append_assoc acc chunk _)

    -- However its body is cut, a JSON reply with an error status is sent as one start and one body: what
    -- add_x_gateway makes of the body, under the headers that with_content_length makes. A failure of json is
    -- passed on. Every other reply is sent as it comes.
    pub send_all-Reply :
        (status : ℕ) (headers : List Header) (chunks : List Bytes) (last_chunk : Bytes)
        → send_all initial (start status headers ∷ bodies chunks last_chunk)
          ≡ Reply status headers chunks last_chunk
    unfolding send_all wrapped_send
    send_all-Reply status headers chunks last_chunk =
        elim (Bool-cases (leb 400 status && is_json headers)) [
          | inl e ↦ rw e (bind_ok _ ∙ send_all-held status headers [] chunks last_chunk)
          | inr e ↦ rw e (
              ap (λ r. r >>= (λ rest. ok (start status headers ∷ rest)))
                (send_all-bodies chunks last_chunk))
        ]

module _ (loads : Bytes → Outcome Json) (dumps : Json → Bytes) (lower_text : String → String) where
  -- `__call__`: what the server gets of what the application sends, for a request that was read.
  unfoldable pub sent_through : (type path : String) → Read → List Message → Outcome (List Message)
  sent_through type path read messages =
      if type == "http"
      then (provider_of loads lower_text path read
          >>= (λ provider. send_all loads dumps provider initial messages))
      else ok messages
