-- ===== src/Wrapped/Models/Replies.antt =====
-- What a client of codex_models_compat.py is sent for a reply, by what it reads from it.
use reverso_llm.Prelude.{
  ℕ, String, Bool, true, false, ◌&&◌, List, [], ◌∷◌, ◌≡◌, ◌≢◌, refl, if◌then◌else◌, length, ◌==◌,
  text_key, Bool-cases, inl, inr, ◌⊎◌, any, arith,
}
use reverso_llm.Json.{Json, null, bool, int, real, str, arr, nil, obj, Fields, get, has, get-put}
use reverso_llm.Outcome.{Outcome, ok, raised, ◌>>=◌}
use reverso_llm.Bytes.{Bytes, ascii, lower, Header, is_header}
use reverso_llm.Bytes.Search.{occurs}
use reverso_llm.Wrapped.{Message, start, body, with_content_length, bodies, joined}
use reverso_llm.Wrapped.Errors.{recovered}
use reverso_llm.Wrapped.Models.{
  names_json, initial, normalized, normalize_models_body, send_all, send_all-Refreshed,
}
use reverso_llm.Wrapped.Framing.{IsFramed, with_content_length-IsFramed}

-- The headers announce JSON of some kind.
abbrev pub announces_json : List Header → Bool
announces_json headers =
    any (λ (h : Header). is_header "content-type" h && occurs (ascii "json") (lower h.1)) headers

names_json-announces_json : (headers : List Header) → names_json headers ≡ announces_json headers
unfolding names_json any
names_json-announces_json [] = refl
names_json-announces_json (header ∷ headers) = ground (arith, names_json-announces_json headers)

-- A model list: the value under `data` is an array.
abbrev IsArray : Json → Type 0
IsArray (arr _) = Unit
IsArray _ = ⊥

module _ (dumps : Json → Bytes) where
  -- The body that is sent for a body: an object with an array under data and no models gets empty models,
  -- and keeps all its other keys; any other body is sent as it came.
  abbrev pub Listed : Outcome Json → Bytes → Bytes → Type 0
  Listed (ok (obj payload)) s sent =
      (((has "models" payload ≡ true) ⊎ (¬ IsArray (get "data" payload))) × (sent ≡ s))
      ⊎ ((has "models" payload ≡ false)
          × IsArray (get "data" payload)
          × ((out : Fields) × (sent ≡ dumps (obj out))
              × (get "models" out ≡ arr nil)
              × ((key : String) → ("models" == key) ≡ false → get key out ≡ get key payload)))
  Listed (ok _) s sent = sent ≡ s
  Listed (raised e) s sent = (e ≡ "JSONDecodeError") × (sent ≡ s)

  -- What is sent for a reply in JSON, by what json reads of its body.
  abbrev pub Replied : Outcome Json → ℕ → List Header → Bytes → Outcome (List Message) → Type 0
  Replied read status headers s (ok (start sent_status sent ∷ body t false ∷ [])) =
      (sent_status ≡ status) × IsFramed headers sent (length t) × Listed read s t
  Replied read status headers s (ok _) = ⊥
  Replied read status headers s (raised e) = (read ≡ raised e) × (e ≢ "JSONDecodeError")

  -- What is sent for any reply.
  abbrev pub Sent :
      (Bytes → Outcome Json)
      → ℕ
      → List Header
      → List Bytes
      → Bytes
      → Outcome (List Message)
      → Type 0
  Sent loads status headers chunks last_chunk sent =
      let s = joined chunks last_chunk in
      if announces_json headers
      then Replied (loads s) status headers s sent
      else (sent ≡ ok (start status headers ∷ bodies chunks last_chunk))

module _ (loads : Bytes → Outcome Json) (dumps : Json → Bytes) (status : ℕ)
    (headers : List Header) where
  -- The messages of a body.
  abbrev one_body : Bytes → List Message
  one_body t = start status (with_content_length headers (length t)) ∷ body t false ∷ []

  -- The body as json's answer makes it.
  abbrev made : Bytes → Outcome Json → Outcome Bytes
  made s read = recovered s (read >>= (λ payload. ok (normalized loads dumps s payload)))

  -- A body that is sent as it came.
  kept-Replied :
      (s : Bytes) (read : Outcome Json)
      → Listed dumps read s s
      → Replied dumps read status headers s (ok (one_body s))
  kept-Replied s read listed = (refl, with_content_length-IsFramed headers (length s), listed)

  -- An object without models, by what stands under its data.
  object-Replied :
      (s : Bytes) (payload : Fields) (models : Json)
      → get "data" payload ≡ models
      → has "models" payload ≡ false
      → Replied dumps
          (ok (obj payload))
          status
          headers
          s
          (ok (one_body (normalized loads dumps s (obj payload))))
  object-Replied s payload (arr vs) e without =
      rw (without, e)
        (
          refl,
          with_content_length-IsFramed headers _,
          inr (
            refl,
            tt,
            (
              _,
              refl,
              get-put "models" "models" _ payload,
              λ key ne. rw (get-put "models" key _ payload, ne) refl,
            ),
          ),
        )
  object-Replied s payload null e without =
      rw (without, e)
        (refl, with_content_length-IsFramed headers (length s), inl (inr (λ x. x), refl))
  object-Replied s payload (bool _) e without =
      rw (without, e)
        (refl, with_content_length-IsFramed headers (length s), inl (inr (λ x. x), refl))
  object-Replied s payload (int _) e without =
      rw (without, e)
        (refl, with_content_length-IsFramed headers (length s), inl (inr (λ x. x), refl))
  object-Replied s payload (real _ _) e without =
      rw (without, e)
        (refl, with_content_length-IsFramed headers (length s), inl (inr (λ x. x), refl))
  object-Replied s payload (str _) e without =
      rw (without, e)
        (refl, with_content_length-IsFramed headers (length s), inl (inr (λ x. x), refl))
  object-Replied s payload (obj _) e without =
      rw (without, e)
        (refl, with_content_length-IsFramed headers (length s), inl (inr (λ x. x), refl))

  made-Replied :
      (s : Bytes) (read : Outcome Json)
      → Replied dumps read status headers s (made s read >>= (λ t. ok (one_body t)))
  made-Replied s (ok (obj payload)) = elim (Bool-cases (has "models" payload)) [
    | inl e ↦ rw e (refl, with_content_length-IsFramed headers (length s), inl (inl refl, refl))
    | inr e ↦ object-Replied s payload (get "data" payload) refl e
  ]
  made-Replied s (ok null) = kept-Replied s (ok null) refl
  made-Replied s (ok (bool b)) = kept-Replied s (ok (bool b)) refl
  made-Replied s (ok (int n)) = kept-Replied s (ok (int n)) refl
  made-Replied s (ok (real m e)) = kept-Replied s (ok (real m e)) refl
  made-Replied s (ok (str t)) = kept-Replied s (ok (str t)) refl
  made-Replied s (ok (arr vs)) = kept-Replied s (ok (arr vs)) refl
  made-Replied s (raised e) = elim (Bool-cases (e == "JSONDecodeError")) [
    | inl same ↦
        rw same (kept-Replied s (raised e) ((text_key.same_iff e "JSONDecodeError").0 same, refl))
    | inr differs ↦
        rw differs (refl, λ same. cc (differs, (text_key.same_iff e "JSONDecodeError").1 same))
  ]

  normalize_models_body-Replied :
      (s : Bytes)
      → Replied dumps
          (loads s)
          status
          headers
          s
          (normalize_models_body loads dumps s >>= (λ t. ok (one_body t)))
  unfolding normalize_models_body
  normalize_models_body-Replied s = made-Replied s (loads s)

  -- However its body is cut, a reply whose headers announce JSON is sent as one start, with its status,
  -- and one body. An object with an array under data and no models gets empty models and keeps its other
  -- keys; any other body stays as it came. The headers are as they came, but for one content-length,
  -- which reads as the length of the body that is sent. An exception of json that is no JSONDecodeError
  -- is passed on, and nothing is raised otherwise. Every other reply is sent as it comes.
  pub send_all-Listed :
      (chunks : List Bytes) (last_chunk : Bytes)
      → Sent dumps loads status headers chunks last_chunk
          (send_all loads dumps initial (start status headers ∷ bodies chunks last_chunk))
  send_all-Listed chunks last_chunk =
      rw
        (
          send_all-Refreshed loads dumps status headers chunks last_chunk,
          names_json-announces_json headers,
        )
        (elim (Bool-cases (announces_json headers)) [
          | inl e ↦ rw e (normalize_models_body-Replied (joined chunks last_chunk))
          | inr e ↦ rw e refl
        ])
