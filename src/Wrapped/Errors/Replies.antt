-- ===== src/Wrapped/Errors/Replies.antt =====
-- What a client of x_gateway_error_envelope.py is sent for a reply, by what it reads from it.
use reverso_llm.Prelude.{
  ℕ, String, Bool, true, false, ◌&&◌, List, [], ◌∷◌, ◌≡◌, ◌≢◌, refl, if◌then◌else◌, leb, length,
  ◌==◌, text_key, Bool-cases, inl, inr, ◌⊎◌, any, arith,
}
use reverso_llm.Json.{
  Json, null, bool, int, real, str, arr, nil, obj, Fields, end, field, get, has, get-put,
}
use reverso_llm.Outcome.{Outcome, ok, raised, ◌>>=◌}
use reverso_llm.Bytes.{Bytes, ascii, lower, Header, is_header}
use reverso_llm.Bytes.Search.{occurs}
use reverso_llm.Wrapped.{Message, start, body, with_content_length, bodies, joined}
use reverso_llm.Wrapped.Errors.{
  is_json, initial, recovered, enveloped, add_x_gateway, send_all, send_all-Reply,
}
use reverso_llm.Wrapped.Framing.{IsFramed, with_content_length-IsFramed}

-- The headers announce JSON.
abbrev pub announces_json : List Header → Bool
announces_json headers =
    any
      (λ (h : Header). is_header "content-type" h && occurs (ascii "application/json") (lower h.1))
      headers

is_json-announces_json : (headers : List Header) → is_json headers ≡ announces_json headers
unfolding is_json any
is_json-announces_json [] = refl
is_json-announces_json (header ∷ headers) = ground (arith, is_json-announces_json headers)

-- What json reads of a body, the empty body as an empty object.
abbrev pub reading : (Bytes → Outcome Json) → Bytes → Outcome Json
reading loads [] = loads (ascii "{}")
reading loads (c ∷ s) = loads (c ∷ s)

module _ (dumps : Json → Bytes) (provider : String) where
  -- The body that is sent for a body: an object without x_gateway gets one that names the provider, and
  -- keeps all its other keys; any other body is sent as it came.
  abbrev pub Enveloped : Outcome Json → Bytes → Bytes → Type 0
  Enveloped (ok (obj payload)) s sent =
      ((has "x_gateway" payload ≡ true) × (sent ≡ s))
      ⊎ ((has "x_gateway" payload ≡ false)
          × ((out : Fields) × (sent ≡ dumps (obj out))
              × (get "x_gateway" out
                  ≡ obj (
                      field "session_id" null (
                        field "observations" (arr nil)
                          (field "provider" (str provider) (field "warnings" (arr nil) end)))))
              × ((key : String) → ("x_gateway" == key) ≡ false → get key out ≡ get key payload)))
  Enveloped (ok _) s sent = sent ≡ s
  Enveloped (raised e) s sent = (e ≡ "JSONDecodeError") × (sent ≡ s)

  -- What is sent for an error in JSON, by what json reads of its body.
  abbrev pub Replied : Outcome Json → ℕ → List Header → Bytes → Outcome (List Message) → Type 0
  Replied read status headers s (ok (start sent_status sent ∷ body t false ∷ [])) =
      (sent_status ≡ status) × IsFramed headers sent (length t) × Enveloped read s t
  Replied read status headers s (ok _) = ⊥
  Replied read status headers s (raised e) = (read ≡ raised e) × (e ≢ "JSONDecodeError")

  -- What is sent for any reply.
  abbrev pub Sent :
      (Bytes → Outcome Json)
      → ℕ
      → List Header
      → List Bytes
      → Bytes
      → Outcome (List Message)
      → Type 0
  Sent loads status headers chunks last_chunk sent =
      let s = joined chunks last_chunk in
      if leb 400 status && announces_json headers
      then Replied (reading loads s) status headers s sent
      else (sent ≡ ok (start status headers ∷ bodies chunks last_chunk))

module _ (loads : Bytes → Outcome Json) (dumps : Json → Bytes) (provider : String) (status : ℕ)
    (headers : List Header) where
  -- The messages of a body.
  abbrev one_body : Bytes → List Message
  one_body t = start status (with_content_length headers (length t)) ∷ body t false ∷ []

  -- The body as json's answer makes it.
  abbrev made : Bytes → Outcome Json → Outcome Bytes
  made s read = recovered s (read >>= (λ payload. ok (enveloped loads dumps s provider payload)))

  as_it_came :
      (s : Bytes)
      → (status ≡ status)
        × IsFramed headers (with_content_length headers (length s)) (length s)
        × (s ≡ s)
  as_it_came s = (refl, with_content_length-IsFramed headers (length s), refl)

  made-Replied :
      (s : Bytes) (read : Outcome Json)
      → Replied dumps provider read status headers s (made s read >>= (λ t. ok (one_body t)))
  made-Replied s (ok (obj payload)) = elim (Bool-cases (has "x_gateway" payload)) [
    | inl e ↦ rw e (refl, with_content_length-IsFramed headers (length s), inl (refl, refl))
    | inr e ↦ rw e (
      refl,
      with_content_length-IsFramed headers _,
      inr (
        refl,
        (
          _,
          refl,
          get-put "x_gateway" "x_gateway" _ payload,
          λ key ne. rw (get-put "x_gateway" key _ payload, ne) refl,
        ),
      ),
    )
  ]
  made-Replied s (ok null) = as_it_came s
  made-Replied s (ok (bool _)) = as_it_came s
  made-Replied s (ok (int _)) = as_it_came s
  made-Replied s (ok (real _ _)) = as_it_came s
  made-Replied s (ok (str _)) = as_it_came s
  made-Replied s (ok (arr _)) = as_it_came s
  made-Replied s (raised e) = elim (Bool-cases (e == "JSONDecodeError")) [
    | inl same ↦ rw same (
      refl,
      with_content_length-IsFramed headers (length s),
      ((text_key.same_iff e "JSONDecodeError").0 same, refl),
    )
    | inr differs ↦
        rw differs (refl, λ same. cc (differs, (text_key.same_iff e "JSONDecodeError").1 same))
  ]

  add_x_gateway-Replied :
      (s : Bytes)
      → Replied dumps provider
          (reading loads s)
          status
          headers
          s
          (add_x_gateway loads dumps s provider >>= (λ t. ok (one_body t)))
  unfolding add_x_gateway
  add_x_gateway-Replied [] = made-Replied [] (loads (ascii "{}"))
  add_x_gateway-Replied (c ∷ s) = made-Replied (c ∷ s) (loads (c ∷ s))

  -- However its body is cut, a reply with an error status whose headers announce JSON is sent as one
  -- start, with its status, and one body. An object without x_gateway gets one that names the provider
  -- and keeps its other keys; any other body stays as it came. The headers are as they came, but for one
  -- content-length, which reads as the length of the body that is sent. An exception of json that is no
  -- JSONDecodeError is passed on, and nothing is raised otherwise. Every other reply is sent as it comes.
  pub send_all-Sent :
      (chunks : List Bytes) (last_chunk : Bytes)
      → Sent dumps provider loads status headers chunks last_chunk
          (send_all loads dumps provider initial (start status headers ∷ bodies chunks last_chunk))
  send_all-Sent chunks last_chunk =
      rw
        (
          send_all-Reply loads dumps provider status headers chunks last_chunk,
          is_json-announces_json headers,
        )
        (elim (Bool-cases (leb 400 status && announces_json headers)) [
          | inl e ↦ rw e (add_x_gateway-Replied (joined chunks last_chunk))
          | inr e ↦ rw e refl
        ])
