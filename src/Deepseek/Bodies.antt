-- ===== src/Deepseek/Bodies.antt =====
-- What the extra fields of a request can change in its chat body, in deepseek.py.
use mathlib.Core.Bool.{true≢false}
use reverso_llm.Prelude.{
  sym, ap, Bool-cases, inl, inr, String, Bool, true, false, List, [], ◌∷◌, ◌≡◌, refl, ◌∙◌,
  if◌then◌else◌, ◌==◌, text_key, contains, arith, Option,
}
use reverso_llm.Json.{
  Json, null, bool, int, real, str, arr, obj, items, Fields, end, field, get, put, get-put, is_some,
}
use reverso_llm.Outcome.{Outcome, ok, raised, ◌>>=◌}
use reverso_llm.Routing.Models.{resolve_profile_model}
use reverso_llm.Responses.Replay.{update}
use reverso_llm.Responses.Store.{ResponseStore}
use reverso_llm.Features.Responses.{ResponsesRequest}
use reverso_llm.Deepseek.{
  format_of, max_tokens, translate_extras, forward, non_forwarded_extra, model_text, tools_field,
  choice_field, stream_options, build_messages, build_body,
}

-- The keys of a chat body that the adapter fills from a request's own fields, but for stream_options.
abbrev pub owned_keys : List String
owned_keys = "model" ∷ "messages" ∷ "stream" ∷ "tools" ∷ "tool_choice" ∷ []

owned-denied :
    (owned : String) → contains owned owned_keys ≡ true → contains owned non_forwarded_extra ≡ true
unfolding contains
owned-denied owned h = ground arith

owned-other :
    (owned key : String)
    → contains owned owned_keys ≡ true
    → contains key owned_keys ≡ false
    → (key == owned) ≡ false
owned-other owned key h e = elim (Bool-cases (key == owned)) [
  | inl same ↦ absurd (
      true≢false
        (sym h ∙ ap (λ k. contains k owned_keys) (sym ((text_key.same_iff key owned).0 same)) ∙ e))
  | inr other ↦ other
]

get-forward_one :
    (key owned : String) (value : Json) (body : Fields)
    → contains owned non_forwarded_extra ≡ true
    → get owned (if contains key non_forwarded_extra then body else put key value body)
      ≡ get owned body
get-forward_one key owned value body h = elim (Bool-cases (contains key non_forwarded_extra)) [
  | inl e ↦ rw e refl
  | inr e ↦ rw e (rw (get-put key owned value body, different key owned e h) refl)
]
  where
    different :
        (key owned : String)
        → contains key non_forwarded_extra ≡ false
        → contains owned non_forwarded_extra ≡ true
        → (key == owned) ≡ false
    different key owned e h = elim (Bool-cases (key == owned)) [
      | inl same ↦ absurd (
          true≢false (
            sym h
            ∙ ap (λ k. contains k non_forwarded_extra) (sym ((text_key.same_iff key owned).0 same))
            ∙ e))
      | inr other ↦ other
    ]

get-forward :
    (owned : String) (extra body : Fields)
    → contains owned non_forwarded_extra ≡ true
    → get owned (forward extra body) ≡ get owned body
unfolding forward
get-forward owned end body h = refl
get-forward owned (field key value extra) body h =
    get-forward owned extra _ h ∙ get-forward_one key owned value body h

-- A field that is not owned leaves what is read under an owned key.
get-put_other :
    (owned key : String) (value : Json) (body : Fields)
    → contains owned owned_keys ≡ true
    → contains key owned_keys ≡ false
    → get owned (put key value body) ≡ get owned body
get-put_other owned key value body h e =
    rw (get-put key owned value body, owned-other owned key h e) refl

get-update_tokens :
    (owned : String) (tokens : Json) (body : Fields)
    → contains owned owned_keys ≡ true
    → get owned (update body (max_tokens tokens)) ≡ get owned body
unfolding update contains
get-update_tokens owned (int n) body h = get-put_other owned "max_tokens" _ body h refl
get-update_tokens owned (bool b) body h = get-put_other owned "max_tokens" _ body h refl
get-update_tokens owned null body h = refl
get-update_tokens owned (real _ _) body h = refl
get-update_tokens owned (str _) body h = refl
get-update_tokens owned (arr _) body h = refl
get-update_tokens owned (obj _) body h = refl

get-update_extras :
    (owned : String) (extra body : Fields)
    → contains owned owned_keys ≡ true
    → get owned (update body (translate_extras extra)) ≡ get owned body
unfolding update translate_extras contains
get-update_extras owned extra body h = elim (Bool-cases (is_some (format_of (get "text" extra)))) [
  | inl e ↦ rw e (
      get-update_tokens owned (get "max_output_tokens" extra) _ h
      ∙ get-put_other owned "response_format" _ body h refl)
  | inr e ↦ rw e (get-update_tokens owned (get "max_output_tokens" extra) body h)
]

get-extras :
    (owned : String) (extra body : Fields)
    → contains owned owned_keys ≡ true
    → get owned (forward extra (update body (translate_extras extra))) ≡ get owned body
get-extras owned extra body h =
    get-forward owned extra _ (owned-denied owned h) ∙ get-update_extras owned extra body h

module _ (dumps : Json → Option String) (str_of : Json → String) (owned : String)
    (is_owned : contains owned owned_keys ≡ true) (request : ResponsesRequest) (stream : Bool) where
  -- The body in front of the extra fields.
  abbrev asked : String → List Json → Fields → Fields
  asked model messages tools = choice_field request.tool_choice (
      update
        (stream_options stream (
          field "model" (str (resolve_profile_model "deepseek" model))
            (field "messages" (arr (items messages)) (field "stream" (bool stream) end))))
        tools)

  -- What is read under the key, whatever the calls in front of the extra fields give.
  read_alike :
      (m : Outcome String) (n : Outcome (List Json)) (t : Outcome Fields) (extra : Fields)
      → ((m >>= (λ model. n >>= (λ messages. t >>= (λ tools.
            ok (forward extra (update (asked model messages tools) (translate_extras extra)))))))
          >>= (λ body. ok (get owned body)))
        ≡ (m >>= (λ model.
            n >>= (λ messages. t >>= (λ tools. ok (get owned (asked model messages tools))))))
  read_alike (raised _) n t extra = refl
  read_alike (ok model) (raised _) t extra = refl
  read_alike (ok model) (ok messages) (raised _) extra = refl
  read_alike (ok model) (ok messages) (ok tools) extra =
      ap (λ v. ok v) (get-extras owned extra (asked model messages tools) is_owned)

  -- No extra field replaces one that the adapter fills from the request's own: the model, the messages,
  -- the stream flag, the tools and the tool choice of a body, and whether it is built at all, are the same
  -- as if the request had no extra fields.
  pub get-build_body :
      (store : ResponseStore) (extra : Fields)
      → (build_body dumps str_of (record request { extra = extra }) stream store
          >>= (λ body. ok (get owned body)))
        ≡ (build_body dumps str_of (record request { extra = end }) stream store
            >>= (λ body. ok (get owned body)))
  unfolding build_body
  get-build_body store extra =
      read_alike (model_text request.model) (build_messages dumps str_of request store)
        (tools_field request.tools) extra
      ∙ sym (
          read_alike (model_text request.model) (build_messages dumps str_of request store)
            (tools_field request.tools) end)
