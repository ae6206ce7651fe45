-- ===== src/OpenRouter/Continuation/Requests.antt =====
-- What a materialized chain guarantees to the request that is built from it.
use reverso_llm.Prelude.{
  String, true, false, not, some, List, [], ◌∷◌, ◌==◌, text_key, contains, any, ◌≡◌, refl, arith,
  ◌≢◌, Bool-cases, inl, inr, ◌⊎◌, if◌then◌else◌,
}
use reverso_llm.Json.{Json, str, bool, arr, obj, items, Fields, end, field, get, has, field_of}
use reverso_llm.Outcome.{ok}
use reverso_llm.OpenRouter.Continuation.{
  ReplayItem, ReplayChain, to_input_item, is_known_role, materialize_items,
  materialize_continuation, input_items, build_continuation_request, text_or_empty, speaking_roles,
  tool_item, message_item,
}

-- The kind of a text part, by who speaks.
abbrev pub IsSpoken : String → Json → Type 0
IsSpoken role kind =
    ((role ≡ "assistant") × (kind ≡ str "output_text"))
    ⊎ ((role ≢ "assistant") × (kind ≡ str "input_text"))

-- The input item that stands for an item of the chain: a tool's output under its call id, or a
-- message with the item's role whose one part is the item's text, an assistant's as output and any
-- other as input.
abbrev pub Renders : ReplayItem → Json → Type 0
Renders item v =
    ((item.role ≡ "tool")
      × (field_of "type" v ≡ str "function_call_output")
      × (field_of "call_id" v ≡ str (text_or_empty item.tool_call_id))
      × (field_of "output" v ≡ item.tool_output))
    ⊎ ((item.role ≢ "tool")
        × (field_of "type" v ≡ str "message")
        × (field_of "role" v ≡ str item.role)
        × ((part : Fields) × (field_of "content" v ≡ arr (items (obj part ∷ [])))
            × (get "text" part ≡ str item.content)
            × IsSpoken item.role (get "type" part)))

speaks :
    (role : String)
    → is_known_role role ≡ true
    → (role == "tool") ≡ false
    → contains role speaking_roles ≡ true
unfolding contains
speaks role h t = ground (arith, text_key.same_iff "tool" role, text_key.same_iff role "tool")

not_tool : (role : String) → (role == "tool") ≡ false → role ≢ "tool"
not_tool role e t = cc (e, (text_key.same_iff role "tool").1 t)

kind-IsSpoken :
    (role : String)
    → IsSpoken role (str (if role == "assistant" then "output_text" else "input_text"))
kind-IsSpoken role = elim (Bool-cases (role == "assistant")) [
  | inl e ↦ rw e (inl ((text_key.same_iff role "assistant").0 e, refl))
  | inr e ↦ rw e (inr (λ t. cc (e, (text_key.same_iff role "assistant").1 t), refl))
]

IsSpoken-message_item :
    (item : ReplayItem)
    → (part : Fields) × (field_of "content" (message_item item) ≡ arr (items (obj part ∷ [])))
      × (get "text" part ≡ str item.content)
      × IsSpoken item.role (get "type" part)
unfolding get
IsSpoken-message_item item = (_, refl, refl, kind-IsSpoken item.role)

to_input_item-Renders :
    (item : ReplayItem)
    → is_known_role item.role ≡ true
    → (v : Json) × (to_input_item item ≡ ok v) × Renders item v
unfolding to_input_item get
to_input_item-Renders item h = elim (Bool-cases (item.role == "tool")) [
  | inl e ↦ (tool_item item, rw e, inl ((text_key.same_iff item.role "tool").0 e, refl, refl, refl))
  | inr e ↦ (
    message_item item,
    rw (e, speaks item.role h e),
    inr (λ t. not_tool item.role e t, refl, refl, IsSpoken-message_item item),
  )
]

-- The input holds one item for each of the chain's, in order.
abbrev pub RendersAll : List ReplayItem → List Json → Type 0
RendersAll [] [] = Unit
RendersAll (i ∷ is) (v ∷ vs) = Renders i v × RendersAll is vs
RendersAll _ _ = ⊥

input_items-RendersAll :
    (is : List ReplayItem)
    → any (λ (i : ReplayItem). not (is_known_role i.role)) is ≡ false
    → (vs : List Json) × (input_items is ≡ ok vs) × RendersAll is vs
unfolding input_items any
input_items-RendersAll [] h = ([], refl, tt)
input_items-RendersAll (i ∷ is) h =
    let (v, first, renders) = to_input_item-Renders i (ground arith) in
    let (vs, others, all) = input_items-RendersAll is (ground arith) in
    (v ∷ vs, rw (first, others), (renders, all))

-- The body of a stateless request: the model, the whole chain as input, and no streaming; neither a
-- stored predecessor nor a request to store.
pub record IsStateless (model : String) (chain : ReplayChain) (body : Fields) : Type 0 where
  pub input : List Json
  pub renders : RendersAll chain.items input
  pub carries : get "input" body ≡ arr (items input)
  pub for_model : get "model" body ≡ str model
  pub unary : get "stream" body ≡ bool false
  pub no_predecessor : has "previous_response_id" body ≡ false
  pub no_store : has "store" body ≡ false

known_of_materialized :
    (is : List ReplayItem) (chain c : ReplayChain)
    → materialize_items is chain ≡ ok c
    → (any (λ (i : ReplayItem). not (is_known_role i.role)) is ≡ false)
      × (any (λ (i : ReplayItem). i.role == "assistant") is ≡ true)
      × (chain ≡ c)
unfolding materialize_items
known_of_materialized [] chain c h = absurd (ground arith)
known_of_materialized (i ∷ is) chain c h = ground arith

-- A chain that materializes has an assistant's reply and is handed back as it is, and the request
-- built from it succeeds, holds every item of the chain in order, a tool's output under its call id and
-- every other item's text under its role, and carries no previous_response_id and no store. An item's
-- reasoning, and the name and the arguments of a tool, are not part of the request.
pub build_continuation_request-IsStateless :
    (model : String) (chain c : ReplayChain)
    → materialize_continuation (some chain) ≡ ok c
    → (chain ≡ c)
      × (any (λ (i : ReplayItem). i.role == "assistant") chain.items ≡ true)
      × ((body : Fields) × (build_continuation_request model chain ≡ ok body)
          × IsStateless model chain body)
unfolding build_continuation_request materialize_continuation get has
build_continuation_request-IsStateless model chain c h =
    let (known, replied, same) = known_of_materialized chain.items chain c h in
    let (vs, built, renders) = input_items-RendersAll chain.items known in
    (
      same,
      replied,
      (
        field "model" (str model)
            (field "input" (arr (items vs)) (field "stream" (bool false) end)),
        rw built,
        record {
          input = vs;
          renders = renders;
          carries = refl;
          for_model = refl;
          unary = refl;
          no_predecessor = refl;
          no_store = refl;
        },
      ),
    )
