-- ===== src/OpenRouter/Continuation.antt =====
-- reverso/protocols/adapters/openrouter/continuation.py: the typed chain that stands for a stateless
-- upstream's memory.
pub mod Requests
use reverso_llm.Prelude.{
  String, Bool, true, false, not, Option, none, some, List, [], ◌∷◌, if◌then◌else◌, ◌==◌, text_key,
  contains, any,
}
use reverso_llm.Json.{Json, null, bool, str, arr, obj, nil, cons, items, Fields, end, field}
use reverso_llm.Outcome.{Outcome, ok, raised, ◌>>=◌}

pub record ReplayItem : Type 0 where
  pub role : String
  pub content : String
  pub reasoning : Option String
  pub tool_call_id : Option String
  pub tool_name : Option String
  pub tool_arguments : Option Fields
  pub tool_output : Json
  pub response_id : Option String

pub record ReplayChain : Type 0 where
  pub response_id : String
  pub items : List ReplayItem

-- `self.tool_call_id or ""`
abbrev pub text_or_empty : Option String → String
text_or_empty none = ""
text_or_empty (some s) = s

abbrev pub speaking_roles : List String
speaking_roles = "assistant" ∷ "user" ∷ "system" ∷ "developer" ∷ []

abbrev pub tool_item : ReplayItem → Json
tool_item item = obj (
    field "type" (str "function_call_output") (
      field "call_id" (str (text_or_empty item.tool_call_id))
        (field "output" item.tool_output end)))

abbrev pub message_item : ReplayItem → Json
message_item item = obj (
    field "type" (str "message") (
      field "role" (str item.role) (
        field "content"
          (arr (
            cons
              (obj (
                field "type"
                  (str (if item.role == "assistant" then "output_text" else "input_text"))
                  (field "text" (str item.content) end)))
              nil))
          end)))

unfoldable pub to_input_item : ReplayItem → Outcome Json
to_input_item item =
    if item.role == "tool"
    then ok (tool_item item)
    else if contains item.role speaking_roles
    then ok (message_item item)
    else raised "ContinuationRejection"

unfoldable pub has_tool_calls : ReplayChain → Bool
unfolding any
has_tool_calls chain = any (λ (item : ReplayItem). item.role == "tool") chain.items

abbrev pub is_known_role : String → Bool
is_known_role role = contains role ("user" ∷ "assistant" ∷ "tool" ∷ "system" ∷ "developer" ∷ [])

materialize_items : List ReplayItem → ReplayChain → Outcome ReplayChain
materialize_items [] chain = raised "ContinuationRejection"
materialize_items (item ∷ rest) chain =
    if not (any (λ (i : ReplayItem). i.role == "assistant") (item ∷ rest))
    then raised "ContinuationRejection"
    else if any (λ (i : ReplayItem). not (is_known_role i.role)) (item ∷ rest)
    then raised "ContinuationRejection"
    else ok chain

-- The `store` argument of the source is never read, and has no place here.
unfoldable pub materialize_continuation : Option ReplayChain → Outcome ReplayChain
unfolding materialize_items
materialize_continuation none = raised "ContinuationRejection"
materialize_continuation (some chain) = materialize_items chain.items chain

unfoldable pub input_items : List ReplayItem → Outcome (List Json)
input_items [] = ok []
input_items (item ∷ rest) = do
  first ← to_input_item item
  others ← input_items rest
  ok (first ∷ others)

unfoldable pub build_continuation_request : String → ReplayChain → Outcome Fields
build_continuation_request model chain = do
  input ← input_items chain.items
  ok (
      field "model" (str model)
        (field "input" (arr (items input)) (field "stream" (bool false) end)))
