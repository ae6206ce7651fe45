-- ===== src/Normalizer.antt =====
-- reverso/middleware/codex_responses_normalizer.py: the payload of a Codex request without what
-- OpenAI-compatible providers reject. `loads` and `dumps` are the calls of json.
pub mod Requests
pub mod Sequence
use Prim.Native.String.{◌++◌ as str_append}
use reverso_llm.Prelude.{
  String, Bool, true, false, not, ◌&&◌, ◌||◌, List, [], ◌∷◌, ◌++◌, if◌then◌else◌, ◌==◌, text_key,
  contains,
}
use reverso_llm.Json.{
  Json, null, bool, int, real, str, arr, obj, Items, nil, cons, items, elems, Fields, end, field,
  get, has, put, pop, is_text, truthy,
}
use reverso_llm.Outcome.{Outcome, ok, raised}
use reverso_llm.Texts.{join_with, text_in}
use reverso_llm.Bytes.{Bytes}
use reverso_llm.Routing.Workspace.{unless_malformed}

dict_texts : Items → List String
dict_texts nil = []
dict_texts (cons (obj item) rest) = text_in (get "text" item) (dict_texts rest)
dict_texts (cons _ rest) = dict_texts rest

unfoldable pub content_to_text : Json → String
unfolding dict_texts
content_to_text (str s) = s
content_to_text (arr parts) = join_with "\n" (dict_texts parts)
content_to_text _ = ""

abbrev pub is_kind : String → Json → Bool
is_kind kind (obj item) = is_text kind (get "type" item)
is_kind kind _ = false

unfoldable pub is_assistant_message_item : Json → Bool
is_assistant_message_item (obj item) =
    is_text "message" (get "type" item) && is_text "assistant" (get "role" item)
is_assistant_message_item _ = false

-- The pending ids, a set.
abbrev pub add_id : Json → List String → List String
add_id (str id) pending = if contains id pending then pending else id ∷ pending
add_id _ pending = pending

unfoldable pub without_id : String → List String → List String
without_id id [] = []
without_id id (j ∷ pending) = let rest = without_id id pending in if j == id then rest else j ∷ rest

abbrev pub discard_id : Json → List String → List String
discard_id (str id) pending = without_id id pending
discard_id _ pending = pending

abbrev pub call_id_of : Json → Json
call_id_of (obj item) = get "call_id" item
call_id_of _ = null

abbrev pub any_pending : List String → Bool
any_pending [] = false
any_pending (_ ∷ _) = true

-- The pending ids behind an item that is kept.
unfoldable pub pending_after : Json → List String → List String
pending_after item pending =
    if is_kind "function_call" item
    then add_id (call_id_of item) pending
    else if is_kind "function_call_output" item
    then discard_id (call_id_of item) pending
    else pending

-- `if pending_call_ids and _is_assistant_message_item(item)`, on an item that is no call
unfoldable pub is_dropped : Json → List String → Bool
is_dropped item pending =
    not (is_kind "function_call" item) && any_pending pending && is_assistant_message_item item

-- The loop, with the pending ids.
unfoldable pub sanitize : List String → List Json → List Json
sanitize pending [] = []
sanitize pending (item ∷ rest) =
    let after = if is_dropped item pending then pending else pending_after item pending in
    let kept = sanitize after rest in if is_dropped item pending then kept else item ∷ kept

abbrev pub sanitize_input_tool_sequence : List Json → List Json
sanitize_input_tool_sequence vs = sanitize [] vs

abbrev is_developer : Json → Bool
is_developer (obj item) = is_text "developer" (get "role" item)
is_developer _ = false

abbrev content_of : Json → Json
content_of (obj item) = get "content" item
content_of _ = null

developer_chunks : List Json → List String
developer_chunks [] = []
developer_chunks (item ∷ rest) =
    let chunks = developer_chunks rest in
    let text = content_to_text (content_of item) in
    if is_developer item && truthy (str text) then text ∷ chunks else chunks

rewritten_input : List Json → List Json
rewritten_input [] = []
rewritten_input (item ∷ rest) =
    let others = rewritten_input rest in if is_developer item then others else item ∷ others

abbrev text_or_empty : Json → String
text_or_empty (str s) = s
text_or_empty _ = ""

-- `if developer_chunks`
with_developer : List String → Fields → Fields
with_developer [] payload = payload
with_developer (chunk ∷ chunks) payload =
    let prefix = text_or_empty (get "instructions" payload) in
    let developer = str_append "Developer instructions:\n" (join_with "\n\n" (chunk ∷ chunks)) in
    put "instructions"
      (str (
        join_with "\n\n" (if truthy (str prefix) then prefix ∷ developer ∷ [] else developer ∷ [])))
      payload

with_input : Json → Fields → Fields
unfolding developer_chunks rewritten_input with_developer
with_input (arr vs) payload =
    put "input" (arr (items (sanitize_input_tool_sequence (rewritten_input (elems vs)))))
      (with_developer (developer_chunks (elems vs)) payload)
with_input _ payload = payload

function_tools : List Json → List Json
function_tools [] = []
function_tools (tool ∷ tools) =
    let rest = function_tools tools in if is_kind "function" tool then tool ∷ rest else rest

abbrev name_of : Json → List String → List String
name_of (obj tool) names = text_in (get "name" tool) names
name_of _ names = names

function_tool_names : List Json → List String
function_tool_names [] = []
function_tool_names (tool ∷ tools) = name_of tool (function_tool_names tools)

is_named : Json → List String → Bool
is_named (obj function) names = elim (get "name" function) [
  | str name ↦ contains name names
  | _ ↦ false
]
is_named _ names = false

unfoldable pub is_valid_tool_choice : Json → List String → Bool
unfolding is_named
is_valid_tool_choice (str choice) names =
    choice == "auto" || choice == "none" || choice == "required"
is_valid_tool_choice (obj choice) names =
    if is_text "function" (get "type" choice) then is_named (get "function" choice) names else false
is_valid_tool_choice _ names = false

chosen : List Json → Fields → Fields
unfolding function_tool_names
chosen [] payload = pop "tool_choice" (pop "tools" payload)
chosen (tool ∷ tools) payload =
    let set = put "tools" (arr (items (tool ∷ tools))) payload in
    if has "tool_choice" set
      && not (is_valid_tool_choice (get "tool_choice" set) (function_tool_names (tool ∷ tools)))
    then pop "tool_choice" set
    else set

with_tools : Json → Fields → Fields
unfolding function_tools chosen
with_tools (arr tools) payload = chosen (function_tools (elems tools)) payload
with_tools _ payload = payload

abbrev pub codex_only : List String
codex_only =
    "parallel_tool_calls" ∷ "reasoning" ∷ "context_management" ∷ "include" ∷ "prompt_cache_key"
    ∷ "safety_identifier" ∷ "service_tier" ∷ "store" ∷ "truncation" ∷ []

unfoldable pub pop_all : List String → Fields → Fields
pop_all [] payload = payload
pop_all (key ∷ keys) payload = pop_all keys (pop key payload)

unfoldable pub normalize_codex_responses_payload : Fields → Fields
unfolding with_input with_tools
normalize_codex_responses_payload payload =
    let merged = with_input (get "input" payload) payload in
    pop_all codex_only (with_tools (get "tools" merged) merged)

-- `normalized == payload`, as `same` decides it: with equal payloads the body is sent on as it came.
module _ (loads : Bytes → Outcome Json) (dumps : Json → Bytes) (same : Fields → Fields → Bool) where
  normalized_body : Bytes → Json → Outcome Bytes
  normalized_body body (obj payload) =
      let normalized = normalize_codex_responses_payload payload in
      ok (if same normalized payload then body else dumps (obj normalized))
  normalized_body body _ = ok body

  unfoldable pub normalize_body : Bytes → Outcome Bytes
  unfolding normalized_body
  normalize_body body = unless_malformed body (normalized_body body) (loads body)
