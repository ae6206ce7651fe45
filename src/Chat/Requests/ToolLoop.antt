-- ===== src/Chat/Requests/ToolLoop.antt =====
-- The calls and outputs of a conversation, in openai_chat.py and on their way to it.
use mathlib.Core.List.{append_assoc, append-nil, map-append}
use reverso_llm.Prelude.{
  String, ◌||◌, Option, List, [], ◌∷◌, ◌++◌, ◌≡◌, refl, sym, ap, ◌∙◌, map, if◌then◌else◌, arith,
  Bool-cases, inl, inr,
}
use reverso_llm.Json.{
  Json, null, bool, int, real, str, arr, obj, Items, nil, cons, elems, elems-items, Fields, get,
  field_of, has, is_text, is_some,
}
use reverso_llm.Responses.Prompts.{input_content_text}
use reverso_llm.Chat.Requests.{
  chat_call, with_call, flush_pending, role_message, tool_output_content, tool_message,
  other_messages, walk_step, walk, walk_input_items, text_or_empty,
}

-- What a conversation says, one entry for each message, call and output.
pub data Entry : Type 0 where
  said : (role text : String) → Entry
  call : (call_id name arguments : String) → Entry
  output : (call_id content : String) → Entry

-- The entries of an input item, with no view of its neighbours.
abbrev call_entries : Json → Json → Json → List Entry
call_entries (str call_id) (str name) arguments = call call_id name (text_or_empty arguments) ∷ []
call_entries _ _ _ = []

abbrev output_entries : Json → String → List Entry
output_entries (str call_id) content = output call_id content ∷ []
output_entries _ content = []

abbrev said_entries : Json → String → List Entry
said_entries (str role) text = said role text ∷ []
said_entries _ text = []

abbrev other_entries : (Json → Option String) → Fields → List Entry
other_entries dumps item =
    if is_text "function_call_output" (get "type" item)
    then output_entries (get "call_id" item) (tool_output_content dumps (get "output" item))
    else if is_text "message" (get "type" item) || is_some (get "role" item)
    then said_entries (get "role" item) (input_content_text item)
    else []

unfoldable pub item_entries : (Json → Option String) → Json → List Entry
item_entries dumps (obj item) =
    if is_text "function_call" (get "type" item)
    then call_entries (get "call_id" item) (get "name" item) (get "arguments" item)
    else other_entries dumps item
item_entries dumps _ = []

unfoldable pub all_entries : (Json → Option String) → Items → List Entry
all_entries dumps nil = []
all_entries dumps (cons item rest) = item_entries dumps item ++ all_entries dumps rest

-- A chat message opened again.
abbrev opened_call : Json → Entry
opened_call v =
    call (text_or_empty (field_of "id" v)) (text_or_empty (field_of "name" (field_of "function" v)))
      (text_or_empty (field_of "arguments" (field_of "function" v)))

abbrev calls_in : Json → List Json
calls_in (arr vs) = elems vs
calls_in _ = []

unfoldable pub opened : Json → List Entry
opened (obj message) =
    if has "tool_calls" message
    then map opened_call (calls_in (get "tool_calls" message))
    else if has "tool_call_id" message
    then output (text_or_empty (get "tool_call_id" message)) (text_or_empty (get "content" message))
      ∷ []
    else said (text_or_empty (get "role" message)) (text_or_empty (get "content" message)) ∷ []
opened _ = []

unfoldable pub all_opened : List Json → List Entry
all_opened [] = []
all_opened (message ∷ rest) = opened message ++ all_opened rest

all_opened-append : (xs ys : List Json) → all_opened (xs ++ ys) ≡ all_opened xs ++ all_opened ys
unfolding all_opened
all_opened-append [] ys = refl
all_opened-append (x ∷ xs) ys =
    ap (λ rest. opened x ++ rest) (all_opened-append xs ys) ∙ sym (append_assoc (opened x) _ _)

opened-flush_pending :
    (pending : List Json) → all_opened (flush_pending pending) ≡ map opened_call pending
unfolding all_opened opened flush_pending get has
opened-flush_pending [] = refl
opened-flush_pending (c ∷ cs) = append-nil _ ∙ ap (map opened_call) (elems-items (c ∷ cs))

opened-with_call :
    (call_id name arguments : Json) (pending : List Json)
    → map opened_call (with_call call_id name arguments pending)
      ≡ map opened_call pending ++ call_entries call_id name arguments
unfolding chat_call get
opened-with_call (str c) (str n) arguments pending =
    map-append opened_call pending (chat_call c n (text_or_empty arguments) ∷ [])
opened-with_call (str c) null arguments pending = sym (append-nil _)
opened-with_call (str c) (bool _) arguments pending = sym (append-nil _)
opened-with_call (str c) (int _) arguments pending = sym (append-nil _)
opened-with_call (str c) (real _ _) arguments pending = sym (append-nil _)
opened-with_call (str c) (arr _) arguments pending = sym (append-nil _)
opened-with_call (str c) (obj _) arguments pending = sym (append-nil _)
opened-with_call null name arguments pending = sym (append-nil _)
opened-with_call (bool _) name arguments pending = sym (append-nil _)
opened-with_call (int _) name arguments pending = sym (append-nil _)
opened-with_call (real _ _) name arguments pending = sym (append-nil _)
opened-with_call (arr _) name arguments pending = sym (append-nil _)
opened-with_call (obj _) name arguments pending = sym (append-nil _)

opened-role_message :
    (role : Json) (text : String) → all_opened (role_message role text) ≡ said_entries role text
unfolding all_opened opened role_message get has
opened-role_message role text = ground arith

module _ (dumps : Json → Option String) where
  opened-tool_message :
      (call_id content : Json)
      → all_opened (tool_message dumps call_id content)
        ≡ output_entries call_id (tool_output_content dumps content)
  unfolding all_opened opened tool_message get has
  opened-tool_message call_id content = ground arith

  opened-other_messages :
      (item : Fields) → all_opened (other_messages dumps item) ≡ other_entries dumps item
  unfolding other_messages all_opened
  opened-other_messages item = ground (
    arith,
    opened-tool_message (get "call_id" item) (get "output" item),
    opened-role_message (get "role" item) (input_content_text item),
  )

  opened-walk_step :
      (item : Fields) (pending : List Json)
      → all_opened (walk_step dumps item pending).0
          ++ map opened_call (walk_step dumps item pending).1
        ≡ map opened_call pending ++ item_entries dumps (obj item)
  unfolding walk_step all_opened item_entries
  opened-walk_step item pending = elim (Bool-cases (is_text "function_call" (get "type" item))) [
    | inl e ↦
        rw e
          (opened-with_call (get "call_id" item) (get "name" item) (get "arguments" item) pending)
    | inr e ↦ rw e (
        append-nil _
        ∙ all_opened-append (flush_pending pending) (other_messages dumps item)
        ∙ rw (opened-flush_pending pending, opened-other_messages item) refl)
  ]

  opened-walk :
      (vs : Items) (pending : List Json)
      → all_opened (walk dumps vs pending) ≡ map opened_call pending ++ all_entries dumps vs
  unfolding walk all_entries item_entries
  opened-walk nil pending = opened-flush_pending pending ∙ sym (append-nil _)
  opened-walk (cons (obj item) rest) pending =
      all_opened-append (walk_step dumps item pending).0 _
      ∙ ap (λ tail. all_opened (walk_step dumps item pending).0 ++ tail)
          (opened-walk rest (walk_step dumps item pending).1)
      ∙ sym (append_assoc (all_opened (walk_step dumps item pending).0) _ _)
      ∙ ap (λ head. head ++ all_entries dumps rest) (opened-walk_step item pending)
      ∙ append_assoc (map opened_call pending) _ _
  opened-walk (cons null rest) pending = opened-walk rest pending
  opened-walk (cons (bool _) rest) pending = opened-walk rest pending
  opened-walk (cons (int _) rest) pending = opened-walk rest pending
  opened-walk (cons (real _ _) rest) pending = opened-walk rest pending
  opened-walk (cons (str _) rest) pending = opened-walk rest pending
  opened-walk (cons (arr _) rest) pending = opened-walk rest pending

-- The chat messages of an input list, opened again, are an entry for each of its items in their
-- order: each call with its id, name and arguments, each output with its call's id and its text,
-- each message with its role and text. Gathering calls into messages loses, adds and reorders
-- nothing.
pub opened-walk_input_items :
    (dumps : Json → Option String) (vs : Items)
    → all_opened (walk_input_items dumps vs) ≡ all_entries dumps vs
opened-walk_input_items dumps vs = opened-walk dumps vs []
