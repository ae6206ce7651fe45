-- ===== src/Anthropic/Requests/Grouping.antt =====
-- The grouping of content blocks into items in anthropic_translate.py.
use Prim.Native.String.{◌++◌ as str_append}
use mathlib.Core.List.{append_assoc, append-nil, map-append}
use reverso_llm.Prelude.{
  String, Option, List, [], ◌∷◌, ◌++◌, ◌≡◌, refl, sym, ap, ◌∙◌, map, if◌then◌else◌, ◌==◌, true,
  text_key, Bool-cases, inl, inr,
}
use reverso_llm.Json.{
  Json, null, bool, int, real, str, arr, obj, Items, nil, cons, elems, elems-items, Fields, end,
  field, get, is_some, is_text, truthy,
}
use reverso_llm.Anthropic.Requests.{
  dump_arguments, tool_result_content_text, is_true, text_part, image_part, request_message_item,
  function_call_item, function_call_output_item, flush, with_text, block_step, block_items,
  message_to_items, role_or_user, message_list_items, messages_to_input_items,
}

-- What a conversation is made of: a content part under a role, or a call or its output.
pub data Entry : Type 0 where
  part : (role : String) → Json → Entry
  structural : Json → Entry

-- A text as a part: the assistant's is output, any other input.
abbrev pub text_entry : String → String → Entry
text_entry role t = part role (
    obj (
      field "type" (str (if role == "assistant" then "output_text" else "input_text"))
        (field "text" (str t) end)))

-- An image as a part, with its source if there is one.
abbrev pub image_entry : String → Json → Entry
image_entry role source = part role (
    obj (
      field "type" (str "input_image") (if is_some source then field "source" source end else end)))

-- A tool_use block as a call.
abbrev pub call_entry : (Json → Option String) → Fields → Entry
call_entry dumps block = structural (
    obj (
      field "type" (str "function_call") (
        field "call_id" (get "id" block) (
          field "name" (get "name" block)
            (field "arguments" (str (dump_arguments dumps (get "input" block))) end)))))

-- A tool_result block as an output, marked if it tells of an error.
abbrev pub output_entry : Fields → Entry
output_entry block =
    let text = tool_result_content_text (get "content" block) in
    structural (
      if is_true (get "is_error" block)
      then obj (
          field "type" (str "function_call_output") (
            field "call_id" (get "tool_use_id" block) (
              field "output" (str (str_append "[tool_error] " text))
                (field "is_error" (bool true) end))))
      else obj (
          field "type" (str "function_call_output")
            (field "call_id" (get "tool_use_id" block) (field "output" (str text) end))))

abbrev pub text_entries : String → Json → List Entry
text_entries role (str t) = text_entry role t ∷ []
text_entries role _ = []

abbrev pub string_entries : String → String → List Entry
string_entries role s = if truthy (str s) then text_entry role s ∷ [] else []

-- What a block gives, with no view of its neighbours: nothing for a kind that is not translated.
abbrev pub block_entries : (Json → Option String) → String → Fields → List Entry
block_entries dumps role block =
    let kind = get "type" block in
    if is_text "text" kind
    then text_entries role (get "text" block)
    else if is_text "image" kind
    then image_entry role (get "source" block) ∷ []
    else if is_text "tool_use" kind
    then call_entry dumps block ∷ []
    else if is_text "tool_result" kind
    then output_entry block ∷ []
    else []

unfoldable pub content_entries : (Json → Option String) → String → Items → List Entry
content_entries dumps role nil = []
content_entries dumps role (cons (obj block) blocks) =
    block_entries dumps role block ++ content_entries dumps role blocks
content_entries dumps role (cons _ blocks) = content_entries dumps role blocks

abbrev pub content_value_entries : (Json → Option String) → String → Json → List Entry
content_value_entries dumps role (str s) = string_entries role s
content_value_entries dumps role (arr blocks) = content_entries dumps role blocks
content_value_entries dumps role _ = []

unfoldable pub message_entries : (Json → Option String) → Items → List Entry
message_entries dumps nil = []
message_entries dumps (cons (obj message) messages) =
    content_value_entries dumps (role_or_user (get "role" message)) (get "content" message)
    ++ message_entries dumps messages
message_entries dumps (cons _ messages) = message_entries dumps messages

abbrev pub role_of : Json → String
role_of (str role) = role
role_of _ = ""

abbrev pub parts_of : Json → List Json
parts_of (arr vs) = elems vs
parts_of _ = []

-- An item opened again.
unfoldable pub opened : Json → List Entry
opened (obj item) =
    if is_text "message" (get "type" item)
    then map (part (role_of (get "role" item))) (parts_of (get "content" item))
    else structural (obj item) ∷ []
opened _ = []

unfoldable pub all_opened : List Json → List Entry
all_opened [] = []
all_opened (item ∷ rest) = opened item ++ all_opened rest

opened-flush :
    (role : String) (parts : List Json) → all_opened (flush role parts) ≡ map (part role) parts
unfolding all_opened opened request_message_item get
opened-flush role [] = refl
opened-flush role (p ∷ ps) = append-nil _ ∙ ap (map (part role)) (elems-items (p ∷ ps))

all_opened-append : (xs ys : List Json) → all_opened (xs ++ ys) ≡ all_opened xs ++ all_opened ys
unfolding all_opened
all_opened-append [] ys = refl
all_opened-append (x ∷ xs) ys =
    ap (λ rest. opened x ++ rest) (all_opened-append xs ys) ∙ sym (append_assoc (opened x) _ _)

with_text-part :
    (role : String) (text : Json) (pending : List Json)
    → map (part role) (with_text role text pending)
      ≡ map (part role) pending ++ text_entries role text
with_text-part role (str t) pending = map-append (part role) pending (text_part role t ∷ [])
with_text-part role null pending = sym (append-nil _)
with_text-part role (bool _) pending = sym (append-nil _)
with_text-part role (int _) pending = sym (append-nil _)
with_text-part role (real _ _) pending = sym (append-nil _)
with_text-part role (arr _) pending = sym (append-nil _)
with_text-part role (obj _) pending = sym (append-nil _)

module _ (dumps : Json → Option String) (role : String) where
  -- A call or an output behind the flushed parts.
  opened-structural :
      (pending : List Json) (item : Json) (entry : Entry)
      → opened item ≡ entry ∷ []
      → all_opened (flush role pending ++ item ∷ []) ++ [] ≡ map (part role) pending ++ entry ∷ []
  unfolding all_opened
  opened-structural pending item entry e =
      append-nil _
      ∙ all_opened-append (flush role pending) (item ∷ [])
      ∙ rw (opened-flush role pending, e) refl

  opened-function_call_item :
      (b : Fields) → opened (function_call_item dumps b) ≡ call_entry dumps b ∷ []
  unfolding opened function_call_item get
  opened-function_call_item b = refl

  opened-function_call_output_item :
      (b : Fields) → opened (function_call_output_item b) ≡ output_entry b ∷ []
  unfolding opened function_call_output_item get
  opened-function_call_output_item b = elim (Bool-cases (is_true (get "is_error" b))) [
    | inl e ↦ rw e refl
    | inr e ↦ rw e refl
  ]

  opened-block_step :
      (b : Fields) (pending : List Json)
      → all_opened (block_step dumps role b pending).0
          ++ map (part role) (block_step dumps role b pending).1
        ≡ map (part role) pending ++ block_entries dumps role b
  unfolding block_step all_opened
  opened-block_step b pending = elim (Bool-cases (is_text "text" (get "type" b))) [
    | inl e ↦ rw e (with_text-part role (get "text" b) pending)
    | inr e ↦ rw e (elim (Bool-cases (is_text "image" (get "type" b))) [
      | inl e ↦ rw e (map-append (part role) pending (image_part b ∷ []))
      | inr e ↦ rw e (elim (Bool-cases (is_text "tool_use" (get "type" b))) [
        | inl e ↦ rw e (
            opened-structural pending (function_call_item dumps b) (call_entry dumps b)
              (opened-function_call_item b))
        | inr e ↦ rw e (elim (Bool-cases (is_text "tool_result" (get "type" b))) [
          | inl e ↦ rw e (
              opened-structural pending (function_call_output_item b) (output_entry b)
                (opened-function_call_output_item b))
          | inr e ↦ rw e (sym (append-nil _))
        ])
      ])
    ])
  ]

  opened-block_items :
      (blocks : Items) (pending : List Json)
      → all_opened (block_items dumps role blocks pending)
        ≡ map (part role) pending ++ content_entries dumps role blocks
  unfolding block_items content_entries
  opened-block_items nil pending = opened-flush role pending ∙ sym (append-nil _)
  opened-block_items (cons (obj b) blocks) pending =
      all_opened-append (block_step dumps role b pending).0 _
      ∙ ap (λ rest. all_opened (block_step dumps role b pending).0 ++ rest)
          (opened-block_items blocks (block_step dumps role b pending).1)
      ∙ sym (append_assoc (all_opened (block_step dumps role b pending).0) _ _)
      ∙ ap (λ rest. rest ++ content_entries dumps role blocks) (opened-block_step b pending)
      ∙ append_assoc (map (part role) pending) _ _
  opened-block_items (cons null blocks) pending = opened-block_items blocks pending
  opened-block_items (cons (bool _) blocks) pending = opened-block_items blocks pending
  opened-block_items (cons (int _) blocks) pending = opened-block_items blocks pending
  opened-block_items (cons (real _ _) blocks) pending = opened-block_items blocks pending
  opened-block_items (cons (str _) blocks) pending = opened-block_items blocks pending
  opened-block_items (cons (arr _) blocks) pending = opened-block_items blocks pending

opened-message_to_items :
    (dumps : Json → Option String) (role : String) (content : Json)
    → all_opened (message_to_items dumps role content) ≡ content_value_entries dumps role content
unfolding message_to_items all_opened
opened-message_to_items dumps role (str s) = elim (Bool-cases (truthy (str s))) [
  | inl e ↦ rw e (opened-flush role (text_part role s ∷ []))
  | inr e ↦ rw e refl
]
opened-message_to_items dumps role (arr blocks) = opened-block_items dumps role blocks []
opened-message_to_items dumps role null = refl
opened-message_to_items dumps role (bool _) = refl
opened-message_to_items dumps role (int _) = refl
opened-message_to_items dumps role (real _ _) = refl
opened-message_to_items dumps role (obj _) = refl

-- The input items of a conversation, opened again, are the entries of its content blocks in their order:
-- a part under the message's role for every image and every text block whose text is a string, a call
-- with its id, name and dumped input for every tool_use block, and an output with its id and text, marked
-- if it tells of an error, for every tool_result block. A block of any other kind, such as
-- thinking or document, has no entry. Grouping the parts into messages loses, adds and reorders none.
pub opened-messages_to_input_items :
    (dumps : Json → Option String) (messages : Items)
    → all_opened (messages_to_input_items dumps (arr messages)) ≡ message_entries dumps messages
unfolding message_list_items message_entries all_opened
opened-messages_to_input_items dumps nil = refl
opened-messages_to_input_items dumps (cons (obj message) messages) =
    all_opened-append
      (message_to_items dumps (role_or_user (get "role" message)) (get "content" message)) _
    ∙ rw
        (
          opened-message_to_items dumps (role_or_user (get "role" message)) (get "content" message),
          opened-messages_to_input_items dumps messages,
        )
        refl
opened-messages_to_input_items dumps (cons null messages) =
    opened-messages_to_input_items dumps messages
opened-messages_to_input_items dumps (cons (bool _) messages) =
    opened-messages_to_input_items dumps messages
opened-messages_to_input_items dumps (cons (int _) messages) =
    opened-messages_to_input_items dumps messages
opened-messages_to_input_items dumps (cons (real _ _) messages) =
    opened-messages_to_input_items dumps messages
opened-messages_to_input_items dumps (cons (str _) messages) =
    opened-messages_to_input_items dumps messages
opened-messages_to_input_items dumps (cons (arr _) messages) =
    opened-messages_to_input_items dumps messages
