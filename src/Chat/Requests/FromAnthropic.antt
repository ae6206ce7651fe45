-- ===== src/Chat/Requests/FromAnthropic.antt =====
-- The tool loop of an Anthropic conversation on its way to a chat upstream: anthropic_translate.py,
-- then openai_chat.py.
use Prim.Native.String.{◌++◌ as str_append}
use mathlib.Core.List.{append_assoc, append-nil}
use reverso_llm.Prelude.{
  String, true, Option, List, [], ◌∷◌, ◌++◌, ◌≡◌, refl, sym, ap, ◌∙◌, map, if◌then◌else◌, arith,
  text_key, Bool-cases, inl, inr,
}
use reverso_llm.Json.{
  Json, null, bool, int, real, str, arr, obj, Items, nil, cons, items, Fields, get, is_text,
}
use reverso_llm.Anthropic.Requests.{
  is_true, role_or_user, tool_result_content_text, dump_arguments, messages_to_input_items,
}
use reverso_llm.Anthropic.Requests.Grouping
use reverso_llm.Chat.Requests.{walk_input_items, tool_output_content}
use reverso_llm.Chat.Requests.ToolLoop.{
  Entry, said, call, output, item_entries, all_entries, all_opened, opened-walk_input_items,
}

-- The calls and outputs alone.
pub tools_of : List Entry → List Entry
tools_of [] = []
tools_of (said _ _ ∷ rest) = tools_of rest
tools_of (call id name arguments ∷ rest) = call id name arguments ∷ tools_of rest
tools_of (output id content ∷ rest) = output id content ∷ tools_of rest

tools_of-append : (xs ys : List Entry) → tools_of (xs ++ ys) ≡ tools_of xs ++ tools_of ys
unfolding tools_of
tools_of-append [] ys = refl
tools_of-append (said _ _ ∷ xs) ys = tools_of-append xs ys
tools_of-append (call id name arguments ∷ xs) ys =
    ap (λ l. call id name arguments ∷ l) (tools_of-append xs ys)
tools_of-append (output id content ∷ xs) ys =
    ap (λ l. output id content ∷ l) (tools_of-append xs ys)

-- A tool_use block with an id and a name that are texts.
abbrev use_entries : Json → Json → String → List Entry
use_entries (str id) (str name) arguments = call id name arguments ∷ []
use_entries _ _ arguments = []

abbrev result_entries : Json → String → List Entry
result_entries (str id) content = output id content ∷ []
result_entries _ content = []

abbrev blocks_in : Json → Items
blocks_in (arr blocks) = blocks
blocks_in _ = nil

module _ (dumps : Json → Option String) where
  -- What a content block asks of a tool, or hands back from one.
  pub block_tools : Fields → List Entry
  block_tools block =
      if is_text "tool_use" (get "type" block)
      then use_entries (get "id" block) (get "name" block)
          (dump_arguments dumps (get "input" block))
      else if is_text "tool_result" (get "type" block)
      then result_entries (get "tool_use_id" block) (
          if is_true (get "is_error" block)
          then str_append "[tool_error] " (tool_result_content_text (get "content" block))
          else tool_result_content_text (get "content" block))
      else []

  pub content_tools : Items → List Entry
  content_tools nil = []
  content_tools (cons (obj block) blocks) = block_tools block ++ content_tools blocks
  content_tools (cons _ blocks) = content_tools blocks

  pub message_tools : Items → List Entry
  message_tools nil = []
  message_tools (cons (obj message) messages) =
      content_tools (blocks_in (get "content" message)) ++ message_tools messages
  message_tools (cons _ messages) = message_tools messages

kind_of_text : (s : String) (v : Json) → is_text s v ≡ true → v ≡ str s
kind_of_text s (str t) h = ap str ((text_key.same_iff t s).0 h)
kind_of_text s null h = absurd (ground arith)
kind_of_text s (bool _) h = absurd (ground arith)
kind_of_text s (int _) h = absurd (ground arith)
kind_of_text s (real _ _) h = absurd (ground arith)
kind_of_text s (arr _) h = absurd (ground arith)
kind_of_text s (obj _) h = absurd (ground arith)

module _ (dumps : Json → Option String) where
  -- The tools of an entry that Grouping opens.
  abbrev part_tools : Grouping.Entry → List Entry
  part_tools (Grouping.part _ _) = []
  part_tools (Grouping.structural item) = tools_of (item_entries dumps item)

  links : List Grouping.Entry → List Entry
  links [] = []
  links (e ∷ es) = part_tools e ++ links es

  links-append : (xs ys : List Grouping.Entry) → links (xs ++ ys) ≡ links xs ++ links ys
  unfolding links
  links-append [] ys = refl
  links-append (x ∷ xs) ys =
      ap (λ l. part_tools x ++ l) (links-append xs ys) ∙ sym (append_assoc (part_tools x) _ _)

  links-part : (role : String) (vs : List Json) → links (map (Grouping.part role) vs) ≡ []
  unfolding links
  links-part role [] = refl
  links-part role (v ∷ vs) = links-part role vs

  message_item-tools :
      (item : Fields)
      → get "type" item ≡ str "message"
      → tools_of (item_entries dumps (obj item)) ≡ []
  unfolding item_entries tools_of
  message_item-tools item e = rw e (ground arith)

  links-opened_fields :
      (item : Fields)
      → tools_of (item_entries dumps (obj item)) ≡ links (Grouping.opened (obj item))
  unfolding links Grouping.opened
  links-opened_fields item = elim (Bool-cases (is_text "message" (get "type" item))) [
    | inl e ↦ rw e (
        message_item-tools item (kind_of_text "message" (get "type" item) e)
        ∙ sym (
            links-part (Grouping.role_of (get "role" item))
              (Grouping.parts_of (get "content" item))))
    | inr e ↦ rw e (sym (append-nil _))
  ]

  links-opened : (item : Json) → tools_of (item_entries dumps item) ≡ links (Grouping.opened item)
  unfolding item_entries Grouping.opened links tools_of
  links-opened (obj item) = links-opened_fields item
  links-opened null = refl
  links-opened (bool _) = refl
  links-opened (int _) = refl
  links-opened (real _ _) = refl
  links-opened (str _) = refl
  links-opened (arr _) = refl

  links-all_opened :
      (vs : List Json) → tools_of (all_entries dumps (items vs)) ≡ links (Grouping.all_opened vs)
  unfolding all_entries Grouping.all_opened tools_of links
  links-all_opened [] = refl
  links-all_opened (v ∷ vs) =
      tools_of-append (item_entries dumps v) _
      ∙ rw (links-opened v, links-all_opened vs) (sym (links-append (Grouping.opened v) _))

  links-call_entry :
      (encode : Json → Option String) (block : Fields)
      → part_tools (Grouping.call_entry encode block)
        ≡ use_entries
            (get "id" block)
            (get "name" block)
            (dump_arguments encode (get "input" block))
  unfolding item_entries tools_of get
  links-call_entry encode block = ground arith

  links-output_entry :
      (block : Fields)
      → part_tools (Grouping.output_entry block)
        ≡ result_entries (get "tool_use_id" block) (
            if is_true (get "is_error" block)
            then str_append "[tool_error] " (tool_result_content_text (get "content" block))
            else tool_result_content_text (get "content" block))
  unfolding item_entries tools_of get tool_output_content
  links-output_entry block = ground arith

  links-text_entries : (role : String) (text : Json) → links (Grouping.text_entries role text) ≡ []
  unfolding links
  links-text_entries role text = ground arith

  module _ (encode : Json → Option String) where
    links-block_entries :
        (role : String) (block : Fields)
        → links (Grouping.block_entries encode role block) ≡ block_tools encode block
    unfolding links block_tools
    links-block_entries role block = elim (Bool-cases (is_text "text" (get "type" block))) [
      | inl e ↦
          rw (kind_of_text "text" (get "type" block) e) (links-text_entries role (get "text" block))
      | inr e ↦ rw e (elim (Bool-cases (is_text "image" (get "type" block))) [
        | inl e ↦ rw (kind_of_text "image" (get "type" block) e) refl
        | inr e ↦ rw e (elim (Bool-cases (is_text "tool_use" (get "type" block))) [
          | inl e ↦ rw e (append-nil _ ∙ links-call_entry encode block)
          | inr e ↦ rw e (elim (Bool-cases (is_text "tool_result" (get "type" block))) [
            | inl e ↦ rw e (append-nil _ ∙ links-output_entry block)
            | inr e ↦ rw e refl
          ])
        ])
      ])
    ]

    links-content_entries :
        (role : String) (blocks : Items)
        → links (Grouping.content_entries encode role blocks) ≡ content_tools encode blocks
    unfolding Grouping.content_entries content_tools links
    links-content_entries role nil = refl
    links-content_entries role (cons (obj block) blocks) =
        links-append (Grouping.block_entries encode role block) _
        ∙ rw (links-block_entries role block, links-content_entries role blocks) refl
    links-content_entries role (cons null blocks) = links-content_entries role blocks
    links-content_entries role (cons (bool _) blocks) = links-content_entries role blocks
    links-content_entries role (cons (int _) blocks) = links-content_entries role blocks
    links-content_entries role (cons (real _ _) blocks) = links-content_entries role blocks
    links-content_entries role (cons (str _) blocks) = links-content_entries role blocks
    links-content_entries role (cons (arr _) blocks) = links-content_entries role blocks

    links-content_value_entries :
        (role : String) (content : Json)
        → links (Grouping.content_value_entries encode role content)
          ≡ content_tools encode (blocks_in content)
    unfolding links content_tools
    links-content_value_entries role (arr blocks) = links-content_entries role blocks
    links-content_value_entries role (str s) = ground arith
    links-content_value_entries role null = refl
    links-content_value_entries role (bool _) = refl
    links-content_value_entries role (int _) = refl
    links-content_value_entries role (real _ _) = refl
    links-content_value_entries role (obj _) = refl

    links-message_entries :
        (messages : Items)
        → links (Grouping.message_entries encode messages) ≡ message_tools encode messages
    unfolding Grouping.message_entries message_tools links
    links-message_entries nil = refl
    links-message_entries (cons (obj message) messages) =
        links-append
          (Grouping.content_value_entries encode (role_or_user (get "role" message))
            (get "content" message))
          _
        ∙ rw
            (
              links-content_value_entries (role_or_user (get "role" message))
                  (get "content" message),
              links-message_entries messages,
            )
            refl
    links-message_entries (cons null messages) = links-message_entries messages
    links-message_entries (cons (bool _) messages) = links-message_entries messages
    links-message_entries (cons (int _) messages) = links-message_entries messages
    links-message_entries (cons (real _ _) messages) = links-message_entries messages
    links-message_entries (cons (str _) messages) = links-message_entries messages
    links-message_entries (cons (arr _) messages) = links-message_entries messages

-- An Anthropic conversation's tool loop reaches a chat upstream whole: the calls and the tool
-- messages that come out of the two translations are, in the conversation's order, one call for each
-- tool_use block whose id and name are texts, with these and its dumped input, and one tool message
-- for each tool_result block whose tool_use_id is a text, with that id and the result's text.
pub tools-walk_input_items :
    (dumps encode : Json → Option String) (messages : Items)
    → tools_of (
        all_opened (walk_input_items dumps (items (messages_to_input_items encode (arr messages)))))
      ≡ message_tools encode messages
tools-walk_input_items dumps encode messages =
    rw (opened-walk_input_items dumps (items (messages_to_input_items encode (arr messages)))) (
      links-all_opened dumps (messages_to_input_items encode (arr messages))
      ∙ rw (Grouping.opened-messages_to_input_items encode messages)
          (links-message_entries dumps encode messages))
