-- ===== src/Responses/Prompts.antt =====
-- reverso/protocols/replay.py: the prompt text of an input, and the input items that are recorded with
-- a turn. What `str` makes of a value that is no text is an argument.
use Prim.Native.String.{◌++◌ as str_append}
use text.Mathlib.TextLemmas.{append-eq-nil_iff}
use reverso_llm.Texts.{join_with, text_in}
use reverso_llm.Prelude.{
  String, true, false, Option, none, some, List, [], ◌∷◌, ◌≡◌, ◌≢◌, Bool-cases, inl, inr, refl, ap,
  if◌then◌else◌, ◌==◌, text_key,
}
use reverso_llm.Json.{
  Json, null, bool, int, real, str, arr, obj, Items, nil, cons, items, Fields, end, field, get,
  truthy, is_text,
}

unfoldable pub part_texts : Items → List String
part_texts nil = []
part_texts (cons (obj part) parts) = text_in (get "text" part) (part_texts parts)
part_texts (cons (str t) parts) = t ∷ part_texts parts
part_texts (cons _ parts) = part_texts parts

or_none : Json → String
or_none (str t) = t
or_none _ = ""

unfoldable pub input_content_text : Fields → String
unfolding or_none
input_content_text item = elim (get "content" item) [
  | str t ↦ t
  | arr parts ↦ join_with "\n" (part_texts parts)
  | _ ↦ or_none (get "text" item)
]

-- `_ROLE_LABELS.get(role)`
abbrev pub role_label : Json → Option String
role_label role =
    if is_text "user" role
    then some "User"
    else if is_text "assistant" role
    then some "Assistant"
    else if is_text "system" role
    then some "System"
    else if is_text "developer" role
    then some "Developer"
    else none

labelled : Option String → String → String
labelled none text = text
labelled (some label) text =
    if truthy (str text) then str_append label (str_append ": " text) else text

labelled_nonempty : (t : String) → (str_append "User" t == "") ≡ false
labelled_nonempty t = elim (Bool-cases (str_append "User" t == "")) [
  | inl e ↦ absurd (user_ne_nil ((text_key.same_iff (str_append "User" t) "").0 e))
  | inr e ↦ e
]
  where
    user_ne_nil : str_append "User" t ≢ ""
    user_ne_nil e = cc ((text_key.same_iff "User" "").1 (append-eq-nil_iff.0 e).0)

module _ (str_of : Json → String) where
  unfoldable pub input_item_to_text : Json → String
  unfolding labelled
  input_item_to_text (str t) = t
  input_item_to_text (obj item) = labelled (role_label (get "role" item)) (input_content_text item)
  input_item_to_text v = str_of v

  -- The texts of the items that have one.
  unfoldable pub item_texts : Items → List String
  item_texts nil = []
  item_texts (cons v vs) =
      let rest = item_texts vs in
      let text = input_item_to_text v in if truthy (str text) then text ∷ rest else rest

  unfoldable pub flatten_input : Json → String
  flatten_input null = ""
  flatten_input (str t) = t
  flatten_input (arr vs) = join_with "\n\n" (item_texts vs)
  flatten_input v = str_of v

  unfoldable pub build_prompt : Json → Json → String
  build_prompt (str instructions) input =
      if truthy (str instructions)
      then (if truthy (str (flatten_input input))
          then str_append instructions (str_append "\n\n" (flatten_input input))
          else instructions)
      else flatten_input input
  build_prompt _ input = flatten_input input

  -- `[item for item in value if isinstance(item, dict)]`
  unfoldable pub dicts : Items → List Json
  dicts nil = []
  dicts (cons (obj item) vs) = obj item ∷ dicts vs
  dicts (cons _ vs) = dicts vs

  unfoldable pub user_message : String → Json
  user_message text = obj (
      field "type" (str "message") (
        field "role" (str "user") (
          field "content"
            (arr (cons (obj (field "type" (str "input_text") (field "text" (str text) end))) nil))
            end)))

  unfoldable pub record_input_items : Json → List Json
  record_input_items (arr vs) = dicts vs
  record_input_items null = []
  record_input_items v = user_message (flatten_input v) ∷ []

  dicts-dicts : (vs : Items) → dicts (items (dicts vs)) ≡ dicts vs
  unfolding dicts
  dicts-dicts nil = refl
  dicts-dicts (cons (obj item) vs) = ap (λ rest. obj item ∷ rest) (dicts-dicts vs)
  dicts-dicts (cons null vs) = dicts-dicts vs
  dicts-dicts (cons (bool _) vs) = dicts-dicts vs
  dicts-dicts (cons (int _) vs) = dicts-dicts vs
  dicts-dicts (cons (real _ _) vs) = dicts-dicts vs
  dicts-dicts (cons (str _) vs) = dicts-dicts vs
  dicts-dicts (cons (arr _) vs) = dicts-dicts vs

  -- Recorded items that are sent as an input again are recorded as they are.
  pub record_input_items-record_input_items :
      (v : Json) → record_input_items (arr (items (record_input_items v))) ≡ record_input_items v
  unfolding record_input_items dicts user_message
  record_input_items-record_input_items (arr vs) = dicts-dicts vs
  record_input_items-record_input_items null = refl
  record_input_items-record_input_items (bool _) = refl
  record_input_items-record_input_items (int _) = refl
  record_input_items-record_input_items (real _ _) = refl
  record_input_items-record_input_items (str _) = refl
  record_input_items-record_input_items (obj _) = refl

  nonempty :
      (s : String)
      → truthy (str s) ≡ true
      → item_texts (cons (user_message s) nil) ≡ str_append "User" (str_append ": " s) ∷ []
  unfolding item_texts input_item_to_text labelled input_content_text user_message get part_texts
      join_with
  nonempty s h = rw (h, labelled_nonempty (str_append ": " s)) refl

  -- The recorded items of a text that is not empty give, as an input, the text under the user's label.
  pub flatten_input-record_input_items :
      (s : String)
      → truthy (str s) ≡ true
      → flatten_input (arr (items (record_input_items (str s))))
        ≡ str_append "User" (str_append ": " s)
  unfolding flatten_input record_input_items join_with
  flatten_input-record_input_items s h = rw (nonempty s h) refl
