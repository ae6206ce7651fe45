-- ===== src/Chat/Replies/Delivered.antt =====
-- A chat completion as Responses output, in openai_chat.py, and its way back as the next input.
use mathlib.Core.List.{append_assoc, append-nil}
use reverso_llm.Prelude.{
  ℕ, suc, String, Option, List, [], ◌∷◌, ◌++◌, ◌≡◌, refl, ap, sym, ◌∙◌, map, ◌⊎◌, inl, inr,
}
use reverso_llm.Json.{
  Json, null, str, arr, obj, items, Fields, end, field, get, has, or_empty, or_empty-str,
}
use reverso_llm.Outcome.{ok, ◌>>=◌}
use reverso_llm.Texts.{join_with}
use reverso_llm.Responses.Prompts.{input_content_text, part_texts}
use reverso_llm.Responses.Replay.{message_item}
use reverso_llm.Responses.Replay.Turns.{TurnItem, says, calls, render}
use reverso_llm.Chat.Requests.{
  chat_call, flush_pending, role_message, tool_output_content, tool_message, other_messages,
  walk_step, walk, walk_input_items,
}
use reverso_llm.Chat.Replies.{first_message, tool_call_item, call_items, map_completion_output}

-- A call of a function, as an upstream model makes it.
pub record Called : Type 0 where
  pub call_id : String
  pub name : String
  pub arguments : String

abbrev pub upstream_call : Called → Json
upstream_call c = chat_call c.call_id c.name c.arguments

-- The calls as items of a turn, with the ids that are minted from the nth on.
abbrev pub called_items : (ℕ → String) → ℕ → List Called → List TurnItem
called_items new_id n [] = []
called_items new_id n (c ∷ cs) =
    calls (new_id n) c.call_id c.name c.arguments ∷ called_items new_id (suc n) cs

-- What a client answers to a call: its id and a text.
abbrev pub output_item : String × String → Json
output_item answer = obj (
    field "type" (str "function_call_output")
      (field "call_id" (str answer.0) (field "output" (str answer.1) end)))

abbrev pub tool_answer : String × String → Json
tool_answer answer = obj (
    field "role" (str "tool")
      (field "tool_call_id" (str answer.0) (field "content" (str answer.1) end)))

call_items-upstream_call :
    (new_id : ℕ → String) (n : ℕ) (cs : List Called)
    → call_items new_id n (items (map upstream_call cs))
      ≡ ok (map render (called_items new_id n cs))
unfolding call_items tool_call_item chat_call get has
call_items-upstream_call new_id n [] = refl
call_items-upstream_call new_id n (c ∷ cs) = rw (call_items-upstream_call new_id (suc n) cs) refl

module _ (new_id : ℕ → String) (str_of : Json → String) (raw : Fields) (text : String)
    (cs : List Called) (content : get "content" (first_message raw) ≡ str text)
    (called : get "tool_calls" (first_message raw) ≡ arr (items (map upstream_call cs))) where
  -- The output of a completion is a turn of its text and its calls in their order, under minted ids:
  -- what `replay_turn` is given.
  pub map_completion_output-render :
      map_completion_output new_id str_of raw
      ≡ ok (map render (says (new_id 0) text ∷ called_items new_id 1 cs), first_message raw)
  unfolding map_completion_output
  map_completion_output-render =
      rw (content, called, call_items-upstream_call new_id 1 cs, or_empty-str text) refl

-- The content of a message that says a text; a missing one says nothing.
abbrev pub Says : String → Json → Type 0
Says text content = (content ≡ str text) ⊎ ((content ≡ null) × (text ≡ ""))

-- The value under tool_calls for some calls; a missing one stands for none.
abbrev pub Makes : List Called → Json → Type 0
Makes cs value = (value ≡ arr (items (map upstream_call cs))) ⊎ ((value ≡ null) × (cs ≡ []))

-- The output of a completion is a turn of its text and its calls, be they there or missing.
pub map_completion_output-Makes :
    (new_id : ℕ → String) (str_of : Json → String) (raw : Fields) (text : String) (cs : List Called)
    → Says text (get "content" (first_message raw))
    → Makes cs (get "tool_calls" (first_message raw))
    → map_completion_output new_id str_of raw
      ≡ ok (map render (says (new_id 0) text ∷ called_items new_id 1 cs), first_message raw)
unfolding map_completion_output call_items or_empty
map_completion_output-Makes new_id str_of raw text cs (inl content) (inl called) =
    map_completion_output-render new_id str_of raw text cs content called
map_completion_output-Makes new_id str_of raw text cs (inl content) (inr (missing, none)) =
    rw (content, missing, none, or_empty-str text) refl
map_completion_output-Makes new_id str_of raw text cs (inr (missing, silent)) (inl called) =
    rw (missing, silent, called, call_items-upstream_call new_id 1 cs) refl
map_completion_output-Makes new_id str_of raw text cs (inr (missing, silent))
      (inr (no_calls, none)) =
    rw (missing, silent, no_calls, none) refl

module _ (dumps : Json → Option String) where
  walk-output_item :
      (answers : List (String × String)) (pending : List Json)
      → walk dumps (items (map output_item answers)) pending
        ≡ flush_pending pending ++ map tool_answer answers
  unfolding walk walk_step other_messages tool_message tool_output_content flush_pending get
  walk-output_item [] pending = sym (append-nil _)
  walk-output_item (a ∷ answers) pending =
      rw (walk-output_item answers []) (append_assoc (flush_pending pending) _ _)

  walk-called_items :
      (new_id : ℕ → String) (n : ℕ) (cs : List Called) (answers : List (String × String))
      (pending : List Json)
      → walk dumps
          (items (map obj (map render (called_items new_id n cs)) ++ map output_item answers))
          pending
        ≡ flush_pending (pending ++ map upstream_call cs) ++ map tool_answer answers
  unfolding walk walk_step get
  walk-called_items new_id n [] answers pending =
      rw (append-nil pending) (walk-output_item answers pending)
  walk-called_items new_id n (c ∷ cs) answers pending =
      walk-called_items new_id (suc n) cs answers (pending ++ upstream_call c ∷ [])
      ∙ ap (λ l. flush_pending l ++ map tool_answer answers) (append_assoc pending _ _)

-- A tool turn comes back to the upstream model as it left: when a client sends the output of a
-- completion back with answers to its calls, the chat messages are the assistant's text, one
-- assistant message with the completion's own calls (none if it has none) and a tool message for each
-- answer, in this order.
pub walk_input_items-map_completion_output :
    (new_id : ℕ → String) (str_of : Json → String) (dumps : Json → Option String) (raw : Fields)
    (text : String) (cs : List Called) (answers : List (String × String))
    → get "content" (first_message raw) ≡ str text
    → get "tool_calls" (first_message raw) ≡ arr (items (map upstream_call cs))
    → (map_completion_output new_id str_of raw >>= (λ result.
        ok (walk_input_items dumps (items (map obj result.0 ++ map output_item answers)))))
      ≡ ok (
          role_message (str "assistant") text
          ++ flush_pending (map upstream_call cs)
          ++ map tool_answer answers)
unfolding walk walk_step other_messages get message_item input_content_text part_texts join_with
    flush_pending role_message
walk_input_items-map_completion_output new_id str_of dumps raw text cs answers content called =
    rw (map_completion_output-render new_id str_of raw text cs content called) (
      ap (λ rest. ok (role_message (str "assistant") text ++ rest))
        (walk-called_items dumps new_id 1 cs answers []))
