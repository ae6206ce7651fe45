-- ===== src/Texts.antt =====
-- Python's joins of texts, and the texts that content blocks and parts carry.
use Prim.Native.String.{◌++◌ as str_append}
use reverso_llm.Prelude.{String, List, [], ◌∷◌, if◌then◌else◌}
use reverso_llm.Json.{Json, str, obj, Items, nil, cons, get, is_text}

-- sep.join(texts)
unfoldable pub join_with : String → List String → String
join_with sep [] = ""
join_with sep (t ∷ []) = t
join_with sep (t ∷ u ∷ rest) = str_append t (str_append sep (join_with sep (u ∷ rest)))

-- `texts.append(value)` if it is a text
abbrev pub text_in : Json → List String → List String
text_in (str t) texts = t ∷ texts
text_in _ texts = texts

-- The texts of the blocks of type text.
unfoldable pub block_texts : Items → List String
block_texts nil = []
block_texts (cons (obj block) blocks) =
    let rest = block_texts blocks in
    if is_text "text" (get "type" block) then text_in (get "text" block) rest else rest
block_texts (cons _ blocks) = block_texts blocks
