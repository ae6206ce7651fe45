-- ===== src/Features/Responses/Declared.antt =====
-- The features that feature_policy.py extracts are rows of its table.
use reverso_llm.Prelude.{
  String, Bool, true, false, List, [], ◌∷◌, ◌++◌, if◌then◌else◌, ◌≡◌, refl, arith, All, concat,
  contains, text_key,
}
use reverso_llm.Json.{Json, null, bool, int, real, str, arr, obj, Items, nil, cons, get}
use reverso_llm.Features.Responses.{
  ResponsesRequest, tool_feature, tool_list_features, tool_features, tool_choice_feature,
  format_feature, text_format_feature, input_features, reasoning_features, include_features,
  extract_features, contributions,
}

-- `FEATURES`, the rows of the packaged responses_parity_surface.json
abbrev pub declared : List String
declared =
    "input.string" ∷ "input.message_list_text" ∷ "input.image" ∷ "input.file" ∷ "instructions"
    ∷ "previous_response_id" ∷ "store" ∷ "stream" ∷ "stream.incremental_deltas" ∷ "tools.function"
    ∷ "tools.web_search" ∷ "tools.file_search" ∷ "tools.computer_use" ∷ "tools.code_interpreter"
    ∷ "tool_choice.auto" ∷ "tool_choice.required" ∷ "tool_choice.named" ∷ "tool_choice.none"
    ∷ "parallel_tool_calls" ∷ "reasoning.effort" ∷ "reasoning.summary" ∷ "sampling.temperature"
    ∷ "sampling.top_p" ∷ "max_output_tokens" ∷ "truncation" ∷ "metadata" ∷ "include"
    ∷ "include.reasoning.encrypted_content" ∷ "background" ∷ "text.format.text"
    ∷ "text.format.json_schema" ∷ "text.format.json_object" ∷ "service_tier" ∷ "user"
    ∷ "safety_identifier" ∷ "thinking" ∷ "caching.cache_control" ∷ []

abbrev pub are_declared : List String → Bool
are_declared [] = true
are_declared (f ∷ fs) = if contains f declared then are_declared fs else false

append-declared :
    (fs gs : List String)
    → are_declared fs ≡ true
    → are_declared gs ≡ true
    → are_declared (fs ++ gs) ≡ true
append-declared [] gs p q = q
append-declared (f ∷ fs) gs p q = ground (arith, append-declared fs gs)

infixr 4 ◌&◌
◌&◌ : {P Q : Type 0} → P → Q → P × Q
p & q = (p, q)

concat-declared :
    (fss : List (List String))
    → All (λ (fs : List String). are_declared fs ≡ true) fss
    → are_declared (concat fss) ≡ true
unfolding concat
concat-declared [] ps = refl
concat-declared (fs ∷ fss) (p, ps) = append-declared fs (concat fss) p (concat-declared fss ps)

tool-declared :
    (kind : Json) (fs : List String)
    → are_declared fs ≡ true
    → are_declared (tool_feature kind fs) ≡ true
unfolding tool_feature contains
tool-declared kind fs ps = ground arith

tool_list-declared : (tools : Items) → are_declared (tool_list_features tools) ≡ true
unfolding tool_list_features
tool_list-declared nil = ground arith
tool_list-declared (cons (obj fs) tools) =
    tool-declared (get "type" fs) (tool_list_features tools) (tool_list-declared tools)
tool_list-declared (cons null tools) = tool_list-declared tools
tool_list-declared (cons (bool _) tools) = tool_list-declared tools
tool_list-declared (cons (int _) tools) = tool_list-declared tools
tool_list-declared (cons (real _ _) tools) = tool_list-declared tools
tool_list-declared (cons (str _) tools) = tool_list-declared tools
tool_list-declared (cons (arr _) tools) = tool_list-declared tools

tools-declared : (tools : Json) → are_declared (tool_features tools) ≡ true
tools-declared (arr tools) = tool_list-declared tools
tools-declared null = ground arith
tools-declared (bool _) = ground arith
tools-declared (int _) = ground arith
tools-declared (real _ _) = ground arith
tools-declared (str _) = ground arith
tools-declared (obj _) = ground arith

choice-declared : (choice : Json) → are_declared (tool_choice_feature choice) ≡ true
unfolding tool_choice_feature contains
choice-declared (str choice) = ground arith
choice-declared (obj fs) = ground arith
choice-declared null = ground arith
choice-declared (bool _) = ground arith
choice-declared (int _) = ground arith
choice-declared (real _ _) = ground arith
choice-declared (arr _) = ground arith

format-declared : (fmt : Json) → are_declared (format_feature fmt) ≡ true
unfolding format_feature contains
format-declared (obj fmt) = ground arith
format-declared null = ground arith
format-declared (bool _) = ground arith
format-declared (int _) = ground arith
format-declared (real _ _) = ground arith
format-declared (str _) = ground arith
format-declared (arr _) = ground arith

text_format-declared : (text_extra : Json) → are_declared (text_format_feature text_extra) ≡ true
unfolding text_format_feature
text_format-declared (obj text_extra) = format-declared (get "format" text_extra)
text_format-declared null = ground arith
text_format-declared (bool _) = ground arith
text_format-declared (int _) = ground arith
text_format-declared (real _ _) = ground arith
text_format-declared (str _) = ground arith
text_format-declared (arr _) = ground arith

input-declared : (input : Json) → are_declared (input_features input) ≡ true
unfolding input_features contains
input-declared (str s) = ground arith
input-declared (arr vs) = ground arith
input-declared null = ground arith
input-declared (bool _) = ground arith
input-declared (int _) = ground arith
input-declared (real _ _) = ground arith
input-declared (obj _) = ground arith

reasoning-declared : (reasoning : Json) → are_declared (reasoning_features reasoning) ≡ true
unfolding reasoning_features contains
reasoning-declared (obj fs) = ground arith
reasoning-declared null = ground arith
reasoning-declared (bool _) = ground arith
reasoning-declared (int _) = ground arith
reasoning-declared (real _ _) = ground arith
reasoning-declared (str _) = ground arith
reasoning-declared (arr _) = ground arith

include-declared : (value : Json) → are_declared (include_features value) ≡ true
unfolding include_features contains
include-declared (arr nil) = ground arith
include-declared (arr (cons v nil)) = ground arith
include-declared (arr (cons _ (cons _ _))) = ground arith
include-declared null = ground arith
include-declared (bool _) = ground arith
include-declared (int _) = ground arith
include-declared (real _ _) = ground arith
include-declared (str _) = ground arith
include-declared (obj _) = ground arith

-- Every feature that a request is found to use is a row of the capability table.
pub extract-declared : (request : ResponsesRequest) → are_declared (extract_features request) ≡ true
unfolding extract_features contributions contains
extract-declared request = concat-declared (contributions request) (
    (input-declared request.input)
    & (ground arith)
    & (ground arith)
    & (ground arith)
    & (tools-declared request.tools)
    & (choice-declared request.tool_choice)
    & (ground arith)
    & (ground arith)
    & (reasoning-declared (get "reasoning" request.extra))
    & (ground arith)
    & (ground arith)
    & (ground arith)
    & (ground arith)
    & (ground arith)
    & (include-declared (get "include" request.extra))
    & (ground arith)
    & (ground arith)
    & (ground arith)
    & (ground arith)
    & (text_format-declared (get "text" request.extra))
    & tt)
