-- ===== src/Features/Responses.antt =====
-- `ResponsesRequest.from_payload` of reverso/protocols/adapter.py, and the features that
-- reverso/protocols/feature_policy.py extracts from a request. A set of features is a list.
pub mod Declared
pub mod Payload
use reverso_llm.Prelude.{
  String, Bool, true, false, List, [], ◌∷◌, concat, if◌then◌else◌, ◌==◌, text_key, contains,
}
use reverso_llm.Json.{
  Json, null, bool, int, real, str, arr, obj, Items, nil, cons, Fields, end, field, get, has,
  is_some, is_text, truthy,
}

pub record ResponsesRequest : Type 0 where
  pub model : Json
  pub input : Json
  pub stream : Bool
  pub previous_response_id : Json
  pub tools : Json
  pub instructions : Json
  pub tool_choice : Json
  pub extra : Fields

abbrev pub known : List String
known =
    "model" ∷ "input" ∷ "stream" ∷ "previous_response_id" ∷ "tools" ∷ "instructions" ∷ "tool_choice"
    ∷ []

-- `{key: value for ... if key not in known}`
unfoldable pub unknown_fields : Fields → Fields
unknown_fields end = end
unknown_fields (field k v fs) =
    let rest = unknown_fields fs in if contains k known then rest else field k v rest

unfoldable pub from_payload : Fields → ResponsesRequest
from_payload payload = record {
  model = if has "model" payload then get "model" payload else str "";
  input = get "input" payload;
  stream = truthy (get "stream" payload);
  previous_response_id = get "previous_response_id" payload;
  tools = get "tools" payload;
  instructions = get "instructions" payload;
  tool_choice = get "tool_choice" payload;
  extra = unknown_fields payload;
}

-- `item_type in (None, "message")`
abbrev is_message : Json → Bool
is_message null = true
is_message kind = is_text "message" kind

unfoldable pub saw_message : Items → Bool
saw_message nil = false
saw_message (cons (obj fs) rest) = if is_message (get "type" fs) then true else saw_message rest
saw_message (cons _ rest) = saw_message rest

abbrev is_text_only_message_list : Json → Bool
is_text_only_message_list (arr vs) = saw_message vs
is_text_only_message_list _ = false

unfoldable pub has_part : String → Items → Bool
has_part target nil = false
has_part target (cons (obj fs) rest) =
    if is_text target (get "type" fs) then true else has_part target rest
has_part target (cons _ rest) = has_part target rest

abbrev part_in_content : String → Json → Bool
part_in_content target (arr parts) = has_part target parts
part_in_content target _ = false

unfoldable pub item_has_part : String → Items → Bool
item_has_part target nil = false
item_has_part target (cons (obj fs) rest) =
    if part_in_content target (get "content" fs) then true else item_has_part target rest
item_has_part target (cons _ rest) = item_has_part target rest

abbrev contains_content_type : Json → String → Bool
contains_content_type (arr vs) target = item_has_part target vs
contains_content_type _ target = false

-- `features.add(feature)` under a condition, in front of the features that follow.
abbrev pub add_if : Bool → String → List String → List String
add_if test feature features = if test then feature ∷ features else features

tool_feature : Json → List String → List String
tool_feature kind features =
    if is_text "function" kind
    then "tools.function" ∷ features
    else if is_text "web_search" kind
    then "tools.web_search" ∷ features
    else if is_text "file_search" kind
    then "tools.file_search" ∷ features
    else if is_text "computer_use" kind
    then "tools.computer_use" ∷ features
    else add_if (is_text "code_interpreter" kind) "tools.code_interpreter" features

unfoldable pub tool_list_features : Items → List String
unfolding tool_feature
tool_list_features nil = []
tool_list_features (cons (obj fs) tools) = tool_feature (get "type" fs) (tool_list_features tools)
tool_list_features (cons _ tools) = tool_list_features tools

abbrev pub tool_features : Json → List String
tool_features (arr tools) = tool_list_features tools
tool_features _ = []

tool_choice_feature : Json → List String
tool_choice_feature (str choice) =
    if choice == "auto"
    then "tool_choice.auto" ∷ []
    else if choice == "required"
    then "tool_choice.required" ∷ []
    else add_if (choice == "none") "tool_choice.none" []
tool_choice_feature (obj fs) = add_if (is_text "function" (get "type" fs)) "tool_choice.named" []
tool_choice_feature _ = []

format_feature : Json → List String
format_feature (obj fmt) =
    if is_text "text" (get "type" fmt)
    then "text.format.text" ∷ []
    else if is_text "json_schema" (get "type" fmt)
    then "text.format.json_schema" ∷ []
    else add_if (is_text "json_object" (get "type" fmt)) "text.format.json_object" []
format_feature _ = []

text_format_feature : Json → List String
unfolding format_feature
text_format_feature (obj text_extra) = format_feature (get "format" text_extra)
text_format_feature _ = []

input_features : Json → List String
input_features (str s) = add_if (truthy (str s)) "input.string" []
input_features (arr vs) = add_if (is_text_only_message_list (arr vs)) "input.message_list_text" (
    add_if (contains_content_type (arr vs) "input_image") "input.image"
      (add_if (contains_content_type (arr vs) "input_file") "input.file" []))
input_features _ = []

reasoning_features : Json → List String
reasoning_features (obj fs) =
    add_if (is_some (get "effort" fs)) "reasoning.effort"
      (add_if (is_some (get "summary" fs)) "reasoning.summary" [])
reasoning_features _ = []

-- `["reasoning.encrypted_content"]` has a feature of its own.
include_features : Json → List String
include_features (arr nil) = []
include_features (arr (cons v nil)) =
    if is_text "reasoning.encrypted_content" v
    then "include.reasoning.encrypted_content" ∷ []
    else "include" ∷ []
include_features (arr (cons _ (cons _ _))) = "include" ∷ []
include_features _ = []

-- What the request's fields add to the set, in the order of the source.
unfoldable pub contributions : ResponsesRequest → List (List String)
unfolding input_features tool_choice_feature text_format_feature reasoning_features include_features
contributions request =
    let extra = request.extra in
    input_features request.input
    ∷ add_if (truthy request.instructions) "instructions" []
    ∷ add_if (truthy request.previous_response_id) "previous_response_id" []
    ∷ add_if request.stream "stream" []
    ∷ tool_features request.tools
    ∷ tool_choice_feature request.tool_choice
    ∷ add_if (has "store" extra) "store" []
    ∷ add_if (is_some (get "parallel_tool_calls" extra)) "parallel_tool_calls" []
    ∷ reasoning_features (get "reasoning" extra)
    ∷ add_if (is_some (get "temperature" extra)) "sampling.temperature" []
    ∷ add_if (is_some (get "top_p" extra)) "sampling.top_p" []
    ∷ add_if (is_some (get "max_output_tokens" extra)) "max_output_tokens" []
    ∷ add_if (is_some (get "truncation" extra)) "truncation" []
    ∷ add_if (is_some (get "metadata" extra)) "metadata" []
    ∷ include_features (get "include" extra)
    ∷ add_if (is_some (get "background" extra)) "background" []
    ∷ add_if (is_some (get "service_tier" extra)) "service_tier" []
    ∷ add_if (is_some (get "user" extra)) "user" []
    ∷ add_if (is_some (get "safety_identifier" extra)) "safety_identifier" []
    ∷ text_format_feature (get "text" extra)
    ∷ []

unfoldable pub extract_features : ResponsesRequest → List String
unfolding contributions concat
extract_features request = concat (contributions request)
