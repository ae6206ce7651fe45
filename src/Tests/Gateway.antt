-- ===== src/Tests/Gateway.antt =====
-- Requests and streams through the middleware.
use mathlib.Core.Option.{bind}
use reverso_llm.Prelude.{
  text_key, if◌then◌else◌, ◌==◌, Option, ◌+◌, ◌<◌, ◌≤◌, String, true, false, none, some, List, [],
  ◌∷◌, ◌≡◌, inl, refl, length, contains,
}
use reverso_llm.Json.{Json, null, str, obj, Fields, end, field, get}
use reverso_llm.Outcome.{Outcome, ok, raised}
use reverso_llm.Bytes.{Bytes, ascii, without_content_length}
use reverso_llm.Bytes.Decimal.{decimal}
use reverso_llm.Bytes.Search.{starts_with, find}
use reverso_llm.Routing.Models.{
  ProfilePath, split_profile_path, at_slash, strip, resolve_profile_model, codex_builtin_models,
  no_slash, IsProvider, resolve_profile_model-contains,
}
use reverso_llm.Routing.Bodies.{Message, request, read_on}
use reverso_llm.Routing.Workspace.{
  workspace_from_codex_turn_metadata, workspace_from_body, rewrite_body_model, rewritten,
  gateway_workspace, get-rewritten,
}
use reverso_llm.Routing.Requests.{
  Scope, Call, replay, has_body, headers_with_content_length, call, IsFramed, call-IsFramed,
}
use reverso_llm.Copilot.{
  has_safe_model_id_chars, canonical_copilot_responses_model, is_copilot_chat_model_id,
  copilot_model_route, canonical-copilot_model_route,
}
use reverso_llm.Exposure.{is_loopback, reverso_routed_codex_profile_prefixes, routed-away}
use reverso_llm.Normalizer.{sanitize_input_tool_sequence}
use reverso_llm.Normalizer.Sequence.{Sanitized, others, sanitize-sanitize}
use reverso_llm.Completion.{initial, Guard, observed, unknown_id}
use reverso_llm.Completion
use reverso_llm.Completion.Transparent.{bodies, carried}
use reverso_llm.Completion.Transparent.Endings.{IsEnded, send_all-IsEnded}
use reverso_llm.Paths.{is_responses_path}
use reverso_llm.Think.{
  Stripper, fresh, step, skip_gap, longest_from, longest_suffix_prefix, strip_loop, strip_delta,
}
use reverso_llm.Think.Bounds.{tag, strip_delta-bounded}

resolve_profile_model-contains_example :
    (split_profile_path "/deepseek/v1/responses"
      ≡ some (record { profile = "deepseek"; rewritten_path = "/v1/responses" }))
    × (contains (resolve_profile_model "deepseek" "gpt-5.5") codex_builtin_models ≡ false)
unfolding no_slash IsProvider
resolve_profile_model-contains_example =
    resolve_profile_model-contains "" "deepseek" "gpt-5.5" "responses" refl (inl refl)

abbrev payload : Fields
payload =
    field "model" (str "gpt-5.5")
      (field "x_gateway" (obj (field "workspace" (str "/mine") end)) (field "input" (str "hi") end))

get-rewritten_example :
    (gateway_workspace (get "x_gateway" (rewritten "claude" (some "/repo") "gpt-5.5" payload))
      ≡ elim (gateway_workspace (get "x_gateway" payload)) [
        | some own ↦ some own
        | none ↦ some "/repo"
      ])
    × (get "x_gateway" (rewritten "deepseek" (some "/repo") "gpt-5.5" payload) ≡ null)
    × (get "input" (rewritten "claude" (some "/repo") "gpt-5.5" payload) ≡ get "input" payload)
    × (get "input" (rewritten "deepseek" (some "/repo") "gpt-5.5" payload) ≡ get "input" payload)
unfolding strip
get-rewritten_example = get-rewritten "/repo" "gpt-5.5" "input" payload refl refl refl refl

-- `json` on the values of these tests.
abbrev loads : Bytes → Outcome Json
loads _ = ok (obj payload)

abbrev loads_text : String → Outcome Json
loads_text _ = raised "JSONDecodeError"

abbrev dumps : Json → Bytes
dumps _ = ascii "{}"

abbrev decode : Bytes → String
decode _ = ""

abbrev scope : Scope
scope = record {
  type = "http";
  method = "post";
  path = "/deepseek/v1/responses";
  raw_path = "/deepseek/v1/responses";
  headers = (ascii "Content-Length", ascii "99") ∷ [];
  reverso_profile = none;
  reverso_split_visible_deltas = false;
}

abbrev messages : List Message
messages = request (ascii "{") true ∷ request (ascii "x}") false ∷ []

abbrev deepseek : ProfilePath
deepseek = record { profile = "deepseek"; rewritten_path = "/v1/responses" }

abbrev sent_on : Call
sent_on = record {
  scope = record {
    type = "http";
    method = "post";
    path = "/v1/responses";
    raw_path = "/v1/responses";
    headers = (ascii "content-length", ascii "2") ∷ [];
    reverso_profile = some "deepseek";
    reverso_split_visible_deltas = true;
  };
  receive = replay (ascii "{}") [];
  workspace = some "/mine";
}

call-sent_on : call loads loads_text dumps decode scope messages ≡ ok (some sent_on)
unfolding call workspace_from_codex_turn_metadata split_profile_path bind at_slash read_on has_body
    workspace_from_body get strip rewrite_body_model headers_with_content_length
    without_content_length decimal
call-sent_on = refl

call-IsFramed_example : IsFramed sent_on
unfolding has_body split_profile_path at_slash bind read_on
call-IsFramed_example =
    call-IsFramed loads loads_text dumps decode scope deepseek b'{' (ascii "x}") messages [] sent_on
      refl refl refl refl call-sent_on

abbrev assistant_message : Json
assistant_message = obj (field "type" (str "message") (field "role" (str "assistant") end))

abbrev function_call : Json
function_call = obj (field "type" (str "function_call") (field "call_id" (str "call_1") end))

abbrev input : List Json
input = function_call ∷ assistant_message ∷ []

sanitize-sanitize_example :
    Sanitized [] input (sanitize_input_tool_sequence input)
    × (others (sanitize_input_tool_sequence input) ≡ others input)
    × (sanitize_input_tool_sequence (sanitize_input_tool_sequence input)
        ≡ sanitize_input_tool_sequence input)
sanitize-sanitize_example = sanitize-sanitize input

strip_delta-bounded_example :
    (output : Bytes) × (s' : Stripper) × (strip_delta (ascii "a<think>b</thi") fresh
      ≡ some (output, s'))
    × (starts_with s'.pending (tag s'.in_think) ≡ true)
    × (length s'.pending < length (tag s'.in_think))
    × (length output + length s'.pending ≤ 0 + 14)
strip_delta-bounded_example = strip_delta-bounded (ascii "a<think>b</thi") fresh

abbrev streaming : Guard
streaming = record initial { is_responses_sse = true }

abbrev first : Bytes
first = ascii "data: {}\n\n"

abbrev received : List Completion.Message
received = Completion.body (ascii "data: {}\n\ndata: {}\n\ndata: [DONE]\n\n") false ∷ []

abbrev at_end : Guard
at_end = record streaming {
  saw_completed = true;
  saw_done = true;
  marker_tail = ascii "data: {}\n\ndata: {}\n\n";
}

received_all :
    Completion.send_all loads dumps streaming (bodies (first ∷ []) []) ≡ ok (received, at_end)
unfolding Completion.send_all bodies Completion.wrapped_send Completion.send_body
    Completion.extract_response_id starts_with get Completion.observed Completion.keep_back
    Completion.closed find Completion.has_completed_marker Completion.append_completion_before_done
    Completion.completion_event
received_all = refl

send_all-IsEnded_example : IsEnded loads dumps streaming (first ∷ []) [] (carried received)
send_all-IsEnded_example =
    send_all-IsEnded loads dumps streaming (first ∷ []) [] received at_end refl received_all

-- The window holds the bytes that were kept back twice: across the seam they show a done line that the
-- stream has not.
abbrev seam : Bytes
seam = ascii "NE]\n\ndata: {}\n\ndata: [DO"

seam-observed : (observed unknown_id seam (observed unknown_id seam streaming)).saw_done ≡ true
unfolding observed find starts_with
seam-observed = refl

seam-unseen : (observed unknown_id seam streaming).saw_done ≡ false
unfolding observed find starts_with
seam-unseen = refl

responses_paths : is_responses_path "/v1/responses/" ≡ true
unfolding is_responses_path
responses_paths = refl

-- The gap behind an end tag is skipped in the delta of the tag, and not in the next one.
stripped_whole : strip_delta (ascii "a<think>b</think> c") fresh ≡ some (ascii "ac", fresh)
unfolding strip_delta strip_loop step skip_gap find starts_with longest_suffix_prefix longest_from
stripped_whole = refl

stripped_cut : strip_delta (ascii "a<think>b</think>") fresh ≡ some (ascii "a", fresh)
unfolding strip_delta strip_loop step skip_gap find starts_with longest_suffix_prefix longest_from
stripped_cut = refl

stripped_rest : strip_delta (ascii " c") fresh ≡ some (ascii " c", fresh)
unfolding strip_delta strip_loop step skip_gap find starts_with longest_suffix_prefix longest_from
stripped_rest = refl

-- A switch that is on has no effect on a gateway that is open to a network.
abbrev open_env : String → Option String
open_env key = if key == "REVERSO_HOST" then some "0.0.0.0" else some "on"

away : is_loopback open_env ≡ false
unfolding is_loopback strip
away = refl

closed_profiles :
    (contains "codex-direct" (reverso_routed_codex_profile_prefixes open_env) ≡ false)
    × (contains "openai-pass-through" (reverso_routed_codex_profile_prefixes open_env) ≡ false)
closed_profiles = routed-away open_env away

canonical-copilot_model_route_example :
    (has_safe_model_id_chars (ascii "gpt-5.4") ≡ true)
    × (starts_with (ascii "gpt-") (ascii "gpt-5.4") ≡ true)
    × (canonical_copilot_responses_model (ascii "gpt-5.4") ≡ some (ascii "gpt-5.4"))
    × (has_safe_model_id_chars (ascii "claude-opus") ≡ true)
unfolding canonical_copilot_responses_model copilot_model_route is_copilot_chat_model_id
    has_safe_model_id_chars starts_with
canonical-copilot_model_route_example =
    canonical-copilot_model_route (ascii "copilot/gpt5.4") (ascii "gpt-5.4") (ascii "claude-opus")
      refl refl
