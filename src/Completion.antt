-- ===== src/Completion.antt =====
-- reverso/middleware/responses_sse_completion.py: a Responses stream whose upstream leaves out the
-- completion event, or the done line, gets it. `loads` and `dumps` are the calls of json, `dumps` with the
-- encoding of its text.
pub mod Transparent
use Prim.Native.Char.{code}
use reverso_llm.Prelude.{
  ℕ, suc, ◌-◌, String, Bool, true, false, not, ◌&&◌, ◌||◌, Option, none, some, List, [], ◌∷◌, ◌++◌,
  if◌then◌else◌, ltb, nat_eq, length, ◌==◌, text_key,
}
use reverso_llm.Json.{Json, str, obj, Fields, end, field, get, field_of}
use reverso_llm.Outcome.{Outcome, ok, raised, ◌>>=◌}
use reverso_llm.Bytes.{
  Bytes, ascii, lower, bytes_eq, Header, is_header, without_content_length, drop, last, front,
}
use reverso_llm.Paths.{is_responses_path}
use reverso_llm.Bytes.Search.{starts_with, find, occurs}

abbrev completed_marker : Bytes
completed_marker = ascii "\"type\":\"response.completed\""

abbrev pub completed_marker_spaced : Bytes
completed_marker_spaced = ascii "\"type\": \"response.completed\""

abbrev pub done_line : Bytes
done_line = ascii "data: [DONE]"

abbrev pub done_event : Bytes
done_event = ascii "data: [DONE]\n\n"

abbrev pub unknown_id : String
unknown_id = "resp_reverso_completed"

-- `value` contains `text/event-stream` in any case.
unfoldable pub is_sse : List Header → Bool
is_sse [] = false
is_sse (header ∷ headers) =
    let rest = is_sse headers in
    if is_header "content-type" header && occurs (ascii "text/event-stream") (lower header.1)
    then true
    else rest

abbrev add_line : Bytes → List Bytes → List Bytes
add_line [] lines = lines
add_line (c ∷ line) lines = (c ∷ line) ∷ lines

-- The lines of some bytes that are not empty: `splitlines` without its empty lines, which the caller
-- passes over. They end at \n, at \r, and at both.
full_lines : Bytes → Bytes → List Bytes
full_lines line [] = add_line line []
full_lines line (c ∷ s) =
    let next = full_lines [] s in
    let longer = full_lines (line ++ c ∷ []) s in
    if nat_eq c 10 || nat_eq c 13 then add_line line next else longer

-- `response["id"]`, else `payload["response_id"]`
abbrev text_or : Json → Option String → Option String
text_or (str s) other = some s
text_or _ other = other

abbrev announced_id : Json → Option String
announced_id (obj payload) =
    text_or (field_of "id" (get "response" payload)) (text_or (get "response_id" payload) none)
announced_id _ = none

-- bytes.strip(), of ASCII whitespace
abbrev is_blank : ℕ → Bool
is_blank c = nat_eq c 32 || (ltb 8 c && ltb c 14)

skip_blank : Bytes → Bytes
skip_blank [] = []
skip_blank (c ∷ s) = let rest = skip_blank s in if is_blank c then rest else c ∷ s

trim_end : Bytes → Bytes
trim_end [] = []
trim_end (c ∷ s) = elim (trim_end s) [
  | [] ↦ if is_blank c then [] else c ∷ []
  | d ∷ rest ↦ c ∷ d ∷ rest
]

is_data_line : Bytes → Bool
unfolding skip_blank trim_end
is_data_line line =
    starts_with (ascii "data: ") line && not (bytes_eq (trim_end (skip_blank line)) done_line)

module _ (loads : Bytes → Outcome Json) where
  -- A line's id: none where it is no JSON.
  line_id : Outcome Json → Outcome (Option String)
  line_id (ok payload) = ok (announced_id payload)
  line_id (raised e) = if e == "JSONDecodeError" then ok none else raised e

  first_id : List Bytes → Outcome (Option String)
  unfolding line_id
  first_id [] = ok none
  first_id (line ∷ lines) =
      let rest = first_id lines in
      if is_data_line line
      then (line_id (loads (drop 6 line))
          >>= (λ found. elim found [ some id ↦ ok (some id) | none ↦ rest ]))
      else rest

  unfoldable pub extract_response_id : Bytes → String → Outcome String
  unfolding first_id full_lines is_data_line
  extract_response_id chunk current =
      if current == unknown_id
      then (first_id (full_lines [] chunk)
          >>= (λ found. elim found [ some id ↦ ok id | none ↦ ok current ]))
      else ok current

unfoldable pub completion_event : (Json → Bytes) → String → Bytes
completion_event dumps response_id =
    ascii "data: "
    ++ dumps (
        obj (
          field "type" (str "response.completed") (
            field "response"
              (obj (
                field "id" (str response_id)
                  (field "object" (str "response") (field "status" (str "completed") end))))
              end)))
    ++ ascii "\n\n"

unfoldable pub has_completed_marker : Bytes → Bool
has_completed_marker chunk = occurs completed_marker chunk || occurs completed_marker_spaced chunk

unfoldable pub append_completion_before_done : Bytes → Bytes → Bytes
append_completion_before_done body completion = elim (find done_line body) [
  | none ↦ body ++ completion
  | some (before, from) ↦ before ++ completion ++ from
]

pub record Guard : Type 0 where
  pub is_responses_sse : Bool
  pub pending_body : Bytes
  pub saw_completed : Bool
  pub saw_done : Bool
  pub response_id : String
  pub marker_tail : Bytes

abbrev pub initial : Guard
initial = record {
  is_responses_sse = false;
  pending_body = [];
  saw_completed = false;
  saw_done = false;
  response_id = unknown_id;
  marker_tail = [];
}

pub data Message : Type 0 where
  start : List Header → Message
  body : Bytes → (more_body : Bool) → Message
  other : Message

abbrev pub tail_size : ℕ
tail_size = length completed_marker_spaced - 1

-- What is kept back of a body that is not the last.
unfoldable pub keep_back : Bytes → List Message × Bytes
keep_back s =
    if ltb tail_size (length s)
    then (body (front (length s - tail_size) s) true ∷ [], last tail_size s)
    else ([], s)

-- The flags once the window has been searched.
unfoldable pub observed : String → Bytes → Guard → Guard
observed id s guard =
    let window = guard.marker_tail ++ s in
    record guard {
      response_id = id;
      saw_completed = guard.saw_completed || has_completed_marker window;
      saw_done = guard.saw_done || occurs done_line window;
      marker_tail = if ltb 64 (length window) then last 64 window else window;
    }

module _ (dumps : Json → Bytes) where
  -- The last body, with what is missing.
  unfoldable pub closed : Guard → Bytes → Bytes
  closed guard s =
      let completed =
        if guard.saw_completed
        then s
        else append_completion_before_done s (completion_event dumps guard.response_id) in
      if guard.saw_done then completed else completed ++ done_event

module _ (loads : Bytes → Outcome Json) (dumps : Json → Bytes) where
  unfoldable pub send_body : Guard → Bytes → Bool → Outcome (List Message × Guard)
  send_body guard chunk more = do
    let s = guard.pending_body ++ chunk
    id ← extract_response_id loads s guard.response_id
    let now = observed id s guard
    if more
        then (let (sent, pending) = keep_back s in ok (sent, record now { pending_body = pending }))
        else ok (
          body (closed dumps now s) false ∷ [],
          record now { pending_body = []; saw_completed = true; saw_done = true },
        )

  unfoldable pub wrapped_send : Guard → Message → Outcome (List Message × Guard)
  wrapped_send guard (start headers) =
      let sse = is_sse headers in
      ok (
        start (if sse then without_content_length headers else headers) ∷ [],
        record guard { is_responses_sse = sse },
      )
  wrapped_send guard (body s more) =
      if guard.is_responses_sse then send_body guard s more else ok (body s more ∷ [], guard)
  wrapped_send guard other = ok (other ∷ [], guard)

  -- The messages of an application, one after the other.
  unfoldable pub send_all : Guard → List Message → Outcome (List Message × Guard)
  send_all guard [] = ok ([], guard)
  send_all guard (message ∷ messages) = do
    (sent, now) ← wrapped_send guard message
    (rest, final) ← send_all now messages
    ok (sent ++ rest, final)

  -- `__call__`: what the server gets of what the application sends.
  unfoldable pub sent_through : (type path : String) → List Message → Outcome (List Message)
  sent_through type path messages =
      if type == "http" && is_responses_path path
      then (send_all initial messages >>= (λ result. ok result.0))
      else ok messages
