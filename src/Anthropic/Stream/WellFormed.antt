-- ===== src/Anthropic/Stream/WellFormed.antt =====
-- Whatever the upstream does after its first event, the mapped stream obeys the grammar.
use reverso_llm.Prelude.{
  ℕ, suc, String, Bool, true, false, Option, none, List, [], ◌∷◌, ◌≡◌, refl, arith, if◌then◌else◌,
}
use reverso_llm.Prelude.Int.{ℤ, pos, negsuc, ◌+ℤ◌}
use reverso_llm.Json.{Json, arr, obj, field_of, is_text}
use reverso_llm.Outcome.{Outcome, ok, raised, ◌>>=◌}
use reverso_llm.Sse.{SseEvent}
use reverso_llm.Anthropic.Stream.{
  BlockKind, AnthropicEvent, StreamState, init, message_delta_event, close_open_block,
  on_output_item_added, on_text_delta, on_tool_input_delta, absorb_completion, drop_event,
  event_type, consume_as, consume, Ending, exhausted, broken, mid_stream_failure, finish, drive,
  responses_sse_to_anthropic,
}
use reverso_llm.Anthropic.Stream.Grammar.{
  Phase, body, over, read_all, read_all-append, IsWellFormed,
}

-- The number of blocks opened so far.
abbrev opened : ℤ → ℕ
opened (pos i) = suc i
opened (negsuc _) = 0

abbrev phase : StreamState → Phase
phase s = body (opened s.block_index) s.open_kind

-- Before the first block the index is -1 and nothing is open.
abbrev Fits : ℤ → Option BlockKind → Type 0
Fits (pos i) kind = Unit
Fits (negsuc k) kind = (k ≡ 0) × (kind ≡ none)

abbrev IsSound : StreamState → Type 0
IsSound s = Fits s.block_index s.open_kind

close-phase :
    (s : StreamState)
    → IsSound s
    → read_all (phase s) (close_open_block s).0 ≡ phase (close_open_block s).1
unfolding close_open_block
close-phase s h = ground arith

added-phase :
    (s : StreamState) (payload : Json)
    → IsSound s
    → read_all (phase s) (on_output_item_added s payload).0
      ≡ phase (on_output_item_added s payload).1
unfolding on_output_item_added ◌+ℤ◌
added-phase s payload h = ground arith

added-IsSound :
    (s : StreamState) (payload : Json) → IsSound s → IsSound (on_output_item_added s payload).1
unfolding on_output_item_added ◌+ℤ◌
added-IsSound s payload h = ground arith

text-phase :
    (s : StreamState) (delta : Json)
    → IsSound s
    → read_all (phase s) (on_text_delta s delta) ≡ phase s
unfolding on_text_delta
text-phase s delta h = ground arith

tool-phase :
    (s : StreamState) (delta : Json)
    → IsSound s
    → read_all (phase s) (on_tool_input_delta s delta) ≡ phase s
unfolding on_tool_input_delta
tool-phase s delta h = ground arith

-- One event keeps the bookkeeping sound, and what it emits takes the grammar from the phase of the
-- old state to the phase of the new one.
record Advances (s : StreamState) (out : List AnthropicEvent) (next : StreamState) : Type 0 where
  reads : read_all (phase s) out ≡ phase next
  sound : IsSound next

-- What a call hands over, if it does not raise, advances the state.
record Keeps (s : StreamState) (r : Outcome (List AnthropicEvent × StreamState)) : Type 0 where
  at : (out : List AnthropicEvent) (next : StreamState) → r ≡ ok (out, next) → Advances s out next

Keeps-ok :
    (s : StreamState) (p : List AnthropicEvent × StreamState)
    → read_all (phase s) p.0 ≡ phase p.1
    → IsSound p.1
    → Keeps s (ok p)
Keeps-ok s p reads sound = record {
  at = λ out next e. record { reads = ground arith; sound = ground arith };
}

Keeps-raised : (s : StreamState) (x : String) → Keeps s (raised x)
Keeps-raised s x = record { at = λ out next e. absurd (ground arith) }

Keeps-if :
    (s : StreamState) (b : Bool) {m n : Outcome (List AnthropicEvent × StreamState)}
    → Keeps s m
    → Keeps s n
    → Keeps s (if b then m else n)
Keeps-if s true km kn = km
Keeps-if s false km kn = kn

close-IsSound : (s : StreamState) → IsSound s → IsSound (close_open_block s).1
unfolding close_open_block
close-IsSound s h = ground arith

drop-Keeps : (s : StreamState) (kind : Json) → IsSound s → Keeps s (drop_event s kind)
unfolding drop_event
drop-Keeps s (arr _) h = Keeps-raised s _
drop-Keeps s (obj _) h = Keeps-raised s _
drop-Keeps s _ h = Keeps-ok s _ refl h

absorb-phase : (s : StreamState) (payload : Json) → phase s ≡ phase (absorb_completion s payload)
unfolding absorb_completion
absorb-phase s payload = ground arith

absorb-IsSound :
    (s : StreamState) (payload : Json) → IsSound s → IsSound (absorb_completion s payload)
unfolding absorb_completion
absorb-IsSound s payload h = ground arith

module _ (s : StreamState) (payload : Json) (h : IsSound s) where
  added-Keeps : Keeps s (ok (on_output_item_added s payload))
  added-Keeps =
      Keeps-ok s (on_output_item_added s payload) (added-phase s payload h)
        (added-IsSound s payload h)

  text-Keeps : Keeps s (ok (on_text_delta s (field_of "delta" payload), s))
  text-Keeps =
      Keeps-ok s (on_text_delta s (field_of "delta" payload), s)
        (text-phase s (field_of "delta" payload) h) h

  tool-Keeps : Keeps s (ok (on_tool_input_delta s (field_of "delta" payload), s))
  tool-Keeps =
      Keeps-ok s (on_tool_input_delta s (field_of "delta" payload), s)
        (tool-phase s (field_of "delta" payload) h) h

  close-Keeps : Keeps s (ok (close_open_block s))
  close-Keeps = Keeps-ok s (close_open_block s) (close-phase s h) (close-IsSound s h)

  absorb-Keeps : Keeps s (ok ([], record (absorb_completion s payload) { completed = true }))
  absorb-Keeps =
      Keeps-ok s ([], record (absorb_completion s payload) { completed = true })
        (absorb-phase s payload) (absorb-IsSound s payload h)

  failed-Keeps : Keeps s (
      ok (
        [],
        record s { failed = true; failure_message = "upstream backend error"; completed = true },
      ))
  failed-Keeps =
      Keeps-ok s
        (
          [],
          record s { failed = true; failure_message = "upstream backend error"; completed = true },
        )
        refl h

  silent-Keeps : Keeps s (ok ([], s))
  silent-Keeps = Keeps-ok s ([], s) refl h

  consume_as-Keeps : (kind : Json) → Keeps s (consume_as s kind payload)
  unfolding consume_as
  consume_as-Keeps kind = when "response.output_item.added" added-Keeps (
      when "response.output_text.delta" text-Keeps (
        when "response.refusal.delta" text-Keeps (
          when "response.function_call_arguments.delta" tool-Keeps (
            when "response.output_item.done" close-Keeps (
              when "response.completed" absorb-Keeps (
                when "response.failed" failed-Keeps (
                  when "response.reasoning_summary_text.delta" silent-Keeps
                    (drop-Keeps s kind h))))))))
    where
      when :
          (name : String) {m n : Outcome (List AnthropicEvent × StreamState)}
          → Keeps s m
          → Keeps s n
          → Keeps s (if is_text name kind then m else n)
      when name = Keeps-if s (is_text name kind)

consume-Keeps : (s : StreamState) (e : SseEvent) → IsSound s → Keeps s (consume s e)
unfolding consume
consume-Keeps s e h = go (event_type e)
  where
    go : (r : Outcome Json) → Keeps s (r >>= λ kind. consume_as s kind e.payload)
    go (ok kind) = consume_as-Keeps s e.payload h kind
    go (raised x) = Keeps-raised s x

failure-over :
    (s : StreamState) (name : String)
    → IsSound s
    → read_all (phase s) (mid_stream_failure s name) ≡ over
unfolding mid_stream_failure
failure-over s name h =
    ground (arith, read_all-append (phase s) (close_open_block s).0, close-phase s h)

finish-over : (s : StreamState) → IsSound s → read_all (phase s) (finish s) ≡ over
unfolding finish message_delta_event
finish-over s h = ground arith

drive-over :
    (s : StreamState) (es : List SseEvent) (ending : Ending)
    → IsSound s
    → read_all (phase s) (drive s es ending) ≡ over
unfolding drive
drive-over s [] exhausted h = finish-over s h
drive-over s [] (broken name) h = failure-over s name h
drive-over s (e ∷ es) ending h =
    step (consume s e) refl (consume-Keeps s e h) (λ next. drive-over next es ending)
  where
    step :
        (r : Outcome (List AnthropicEvent × StreamState))
        → consume s e ≡ r
        → Keeps s r
        → ((next : StreamState)
            → IsSound next
            → read_all (phase next) (drive next es ending) ≡ over)
        → read_all (phase s) (drive s (e ∷ es) ending) ≡ over
    step (raised name) eq k ih = rw (eq, drive) (failure-over s name h)
    step (ok (out, next)) eq k ih =
        rw (eq, drive)
          (ground (
            arith,
            read_all-append (phase s) out (finish next),
            read_all-append (phase s) out (drive next es ending),
            (k.at out next refl).reads,
            finish-over next (k.at out next refl).sound,
            ih next (k.at out next refl).sound,
          ))

-- An upstream that breaks before its first event has its exception raised; for every other one, a whole
-- stream of the grammar is delivered.
abbrev pub Delivers : String → String → List SseEvent → Ending → Type 0
Delivers model message_id [] (broken name) =
    responses_sse_to_anthropic model message_id [] (broken name) ≡ raised name
Delivers model message_id es ending =
    (out : List AnthropicEvent) × (responses_sse_to_anthropic model message_id es ending ≡ ok out)
    × IsWellFormed out

-- For an upstream that raises before its first event the mapper raises the same exception. For every
-- other upstream it does not raise, and what it yields is a whole stream of the Anthropic grammar:
-- message_start, ping, blocks numbered from 0 and closed one by one, and either message_delta and
-- message_stop or one error. So too for an upstream that ends at once.
pub responses_sse_to_anthropic-IsWellFormed :
    (model message_id : String) (es : List SseEvent) (ending : Ending)
    → Delivers model message_id es ending
unfolding responses_sse_to_anthropic
responses_sse_to_anthropic-IsWellFormed model message_id [] exhausted = (_, refl, refl)
responses_sse_to_anthropic-IsWellFormed model message_id [] (broken name) = refl
responses_sse_to_anthropic-IsWellFormed model message_id (e ∷ es) ending =
    (_, refl, drive-over (init model message_id) (e ∷ es) ending (refl, refl))
