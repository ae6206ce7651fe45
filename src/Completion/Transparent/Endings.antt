-- ===== src/Completion/Transparent/Endings.antt =====
-- What a Responses stream ends in behind responses_sse_completion.py, by the windows that it has shown.
use reverso_llm.Prelude.{
  ℕ, String, Bool, true, false, ◌||◌, Option, none, some, List, [], ◌∷◌, ◌++◌, ◌≡◌, refl, sym, ap,
  ◌∙◌, if◌then◌else◌, ltb, length, ◌⊎◌, Bool-cases, Option-cases, inl, inr, any, arith,
}
use mathlib.Core.Path.{subst}
use mathlib.Core.List.{append_assoc, append-nil}
use reverso_llm.Json.{Json, str, obj, end, field}
use reverso_llm.Outcome.{Outcome, ok, ◌>>=◌, bind_inversion}
use reverso_llm.Bytes.{Bytes, ascii, last}
use reverso_llm.Bytes.Search.{starts_with, find, occurs, find-parts}
use reverso_llm.Completion.{
  Guard, Message, done_line, keep_back, extract_response_id, completion_event, has_completed_marker,
  append_completion_before_done, observed, closed, send_all,
}
use reverso_llm.Completion.Transparent.{
  carried, bodies, joined, watched, IsComplete, send_all-IsComplete,
}

-- The last n of some bytes, or all if they are no more.
unfoldable pub clip : ℕ → Bytes → Bytes
clip n s = if ltb n (length s) then last n s else s

-- What is kept back behind bodies: less than the longer form of the event's type.
unfoldable pub held_back : Bytes → List Bytes → Bytes
held_back pending [] = pending
held_back pending (chunk ∷ chunks) = held_back (clip 27 (pending ++ chunk)) chunks

-- What is searched with each body: what was kept back and the body, behind the last 64 bytes that were
-- searched before.
unfoldable pub windows : Bytes → Bytes → List Bytes → List Bytes
windows tail pending [] = []
windows tail pending (chunk ∷ chunks) =
    (tail ++ (pending ++ chunk))
    ∷ windows (clip 64 (tail ++ (pending ++ chunk))) (clip 27 (pending ++ chunk)) chunks

-- A window shows the completion event, in either of two forms, or the done line.
abbrev pub shows_completed : Bytes → Bool
shows_completed w =
    occurs (ascii "\"type\":\"response.completed\"") w
    || occurs (ascii "\"type\": \"response.completed\"") w

abbrev pub shows_done : Bytes → Bool
shows_done w = occurs (ascii "data: [DONE]") w

abbrev event : (Json → Bytes) → String → Bytes
event dumps id =
    ascii "data: "
    ++ dumps (
        obj (
          field "type" (str "response.completed") (
            field "response"
              (obj (
                field "id" (str id)
                  (field "object" (str "response") (field "status" (str "completed") end))))
              end)))
    ++ ascii "\n\n"

-- The end of a stream with the completion event in it: as it was, if the event has been seen, and else
-- with the event in front of a done line, or behind everything if there is none.
abbrev pub Completes : (Json → Bytes) → String → (seen : Bool) → Bytes → Bytes → Type 0
Completes dumps id true s out = out ≡ s
Completes dumps id false s out =
    (front back : Bytes) × (front ++ back ≡ s)
    × (out ≡ front ++ (event dumps id ++ back))
    × ((starts_with (ascii "data: [DONE]") back ≡ true) ⊎ ((back ≡ []) × (shows_done s ≡ false)))

-- The end of a stream with the done line behind it, if that has not been seen.
abbrev pub Ends : (Json → Bytes) → String → (completed done : Bool) → Bytes → Bytes → Type 0
Ends dumps id completed done s out =
    (middle : Bytes) × Completes dumps id completed s middle
    × (out ≡ (if done then middle else middle ++ ascii "data: [DONE]\n\n"))

append-find : (p s before from : Bytes) → find p s ≡ some (before, from) → before ++ from ≡ s
unfolding find
append-find p [] before from h = ground arith
append-find p (c ∷ s) before from h = elim (Option-cases (find p s)) [
  | inl none_found ↦ ground arith
  | inr ((b, f), found) ↦ ground (arith, append-find p s b f found)
]

completion_event-event :
    (dumps : Json → Bytes) (id : String) → completion_event dumps id ≡ event dumps id
unfolding completion_event
completion_event-event dumps id = refl

unseen : (s : Bytes) → find done_line s ≡ none → shows_done s ≡ false
unseen s e = ap (λ (o : Option (Bytes × Bytes)). elim o [ none ↦ false | some _ ↦ true ]) e

append_completion-Completes :
    (dumps : Json → Bytes) (id : String) (s : Bytes)
    → Completes dumps id false s (append_completion_before_done s (completion_event dumps id))
unfolding append_completion_before_done
append_completion-Completes dumps id s = elim (Option-cases (find done_line s)) [
  | inl e ↦
      rw (e, append_completion_before_done)
        (
          s,
          [],
          append-nil s,
          ap (λ a. s ++ a) (completion_event-event dumps id ∙ sym (append-nil _)),
          inr (refl, unseen s e),
        )
  | inr ((before, from), e) ↦
      rw (e, append_completion_before_done)
        (
          before,
          from,
          append-find done_line s before from e,
          append_assoc before (completion_event dumps id) from
              ∙ ap (λ a. before ++ (a ++ from)) (completion_event-event dumps id),
          inl (find-parts done_line s before from e).0,
        )
]

closed-Ends :
    (dumps : Json → Bytes) (g : Guard) (s : Bytes)
    → Ends dumps g.response_id g.saw_completed g.saw_done s (closed dumps g s)
unfolding closed
closed-Ends dumps g s = elim (Bool-cases g.saw_completed) [
  | inl e ↦ rw e (s, refl, refl)
  | inr e ↦ rw e (_, append_completion-Completes dumps g.response_id s, refl)
]

clip-keep_back : (s : Bytes) → (keep_back s).1 ≡ clip 27 s
unfolding keep_back clip
clip-keep_back s = elim (Bool-cases (ltb 27 (length s))) [ inl e ↦ rw e refl | inr e ↦ rw e refl ]

clip-observed :
    (id : String) (s : Bytes) (g : Guard)
    → (observed id s g).marker_tail ≡ clip 64 (g.marker_tail ++ s)
unfolding observed clip
clip-observed id s g = refl

module _ (loads : Bytes → Outcome Json) where
  -- The id that is read from what comes, until one is found.
  unfoldable pub named : String → Bytes → List Bytes → Outcome String
  named id pending [] = ok id
  named id pending (chunk ∷ chunks) =
      extract_response_id loads (pending ++ chunk) id
      >>= (λ found. named found (clip 27 (pending ++ chunk)) chunks)

  -- The state at the last body, by what has come.
  record Knows (guard : Guard) (chunks : List Bytes) (last_chunk : Bytes) (before : Guard)
      (id : String) : Type 0 where
    pending : before.pending_body ≡ held_back guard.pending_body chunks
    completed : (observed id (before.pending_body ++ last_chunk) before).saw_completed ≡ (
        guard.saw_completed
        || any shows_completed
            (windows guard.marker_tail guard.pending_body (chunks ++ last_chunk ∷ [])))
    finished : (observed id (before.pending_body ++ last_chunk) before).saw_done ≡ (
        guard.saw_done
        || any shows_done
            (windows guard.marker_tail guard.pending_body (chunks ++ last_chunk ∷ [])))
    read : named guard.response_id guard.pending_body (chunks ++ last_chunk ∷ []) ≡ ok id

  Knows-last :
      (guard : Guard) (last_chunk : Bytes) (id : String)
      → extract_response_id loads (guard.pending_body ++ last_chunk) guard.response_id ≡ ok id
      → Knows guard [] last_chunk guard id
  unfolding held_back windows named any observed has_completed_marker
  Knows-last guard last_chunk id e = record {
    pending = refl;
    completed = ground arith;
    finished = ground arith;
    read = rw e refl;
  }

  Knows-next :
      (guard : Guard) (chunk : Bytes) (chunks : List Bytes) (last_chunk : Bytes) (before : Guard)
      (found id : String)
      → extract_response_id loads (guard.pending_body ++ chunk) guard.response_id ≡ ok found
      → Knows
          (record (observed found (guard.pending_body ++ chunk) guard) {
            pending_body = (keep_back (guard.pending_body ++ chunk)).1;
          })
          chunks
          last_chunk
          before
          id
      → Knows guard (chunk ∷ chunks) last_chunk before id
  unfolding held_back windows named any observed has_completed_marker
  Knows-next guard chunk chunks last_chunk before found id e k = record {
    pending = rw (← clip-keep_back (guard.pending_body ++ chunk)) k.pending;
    completed =
        rw
          (
            ← clip-keep_back (guard.pending_body ++ chunk),
            ← clip-observed found (guard.pending_body ++ chunk) guard,
          )
          (k.completed ∙ ground arith);
    finished =
        rw
          (
            ← clip-keep_back (guard.pending_body ++ chunk),
            ← clip-observed found (guard.pending_body ++ chunk) guard,
          )
          (k.finished ∙ ground arith);
    read = rw (e, ← clip-keep_back (guard.pending_body ++ chunk)) k.read;
  }

  watched-Knows :
      (guard : Guard) (chunks : List Bytes) (last_chunk : Bytes) (before : Guard) (id : String)
      → watched loads guard chunks ≡ ok before
      → extract_response_id loads (before.pending_body ++ last_chunk) before.response_id ≡ ok id
      → Knows guard chunks last_chunk before id
  unfolding watched
  watched-Knows guard [] last_chunk before id h e =
      let same : guard ≡ before = cc in
      subst (λ (g : Guard). Knows guard [] last_chunk g id) same
        (Knows-last guard last_chunk id (
          subst
            (λ (g : Guard).
              extract_response_id loads (g.pending_body ++ last_chunk) g.response_id ≡ ok id)
            (sym same) e))
  watched-Knows guard (chunk ∷ chunks) last_chunk before id h e =
      let (found, read, went) =
        bind_inversion (extract_response_id loads (guard.pending_body ++ chunk) guard.response_id) _
          h in
      Knows-next guard chunk chunks last_chunk before found id read (
        watched-Knows
          (record (observed found (guard.pending_body ++ chunk) guard) {
            pending_body = (keep_back (guard.pending_body ++ chunk)).1;
          })
          chunks last_chunk before id went e)

module _ (loads : Bytes → Outcome Json) (dumps : Json → Bytes) where
  -- What the client has: all that came, in its order, but for what the last body came behind, which is
  -- given its ending by what the windows have shown.
  pub record IsEnded (guard : Guard) (chunks : List Bytes) (last_chunk : Bytes) (sent : Bytes)
      : Type 0 where
    pub delivered : Bytes
    pub ending : Bytes
    pub id : String
    pub read : named loads guard.response_id guard.pending_body (chunks ++ last_chunk ∷ []) ≡ ok id
    pub all :
        delivered ++ (held_back guard.pending_body chunks ++ last_chunk)
        ≡ guard.pending_body ++ joined chunks last_chunk
    pub ends :
        Ends dumps id
          (guard.saw_completed
            || any shows_completed
                (windows guard.marker_tail guard.pending_body (chunks ++ last_chunk ∷ [])))
          (guard.saw_done
            || any shows_done
                (windows guard.marker_tail guard.pending_body (chunks ++ last_chunk ∷ [])))
          (held_back guard.pending_body chunks ++ last_chunk)
          ending
    pub is_sent : sent ≡ delivered ++ ending

  IsComplete-IsEnded :
      (guard : Guard) (chunks : List Bytes) (last_chunk : Bytes) (sent : List Message)
      → IsComplete loads dumps
          (watched loads guard chunks)
          last_chunk
          (guard.pending_body ++ joined chunks last_chunk)
          sent
      → IsEnded guard chunks last_chunk (carried sent)
  unfolding IsComplete observed
  IsComplete-IsEnded guard chunks last_chunk sent
        (delivered, before, id, reached, found, parts, same) =
      let knows = watched-Knows loads guard chunks last_chunk before id reached found in
      record {
        delivered = delivered;
        ending =
            closed dumps (observed id (before.pending_body ++ last_chunk) before)
              (before.pending_body ++ last_chunk);
        id = id;
        read = knows.read;
        all = rw (← knows.pending) parts;
        ends =
            rw (← knows.pending, ← knows.completed, ← knows.finished)
              (closed-Ends dumps (observed id (before.pending_body ++ last_chunk) before)
                (before.pending_body ++ last_chunk));
        is_sent = same;
      }

  -- Unless reading an id raises, a Responses stream reaches the client whole, however it is cut into
  -- bodies: all bytes in their order, and only in what the last body came behind, the fewer than 28 bytes
  -- that were kept back and the body itself, something is added. The completion event, under the id that
  -- was read, stands there in front of a done line, or at the end if there is none, exactly if no window of
  -- the stream has shown the event in either of its forms; the done line is added behind it exactly if no
  -- window has shown one. A window is what was kept back and a body, behind the last 64 bytes searched.
  pub send_all-IsEnded :
      (guard : Guard) (chunks : List Bytes) (last_chunk : Bytes) (sent : List Message)
      (final : Guard)
      → guard.is_responses_sse ≡ true
      → send_all loads dumps guard (bodies chunks last_chunk) ≡ ok (sent, final)
      → IsEnded guard chunks last_chunk (carried sent)
  send_all-IsEnded guard chunks last_chunk sent final sse h =
      IsComplete-IsEnded guard chunks last_chunk sent
        (send_all-IsComplete loads dumps guard chunks last_chunk sent final sse h)
