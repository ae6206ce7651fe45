-- ===== src/Completion/Transparent.antt =====
-- What a client receives of a stream behind responses_sse_completion.py.
pub mod Endings
use mathlib.Core.Path.{subst}
use mathlib.Core.List.{append_assoc, append-nil}
use reverso_llm.Prelude.{
  ◌-◌, String, Bool, true, false, List, [], ◌∷◌, ◌++◌, ◌≡◌, refl, sym, ap, ◌∙◌, if◌then◌else◌, ltb,
  length, ◌⊎◌, Bool-cases, inl, inr,
}
use reverso_llm.Json.{Json}
use reverso_llm.Outcome.{Outcome, ok, raised, ◌>>=◌}
use reverso_llm.Bytes.{Bytes, last, front-drop}
use reverso_llm.Completion.{
  Guard, Message, start, body, other, tail_size, keep_back, extract_response_id, observed, closed,
  send_body, wrapped_send, send_all,
}

Outcome-cases {ℓ} :
    {A : Type ℓ} (m : Outcome A) → ((name : String) × (m ≡ raised name)) ⊎ ((a : A) × (m ≡ ok a))
Outcome-cases (raised name) = inl (name, refl)
Outcome-cases (ok a) = inr (a, refl)

-- The bytes that messages carry.
unfoldable pub carried : List Message → Bytes
carried [] = []
carried (start _ ∷ rest) = carried rest
carried (body s _ ∷ rest) = s ++ carried rest
carried (other ∷ rest) = carried rest

carried-append : (xs ys : List Message) → carried (xs ++ ys) ≡ carried xs ++ carried ys
unfolding carried
carried-append [] ys = refl
carried-append (start _ ∷ xs) ys = carried-append xs ys
carried-append (other ∷ xs) ys = carried-append xs ys
carried-append (body s _ ∷ xs) ys =
    ap (λ rest. s ++ rest) (carried-append xs ys) ∙ sym (append_assoc s _ _)

carried-keep_back : (s : Bytes) → carried (keep_back s).0 ++ (keep_back s).1 ≡ s
unfolding carried keep_back
carried-keep_back s = elim (Bool-cases (ltb tail_size (length s))) [
  | inl e ↦
      rw e (ap (λ a. a ++ last tail_size s) (append-nil _) ∙ front-drop (length s - tail_size) s)
  | inr e ↦ rw e refl
]

-- The bodies of a stream: all but the last with more to come.
unfoldable pub bodies : List Bytes → Bytes → List Message
bodies [] last_chunk = body last_chunk false ∷ []
bodies (chunk ∷ chunks) last_chunk = body chunk true ∷ bodies chunks last_chunk

abbrev pub joined : List Bytes → Bytes → Bytes
joined [] last_chunk = last_chunk
joined (chunk ∷ chunks) last_chunk = chunk ++ joined chunks last_chunk

module _ (loads : Bytes → Outcome Json) where
  -- The state behind bodies with more to come.
  unfoldable pub watched : Guard → List Bytes → Outcome Guard
  watched guard [] = ok guard
  watched guard (chunk ∷ chunks) =
      extract_response_id loads (guard.pending_body ++ chunk) guard.response_id >>= (λ id.
        watched
          (record (observed id (guard.pending_body ++ chunk) guard) {
            pending_body = (keep_back (guard.pending_body ++ chunk)).1;
          })
          chunks)

module _ (loads : Bytes → Outcome Json) (dumps : Json → Bytes) where
  -- The client has all that came, in its order, but that the bytes that were pending at the last body go
  -- with it through `closed`, in the state that the stream has led to.
  unfoldable pub IsComplete : Outcome Guard → Bytes → Bytes → List Message → Type 0
  IsComplete state last_chunk all sent =
      (delivered : Bytes) × (before : Guard) × (id : String) × (state ≡ ok before)
      × (extract_response_id loads (before.pending_body ++ last_chunk) before.response_id ≡ ok id)
      × (delivered ++ (before.pending_body ++ last_chunk) ≡ all)
      × (carried sent
          ≡ delivered
            ++ closed dumps (observed id (before.pending_body ++ last_chunk) before)
                (before.pending_body ++ last_chunk))

  -- The same of an outcome, if it is one without an exception.
  Passes : Outcome Guard → Bytes → Bytes → Outcome (List Message × Guard) → Type 0
  Passes state last_chunk all (raised _) = Unit
  Passes state last_chunk all (ok (sent, _)) = IsComplete state last_chunk all sent

  IsComplete-append :
      (state : Outcome Guard) (last_chunk : Bytes) (first rest : List Message) (all : Bytes)
      → IsComplete state last_chunk all rest
      → IsComplete state last_chunk (carried first ++ all) (first ++ rest)
  unfolding IsComplete
  IsComplete-append state last_chunk first rest all
        (delivered, before, id, reached, named, parts, same) =
      (
        carried first ++ delivered,
        before,
        id,
        reached,
        named,
        append_assoc (carried first) delivered _ ∙ ap (λ a. carried first ++ a) parts,
        carried-append first rest
            ∙ ap (λ a. carried first ++ a) same
            ∙ sym (append_assoc (carried first) delivered _),
      )

  Passes-append :
      (state : Outcome Guard) (last_chunk : Bytes) (first : List Message) (all : Bytes)
      (r : Outcome (List Message × Guard))
      → Passes state last_chunk all r
      → Passes state last_chunk (carried first ++ all) (r >>= (λ x. ok (first ++ x.0, x.1)))
  unfolding Passes
  Passes-append state last_chunk first all (raised _) h = h
  Passes-append state last_chunk first all (ok (rest, final)) h =
      IsComplete-append state last_chunk first rest all h

  wrapped_send-body :
      (guard : Guard) (chunk : Bytes) (more : Bool)
      → guard.is_responses_sse ≡ true
      → wrapped_send loads dumps guard (body chunk more) ≡ send_body loads dumps guard chunk more
  unfolding wrapped_send
  wrapped_send-body guard chunk more sse =
      ap
        (λ b.
          if b then send_body loads dumps guard chunk more else ok (body chunk more ∷ [], guard))
        sse

  -- What came is what is sent, what is kept back, and what follows.
  split_again :
      (pending chunk rest : Bytes)
      → pending ++ (chunk ++ rest)
        ≡ carried (keep_back (pending ++ chunk)).0 ++ ((keep_back (pending ++ chunk)).1 ++ rest)
  split_again pending chunk rest =
      sym (append_assoc pending chunk rest)
      ∙ ap (λ a. a ++ rest) (sym (carried-keep_back (pending ++ chunk)))
      ∙ append_assoc (carried (keep_back (pending ++ chunk)).0) _ rest

  send_all-last :
      (guard : Guard) (chunk : Bytes)
      → guard.is_responses_sse ≡ true
      → Passes
          (ok guard)
          chunk
          (guard.pending_body ++ chunk)
          (send_all loads dumps guard (body chunk false ∷ []))
  unfolding send_all send_body IsComplete Passes carried
  send_all-last guard chunk sse =
      elim (Outcome-cases
        (extract_response_id loads (guard.pending_body ++ chunk) guard.response_id)) [
          | inl (name, e) ↦ rw (wrapped_send-body guard chunk _ sse, e) tt
          | inr (id, e) ↦
              rw (wrapped_send-body guard chunk false sse, e)
                ([], guard, id, refl, e, refl, append-nil _)
        ]

  send_all-bodies :
      (guard : Guard) (chunks : List Bytes) (last_chunk : Bytes)
      → guard.is_responses_sse ≡ true
      → Passes
          (watched loads guard chunks)
          last_chunk
          (guard.pending_body ++ joined chunks last_chunk)
          (send_all loads dumps guard (bodies chunks last_chunk))
  unfolding bodies send_all send_body Passes observed watched
  send_all-bodies guard [] last_chunk sse = send_all-last guard last_chunk sse
  send_all-bodies guard (chunk ∷ chunks) last_chunk sse =
      elim (Outcome-cases
        (extract_response_id loads (guard.pending_body ++ chunk) guard.response_id)) [
          | inl (name, e) ↦ rw (wrapped_send-body guard chunk _ sse, e) tt
          | inr (id, e) ↦
              rw (wrapped_send-body guard chunk true sse, e)
                (rw (split_again guard.pending_body chunk (joined chunks last_chunk)) (
                  Passes-append _ last_chunk (keep_back (guard.pending_body ++ chunk)).0 _ _ (
                    send_all-bodies
                      (record (observed id (guard.pending_body ++ chunk) guard) {
                        pending_body = (keep_back (guard.pending_body ++ chunk)).1;
                      })
                      chunks last_chunk sse)))
        ]

  -- Nothing of a Responses stream is lost, repeated or reordered on its way to the client: unless reading
  -- an id raises, the bytes that are sent for a stream, however it is cut into bodies, are all bytes that
  -- came in their order, but that the last body, with what was kept back in front of it, goes through
  -- `closed` in the state that the bodies before it have led to.
  pub send_all-IsComplete :
      (guard : Guard) (chunks : List Bytes) (last_chunk : Bytes) (sent : List Message)
      (final : Guard)
      → guard.is_responses_sse ≡ true
      → send_all loads dumps guard (bodies chunks last_chunk) ≡ ok (sent, final)
      → IsComplete
          (watched loads guard chunks)
          last_chunk
          (guard.pending_body ++ joined chunks last_chunk)
          sent
  unfolding Passes
  send_all-IsComplete guard chunks last_chunk sent final sse h =
      subst
        (Passes (watched loads guard chunks) last_chunk
          (guard.pending_body ++ joined chunks last_chunk))
        h (send_all-bodies guard chunks last_chunk sse)
