-- ===== src/Routing/Bodies.antt =====
-- The requests that profile_routing.py reads and replays: `_read_body` and `_receive_replay`.
use mathlib.Core.List.{append_assoc}
use reverso_llm.Prelude.{Bool, true, false, List, [], ◌∷◌, ◌++◌, ◌≡◌, refl, ap, ◌∙◌, if◌then◌else◌}
use reverso_llm.Bytes.{Bytes}

-- What `receive` answers.
pub data Message : Type 0 where
  request : (body : Bytes) (more_body : Bool) → Message
  disconnect : Message
  other : Message

-- The end of the reading, with the messages that are left to receive. A source that runs out of
-- messages leaves its reader waiting.
pub data Read : Type 0 where
  complete : Bytes → List Message → Read
  disconnected : List Message → Read
  waiting : Read

-- The loop, with the joined chunks so far.
unfoldable pub read_on : Bytes → List Message → Read
read_on body [] = waiting
read_on body (disconnect ∷ source) = disconnected source
read_on body (other ∷ source) = complete body source
read_on body (request chunk more ∷ source) =
    let rest = read_on (body ++ chunk) source in
    if more then rest else complete (body ++ chunk) source

abbrev pub read_body : List Message → Read
read_body source = read_on [] source

-- What the receive callable of `_receive_replay` answers, and that of `_receive_disconnect`, which
-- answers this on every call.
abbrev pub receive_replay : Bytes → List Message → List Message
receive_replay body source = request body false ∷ source

-- The chunks of a request that arrives whole.
pub chunked : List Bytes → Bytes → List Message
chunked [] last = request last false ∷ []
chunked (chunk ∷ chunks) last = request chunk true ∷ chunked chunks last

pub joined : List Bytes → Bytes → Bytes
joined [] last = last
joined (chunk ∷ chunks) last = chunk ++ joined chunks last

read_on-chunked :
    (body : Bytes) (chunks : List Bytes) (last : Bytes) (source : List Message)
    → read_on body (chunked chunks last ++ source) ≡ complete (body ++ joined chunks last) source
unfolding read_on chunked joined
read_on-chunked body [] last source = refl
read_on-chunked body (chunk ∷ chunks) last source =
    read_on-chunked (body ++ chunk) chunks last source
    ∙ ap (λ b. complete b source) (append_assoc body chunk _)

-- However a client cuts a body into chunks, its reader gets the whole body and leaves the messages
-- behind it, and the replayed request gives the next reader the same body and the same messages.
pub read_body-receive_replay :
    (chunks : List Bytes) (last : Bytes) (source : List Message)
    → (read_body (chunked chunks last ++ source) ≡ complete (joined chunks last) source)
      × (read_body (receive_replay (joined chunks last) source)
          ≡ complete (joined chunks last) source)
unfolding read_on
read_body-receive_replay chunks last source = (read_on-chunked [] chunks last source, refl)
