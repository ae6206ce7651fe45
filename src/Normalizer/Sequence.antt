-- ===== src/Normalizer/Sequence.antt =====
-- Calls, outputs and messages in a normalized input, in codex_responses_normalizer.py.
use reverso_llm.Prelude.{
  String, Bool, true, false, ◌&&◌, List, [], ◌∷◌, ◌≡◌, refl, arith, if◌then◌else◌, Bool-cases, inl,
  inr, ◌==◌, text_key, contains,
}
use reverso_llm.Json.{Json, null, bool, int, real, str, arr, obj, get, is_text}
use reverso_llm.Normalizer.{
  is_kind, is_assistant_message_item, add_id, without_id, discard_id, call_id_of, any_pending,
  pending_after, is_dropped, sanitize, sanitize_input_tool_sequence,
}

-- No item stands where the sanitizer would drop it.
unfoldable is_clean : List String → List Json → Bool
is_clean pending [] = true
is_clean pending (item ∷ rest) =
    let later = is_clean (pending_after item pending) rest in
    if is_dropped item pending then false else later

-- The items that are no assistant messages.
unfoldable pub others : List Json → List Json
others [] = []
others (item ∷ rest) =
    let kept = others rest in if is_assistant_message_item item then kept else item ∷ kept

sanitize-is_clean :
    (pending : List String) (vs : List Json) → is_clean pending (sanitize pending vs) ≡ true
unfolding is_clean sanitize
sanitize-is_clean pending [] = refl
sanitize-is_clean pending (item ∷ rest) = elim (Bool-cases (is_dropped item pending)) [
  | inl e ↦ rw e (sanitize-is_clean pending rest)
  | inr e ↦ rw (e, e) (sanitize-is_clean (pending_after item pending) rest)
]

sanitize-clean :
    (pending : List String) (vs : List Json) → is_clean pending vs ≡ true → sanitize pending vs ≡ vs
unfolding is_clean sanitize
sanitize-clean pending [] h = refl
sanitize-clean pending (item ∷ rest) h =
    ground (arith, sanitize-clean (pending_after item pending) rest)

others-sanitize :
    (pending : List String) (vs : List Json) → others (sanitize pending vs) ≡ others vs
unfolding others sanitize is_dropped
others-sanitize pending [] = refl
others-sanitize pending (item ∷ rest) =
    ground (arith, others-sanitize pending rest, others-sanitize (pending_after item pending) rest)

-- An item of a kind that carries an id as its call_id.
abbrev mentions : String → String → Json → Bool
mentions kind id item = is_kind kind item && is_text id (call_id_of item)

-- A call of an id waits behind some items, the last one first: the last call or output of the id is a
-- call.
unfoldable pub is_waiting : String → List Json → Bool
is_waiting id [] = false
is_waiting id (item ∷ before) =
    let earlier = is_waiting id before in
    if mentions "function_call" id item
    then true
    else if mentions "function_call_output" id item
    then false
    else earlier

-- What the items that come become behind the items that were kept, the last one first: an assistant
-- message is left out exactly if a call waits in front of it, and every other item is kept.
pub data Sanitized : List Json → List Json → List Json → Type 0 where
  ends : {before : List Json} → Sanitized before [] []
  keeps :
      {item : Json} {before rest out : List Json}
      → (is_assistant_message_item item ≡ true → (id : String) → is_waiting id before ≡ false)
      → Sanitized (item ∷ before) rest out
      → Sanitized before (item ∷ rest) (item ∷ out)
  leaves :
      {item : Json} {before rest out : List Json} (id : String)
      → is_assistant_message_item item ≡ true
      → is_waiting id before ≡ true
      → Sanitized before rest out
      → Sanitized before (item ∷ rest) out

contains-add_id :
    (j : String) (v : Json) (pending : List String)
    → contains j (add_id v pending) ≡ (if is_text j v then true else contains j pending)
unfolding contains
contains-add_id j (str i) pending = ground (arith, text_key.same_iff i j, text_key.same_iff i i)
contains-add_id j null pending = refl
contains-add_id j (bool _) pending = refl
contains-add_id j (int _) pending = refl
contains-add_id j (real _ _) pending = refl
contains-add_id j (arr _) pending = refl
contains-add_id j (obj _) pending = refl

contains-without_id :
    (j i : String) (pending : List String)
    → contains j (without_id i pending) ≡ (if i == j then false else contains j pending)
unfolding contains without_id
contains-without_id j i [] = ground arith
contains-without_id j i (k ∷ pending) = ground (
  arith,
  contains-without_id j i pending,
  text_key.same_iff k i,
  text_key.same_iff k j,
  text_key.same_iff i j,
)

contains-discard_id :
    (j : String) (v : Json) (pending : List String)
    → contains j (discard_id v pending) ≡ (if is_text j v then false else contains j pending)
contains-discard_id j (str i) pending = contains-without_id j i pending
contains-discard_id j null pending = refl
contains-discard_id j (bool _) pending = refl
contains-discard_id j (int _) pending = refl
contains-discard_id j (real _ _) pending = refl
contains-discard_id j (arr _) pending = refl
contains-discard_id j (obj _) pending = refl

-- The pending ids are those of the calls that wait.
abbrev Tracks : List String → List Json → Type 0
Tracks pending before = (id : String) → contains id pending ≡ is_waiting id before

Tracks-pending_after :
    (item : Json) (pending : List String) (before : List Json)
    → Tracks pending before
    → Tracks (pending_after item pending) (item ∷ before)
unfolding pending_after is_waiting
Tracks-pending_after item pending before h j = ground (
  arith,
  h j,
  contains-add_id j (call_id_of item) pending,
  contains-discard_id j (call_id_of item) pending,
)

waiting :
    (pending : List String) (before : List Json)
    → Tracks pending before
    → any_pending pending ≡ true
    → (id : String) × (is_waiting id before ≡ true)
unfolding contains
waiting [] before h some_pending = absurd (ground arith)
waiting (id ∷ pending) before h some_pending = (id, ground (arith, h id, text_key.same_iff id id))

none_waiting :
    (pending : List String) (before : List Json)
    → Tracks pending before
    → any_pending pending ≡ false
    → (id : String) → is_waiting id before ≡ false
unfolding contains
none_waiting [] before h none_pending id = ground (arith, h id)
none_waiting (_ ∷ _) before h none_pending id = absurd (ground arith)

-- A message is no call.
is_kind-is_assistant_message_item :
    (item : Json) → is_assistant_message_item item ≡ true → is_kind "function_call" item ≡ false
unfolding is_assistant_message_item
is_kind-is_assistant_message_item (obj fs) h = message (get "type" fs) (ground arith)
  where
    message : (kind : Json) → is_text "message" kind ≡ true → is_text "function_call" kind ≡ false
    message (str t) e = rw ((text_key.same_iff t "message").0 e) refl
    message null e = refl
    message (bool _) e = refl
    message (int _) e = refl
    message (real _ _) e = refl
    message (arr _) e = refl
    message (obj _) e = refl
is_kind-is_assistant_message_item null h = refl
is_kind-is_assistant_message_item (bool _) h = refl
is_kind-is_assistant_message_item (int _) h = refl
is_kind-is_assistant_message_item (real _ _) h = refl
is_kind-is_assistant_message_item (str _) h = refl
is_kind-is_assistant_message_item (arr _) h = refl

dropped :
    (item : Json) (pending : List String)
    → is_dropped item pending ≡ true
    → (is_assistant_message_item item ≡ true) × (any_pending pending ≡ true)
unfolding is_dropped
dropped item pending e = (ground arith, ground arith)

kept :
    (item : Json) (pending : List String)
    → is_dropped item pending ≡ false
    → is_assistant_message_item item ≡ true
    → any_pending pending ≡ false
unfolding is_dropped
kept item pending e says = let no_call = is_kind-is_assistant_message_item item says in ground arith

sanitize-Sanitized :
    (pending : List String) (before vs : List Json)
    → Tracks pending before
    → Sanitized before vs (sanitize pending vs)
unfolding sanitize
sanitize-Sanitized pending before [] h = ends
sanitize-Sanitized pending before (item ∷ rest) h = elim (Bool-cases (is_dropped item pending)) [
  | inl e ↦
      let (says, some_pending) = dropped item pending e in
      let (id, waits) = waiting pending before h some_pending in
      rw e (leaves id says waits (sanitize-Sanitized pending before rest h))
  | inr e ↦ rw e (
      keeps (λ says. none_waiting pending before h (kept item pending e says))
        (sanitize-Sanitized (pending_after item pending) (item ∷ before) rest
          (Tracks-pending_after item pending before h)))
]

-- From a sanitized input an assistant message is left out exactly if a call in front of it waits for its
-- output: the last item among those kept so far that is a call or an output of that id is a call. All
-- other items are kept, in their order, and sanitizing again changes nothing.
pub sanitize-sanitize :
    (vs : List Json)
    → Sanitized [] vs (sanitize_input_tool_sequence vs)
      × (others (sanitize_input_tool_sequence vs) ≡ others vs)
      × (sanitize_input_tool_sequence (sanitize_input_tool_sequence vs)
          ≡ sanitize_input_tool_sequence vs)
unfolding contains is_waiting
sanitize-sanitize vs = (
  sanitize-Sanitized [] [] vs (λ id. refl),
  others-sanitize [] vs,
  sanitize-clean [] (sanitize_input_tool_sequence vs) (sanitize-is_clean [] vs),
)
