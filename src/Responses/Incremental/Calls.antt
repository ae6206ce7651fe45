-- ===== src/Responses/Incremental/Calls.antt =====
-- How the deltas of tool calls accumulate in the buffer.
use Prim.Native.String.{◌++◌ as str_append}
use mathlib.Core.Path.{subst}
use reverso_llm.Prelude.{
  String, Bool, false, Option, none, some, List, [], ◌∷◌, if◌then◌else◌, ◌==◌, ◌≡◌, refl, sym, ap,
  ◌∙◌, Bool-cases, inl, inr, text_key, arith,
}
use reverso_llm.Prelude.Int.{ℤ, pos, int_key}
use reverso_llm.Prelude.Dict
use reverso_llm.Prelude.Dict.{Dict}
use reverso_llm.Json.{
  Json, null, bool, int, real, str, arr, obj, Items, nil, cons, Fields, get, is_some,
}
use reverso_llm.Responses.Incremental.{
  ToolCall, no_call, ReplayState, call_index, extended, with_function, slot_of, merge, absorb_call,
  absorb_calls,
}

-- The index that a delta goes to: its own, where a Boolean is one too, and else the last one.
abbrev index_of : Json → Option ℤ → Option ℤ
index_of (int j) last = some j
index_of (bool b) last = some (if b then pos 1 else pos 0)
index_of _ last = last

-- Every delta carries an index, or comes behind one that has its place.
unfoldable pub IsPlaced : Option ℤ → Items → Type 0
IsPlaced last nil = Unit
IsPlaced last (cons (obj raw_call) calls) =
    ((j : ℤ) × (index_of (get "index" raw_call) last ≡ some j))
    × IsPlaced (index_of (get "index" raw_call) last) calls
IsPlaced last (cons _ calls) = IsPlaced last calls

abbrev is_at : ℤ → Option ℤ → Bool
is_at i (some j) = j == i
is_at i none = false

-- The deltas of one index, in order, where `last` is the index in front of them.
pub deltas_of : ℤ → Option ℤ → Items → List Fields
deltas_of i last nil = []
deltas_of i last (cons (obj raw_call) calls) =
    let at = index_of (get "index" raw_call) last in
    let rest = deltas_of i at calls in if is_at i at then raw_call ∷ rest else rest
deltas_of i last (cons _ calls) = deltas_of i last calls

-- The last value under a key that is not null.
pub latest : String → List Fields → Json → Json
latest key [] value = value
latest key (raw_call ∷ calls) value =
    latest key calls (if is_some (get key raw_call) then get key raw_call else value)

abbrev followed : String → Json → String
followed text (str piece) = str_append text piece
followed text _ = text

abbrev followed_in : String → Json → String → String
followed_in key (obj function) text = followed text (get key function)
followed_in key _ text = text

-- A text with the texts under a key of the deltas' functions behind it.
pub gathered : String → List Fields → String → String
gathered key [] text = text
gathered key (raw_call ∷ calls) text =
    gathered key calls (followed_in key (get "function" raw_call) text)

-- A call with deltas: the last id and type that were given, the name and the arguments joined.
abbrev pub put_together : List Fields → ToolCall → ToolCall
put_together calls c = record {
  id = latest "id" calls c.id;
  type = latest "type" calls c.type;
  name = gathered "name" calls c.name;
  arguments = gathered "arguments" calls c.arguments;
}

-- A slot behind deltas: without one it is as it was, and a slot that was not there starts as a function
-- without an id, a name and arguments.
abbrev pub assembled : List Fields → Option ToolCall → Option ToolCall
assembled [] slot = slot
assembled (raw_call ∷ calls) (some c) = some (put_together (raw_call ∷ calls) c)
assembled (raw_call ∷ calls) none = some (
    put_together (raw_call ∷ calls)
      (record { id = null; type = str "function"; name = ""; arguments = "" }))

-- A slot behind deltas.
merged : List Fields → Option ToolCall → Option ToolCall
merged [] slot = slot
merged (raw_call ∷ calls) slot = merged calls (some (merge raw_call (slot_of slot)))

extended-followed : (text : String) (v : Json) → extended text v ≡ followed text v
unfolding extended
extended-followed text (str _) = refl
extended-followed text null = refl
extended-followed text (bool _) = refl
extended-followed text (int _) = refl
extended-followed text (real _ _) = refl
extended-followed text (arr _) = refl
extended-followed text (obj _) = refl

with_function-followed :
    (v : Json) (c : ToolCall)
    → with_function v c ≡ record c {
      name = followed_in "name" v c.name;
      arguments = followed_in "arguments" v c.arguments;
    }
unfolding with_function
with_function-followed (obj delta) c =
    rw
      (
        extended-followed c.name (get "name" delta),
        extended-followed c.arguments (get "arguments" delta),
      )
      refl
with_function-followed null c = refl
with_function-followed (bool _) c = refl
with_function-followed (int _) c = refl
with_function-followed (real _ _) c = refl
with_function-followed (str _) c = refl
with_function-followed (arr _) c = refl

merge-put_together :
    (raw_call : Fields) (c : ToolCall) → merge raw_call c ≡ put_together (raw_call ∷ []) c
unfolding merge latest gathered
merge-put_together raw_call c =
    with_function-followed (get "function" raw_call) _
    ∙ elim (Bool-cases (is_some (get "id" raw_call))) [
      | inl e ↦ elim (Bool-cases (is_some (get "type" raw_call))) [
        | inl f ↦ rw (e, f) refl
        | inr f ↦ rw (e, f) refl
      ]
      | inr e ↦ elim (Bool-cases (is_some (get "type" raw_call))) [
        | inl f ↦ rw (e, f) refl
        | inr f ↦ rw (e, f) refl
      ]
    ]

merged-put_together :
    (calls : List Fields) (c : ToolCall) → merged calls (some c) ≡ some (put_together calls c)
unfolding merged latest gathered
merged-put_together [] c = refl
merged-put_together (raw_call ∷ calls) c =
    ap (λ d. merged calls (some d)) (merge-put_together raw_call c)
    ∙ merged-put_together calls (put_together (raw_call ∷ []) c)

merged-assembled :
    (calls : List Fields) (slot : Option ToolCall) → merged calls slot ≡ assembled calls slot
unfolding merged latest gathered
merged-assembled [] slot = refl
merged-assembled (raw_call ∷ calls) (some c) = merged-put_together (raw_call ∷ calls) c
merged-assembled (raw_call ∷ calls) none = merged-put_together (raw_call ∷ calls) no_call

call_index-index_of :
    (v : Json) (last : Option ℤ) (buffer : Dict ℤ ToolCall) (j : ℤ)
    → index_of v last ≡ some j
    → call_index v last buffer ≡ j
call_index-index_of (int i) last buffer j e = cc
call_index-index_of (bool b) last buffer j e = cc
call_index-index_of null (some i) buffer j e = cc
call_index-index_of (real _ _) (some i) buffer j e = cc
call_index-index_of (str _) (some i) buffer j e = cc
call_index-index_of (arr _) (some i) buffer j e = cc
call_index-index_of (obj _) (some i) buffer j e = cc
call_index-index_of null none buffer j e = absurd (ground arith)
call_index-index_of (real _ _) none buffer j e = absurd (ground arith)
call_index-index_of (str _) none buffer j e = absurd (ground arith)
call_index-index_of (arr _) none buffer j e = absurd (ground arith)
call_index-index_of (obj _) none buffer j e = absurd (ground arith)

get-absorb_call :
    (i j : ℤ) (raw_call : Fields) (s : ReplayState)
    → index_of (get "index" raw_call) s.last_tool_call_index ≡ some j
    → Dict.get i (absorb_call raw_call s).tool_calls_buffer ≡ (
        if j == i
        then some (merge raw_call (slot_of (Dict.get i s.tool_calls_buffer)))
        else Dict.get i s.tool_calls_buffer)
unfolding absorb_call
get-absorb_call i j raw_call s e =
    rw
      (
        call_index-index_of (get "index" raw_call) s.last_tool_call_index s.tool_calls_buffer j e,
        Dict.get-put j i (merge raw_call (slot_of (Dict.get j s.tool_calls_buffer)))
            s.tool_calls_buffer,
      )
      (elim (Bool-cases (j == i)) [
        | inl same ↦ rw ((int_key.same_iff j i).0 same) refl
        | inr other ↦ rw other refl
      ])

last-absorb_call :
    (j : ℤ) (raw_call : Fields) (s : ReplayState)
    → index_of (get "index" raw_call) s.last_tool_call_index ≡ some j
    → (absorb_call raw_call s).last_tool_call_index ≡ some j
unfolding absorb_call
last-absorb_call j raw_call s e =
    ap some
      (call_index-index_of (get "index" raw_call) s.last_tool_call_index s.tool_calls_buffer j e)

merged-deltas_of :
    (i j : ℤ) (raw_call : Fields) (calls : Items) (s : ReplayState)
    → index_of (get "index" raw_call) s.last_tool_call_index ≡ some j
    → merged (deltas_of i (some j) calls) (Dict.get i (absorb_call raw_call s).tool_calls_buffer)
      ≡ merged
          (deltas_of i s.last_tool_call_index (cons (obj raw_call) calls))
          (Dict.get i s.tool_calls_buffer)
unfolding merged deltas_of
merged-deltas_of i j raw_call calls s e =
    rw (get-absorb_call i j raw_call s e, e)
      (elim (Bool-cases (j == i)) [ inl same ↦ rw same refl | inr other ↦ rw other refl ])

absorb_calls-deltas_of :
    (i : ℤ) (calls : Items) (s : ReplayState)
    → IsPlaced s.last_tool_call_index calls
    → Dict.get i (absorb_calls calls s).tool_calls_buffer
      ≡ merged (deltas_of i s.last_tool_call_index calls) (Dict.get i s.tool_calls_buffer)
unfolding absorb_calls merged deltas_of IsPlaced
absorb_calls-deltas_of i nil s h = refl
absorb_calls-deltas_of i (cons (obj raw_call) calls) s ((j, e), h) =
    let last = last-absorb_call j raw_call s e in
    absorb_calls-deltas_of i calls (absorb_call raw_call s)
      (subst (λ (at : Option ℤ). IsPlaced at calls) (e ∙ sym last) h)
    ∙ ap
        (λ at.
          merged (deltas_of i at calls) (Dict.get i (absorb_call raw_call s).tool_calls_buffer))
        last
    ∙ merged-deltas_of i j raw_call calls s e
absorb_calls-deltas_of i (cons null calls) s h = absorb_calls-deltas_of i calls s h
absorb_calls-deltas_of i (cons (bool _) calls) s h = absorb_calls-deltas_of i calls s h
absorb_calls-deltas_of i (cons (int _) calls) s h = absorb_calls-deltas_of i calls s h
absorb_calls-deltas_of i (cons (real _ _) calls) s h = absorb_calls-deltas_of i calls s h
absorb_calls-deltas_of i (cons (str _) calls) s h = absorb_calls-deltas_of i calls s h
absorb_calls-deltas_of i (cons (arr _) calls) s h = absorb_calls-deltas_of i calls s h

-- Calls whose deltas are interleaved do not mix: behind deltas each of which carries an index or follows
-- one that has its place, the slot of an index is what it was, if none of them goes there; otherwise it
-- holds the last id and type that these deltas gave, and their names and arguments joined in their order
-- behind what the slot held.
pub absorb_calls-assembled :
    (i : ℤ) (calls : Items) (s : ReplayState)
    → IsPlaced s.last_tool_call_index calls
    → Dict.get i (absorb_calls calls s).tool_calls_buffer
      ≡ assembled (deltas_of i s.last_tool_call_index calls) (Dict.get i s.tool_calls_buffer)
absorb_calls-assembled i calls s h =
    absorb_calls-deltas_of i calls s h
    ∙ merged-assembled (deltas_of i s.last_tool_call_index calls) (Dict.get i s.tool_calls_buffer)
