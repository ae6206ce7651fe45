-- ===== src/Features/Anthropic.antt =====
-- reverso/protocols/anthropic_feature_gate.py: which features a Messages payload uses, the strip of
-- those that degrade, and the gate. A decoded payload is a tree, so a change in place is a new tree.
pub mod Blocks
pub mod Lockstep
use reverso_llm.Prelude.{
  ℕ, zero, suc, String, Bool, true, false, ◌||◌, List, [], ◌∷◌, ◌++◌, if◌then◌else◌,
}
use reverso_llm.Json.{
  Json, null, bool, int, real, str, arr, obj, Items, nil, cons, Fields, get, put, pop, is_some,
  is_text,
}
use reverso_llm.Features.Table.{Tables, FeatureCheck, check_features}

-- A set of the four features, `found` in the source.
pub record FeatureSet : Type 0 where
  pub cache_control : Bool
  pub image : Bool
  pub thinking : Bool
  pub tools : Bool

abbrev pub nothing : FeatureSet
nothing = record { cache_control = false; image = false; thinking = false; tools = false }

-- A scan may go into blocks within blocks while the depth is at most `_MAX_BLOCK_DEPTH`, eight; a
-- scan that may go down `levels` more is at the depth 9 - levels.
abbrev pub max_levels : ℕ
max_levels = 9

abbrev pub is_thinking : Json → Bool
is_thinking kind = if is_text "thinking" kind then true else is_text "redacted_thinking" kind

-- `if _has_cache_control(block): found.add(FEATURE_CACHE_CONTROL)`
abbrev pub note_cache_control : Fields → FeatureSet → FeatureSet
note_cache_control fs found =
    if is_some (get "cache_control" fs) then record found { cache_control = true } else found

-- One block by its `type`; `inner` scans the list of blocks inside it.
unfoldable pub scan_kind : (Json → FeatureSet → FeatureSet) → Json → Json → FeatureSet → FeatureSet
scan_kind inner kind content noted =
    let within = inner content noted in
    if is_text "image" kind
    then record noted { image = true }
    else if is_thinking kind
    then record noted { thinking = true }
    else if is_text "tool_result" kind
    then within
    else noted

abbrev pub scan_block : (Json → FeatureSet → FeatureSet) → Fields → FeatureSet → FeatureSet
scan_block inner fs found =
    scan_kind inner (get "type" fs) (get "content" fs) (note_cache_control fs found)

unfoldable pub scan_items : (Json → FeatureSet → FeatureSet) → Items → FeatureSet → FeatureSet
scan_items inner nil found = found
scan_items inner (cons (obj fs) blocks) found = scan_items inner blocks (scan_block inner fs found)
scan_items inner (cons _ blocks) found = scan_items inner blocks found

unfoldable pub scan_block_list : ℕ → Json → FeatureSet → FeatureSet
scan_block_list zero blocks found = found
scan_block_list (suc levels) (arr blocks) found = scan_items (scan_block_list levels) blocks found
scan_block_list (suc levels) _ found = found

abbrev pub scan_message : Json → FeatureSet → FeatureSet
scan_message content found = elim content [
  | arr blocks ↦ scan_block_list max_levels (arr blocks) found
  | _ ↦ found
]

unfoldable pub scan_messages : Items → FeatureSet → FeatureSet
scan_messages nil found = found
scan_messages (cons (obj fs) messages) found =
    scan_messages messages (scan_message (get "content" fs) found)
scan_messages (cons _ messages) found = scan_messages messages found

unfoldable pub scan_system : Items → FeatureSet → FeatureSet
scan_system nil found = found
scan_system (cons (obj fs) blocks) found = scan_system blocks (note_cache_control fs found)
scan_system (cons _ blocks) found = scan_system blocks found

-- The loop; `tools` notes that a definition was seen.
unfoldable pub scan_tools : Items → FeatureSet → FeatureSet
scan_tools nil found = found
scan_tools (cons (obj fs) tools) found =
    scan_tools tools (record (note_cache_control fs found) { tools = true })
scan_tools (cons _ tools) found = scan_tools tools found

-- A scan of a value that does nothing unless the value is a list.
abbrev pub over_list : (Items → FeatureSet → FeatureSet) → Json → FeatureSet → FeatureSet
over_list scan (arr vs) found = scan vs found
over_list scan _ found = found

unfoldable pub scan_payload : Fields → FeatureSet
scan_payload payload = over_list scan_tools (get "tools" payload) (
    over_list scan_system (get "system" payload)
      (over_list scan_messages (get "messages" payload) nothing))

unfoldable pub extract_anthropic_features : Json → FeatureSet
extract_anthropic_features (obj payload) =
    if is_some (get "thinking" payload)
    then record (scan_payload payload) { thinking = true }
    else scan_payload payload
extract_anthropic_features _ = nothing

-- A block that stays, without its cache_control; `inner` strips the blocks in a tool's result.
unfoldable pub strip_block : (Json → Json) → Fields → Fields
strip_block inner fs =
    let popped = pop "cache_control" fs in
    if is_text "tool_result" (get "type" popped)
    then put "content" (inner (get "content" popped)) popped
    else popped

unfoldable pub strip_items : (Json → Json) → Items → Items
strip_items inner nil = nil
strip_items inner (cons (obj fs) blocks) =
    let rest = strip_items inner blocks in
    if is_thinking (get "type" fs) then rest else cons (obj (strip_block inner fs)) rest
strip_items inner (cons block blocks) = cons block (strip_items inner blocks)

unfoldable pub strip_degradable_blocks : ℕ → Json → Json
strip_degradable_blocks zero blocks = blocks
strip_degradable_blocks (suc levels) (arr blocks) =
    arr (strip_items (strip_degradable_blocks levels) blocks)
strip_degradable_blocks (suc levels) blocks = blocks

abbrev pub strip_message : Json → Fields → Fields
strip_message content fs = elim content [
  | arr blocks ↦ put "content" (strip_degradable_blocks max_levels (arr blocks)) fs
  | _ ↦ fs
]

unfoldable pub strip_messages : Items → Items
strip_messages nil = nil
strip_messages (cons (obj fs) messages) =
    cons (obj (strip_message (get "content" fs) fs)) (strip_messages messages)
strip_messages (cons message messages) = cons message (strip_messages messages)

-- The loops over the system's blocks and the tools.
unfoldable pub strip_cache_control : Items → Items
strip_cache_control nil = nil
strip_cache_control (cons (obj fs) vs) =
    cons (obj (pop "cache_control" fs)) (strip_cache_control vs)
strip_cache_control (cons v vs) = cons v (strip_cache_control vs)

-- The value of a key, changed in place if it is a list.
unfoldable pub strip_list : (Items → Items) → String → Fields → Fields
strip_list strip key payload = elim (get key payload) [
  | arr vs ↦ put key (arr (strip vs)) payload
  | _ ↦ payload
]

unfoldable pub strip_payload : Fields → Fields
strip_payload payload = strip_list strip_cache_control "tools" (
    strip_list strip_cache_control "system"
      (strip_list strip_messages "messages" (pop "thinking" payload)))

unfoldable pub strip_degradable_features : Json → Json
strip_degradable_features (obj payload) = obj (strip_payload payload)
strip_degradable_features payload = payload

-- The members of the set, in some order.
abbrev pub members : FeatureSet → List String
members found =
    (if found.image then "input.image" ∷ [] else [])
    ++ (if found.thinking then "thinking" ∷ [] else [])
    ++ (if found.cache_control then "caching.cache_control" ∷ [] else [])
    ++ (if found.tools then "tools.function" ∷ [] else [])

unfoldable pub gate_anthropic_features : Tables → Json → String → FeatureCheck
gate_anthropic_features tables payload backend =
    check_features tables backend (members (extract_anthropic_features payload))
