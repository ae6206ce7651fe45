-- ===== src/Features/Anthropic/Blocks.antt =====
-- The strip and the scan of anthropic_feature_gate.py go through the same blocks: the loops.
use reverso_llm.Prelude.{
  ℕ, zero, suc, String, true, false, if◌then◌else◌, ◌≡◌, refl, sym, ap, ◌∙◌, inl, inr, Bool-cases,
  arith, text_key, ◌==◌,
}
use mathlib.Core.Bool.{true≢false}
use reverso_llm.Json.{
  Json, null, bool, int, real, str, arr, obj, Items, nil, cons, Fields, get, pop, is_text, get-put,
  get-pop,
}
use reverso_llm.Features.Anthropic.{
  FeatureSet, scan_kind, scan_block, scan_items, scan_block_list, scan_message, scan_messages,
  scan_system, scan_tools, strip_block, strip_items, strip_degradable_blocks, strip_message,
  strip_messages, strip_cache_control, is_thinking, note_cache_control, max_levels,
}

-- What is left of the features when the degradable ones are gone.
abbrev pub degraded : FeatureSet → FeatureSet
degraded found = record found { cache_control = false; thinking = false }

note-pop :
    (fs : Fields) (found : FeatureSet) → note_cache_control (pop "cache_control" fs) found ≡ found
note-pop fs found = rw (get-pop "cache_control" "cache_control" fs) refl

pub degraded-note :
    (fs : Fields) (found : FeatureSet) → degraded (note_cache_control fs found) ≡ degraded found
degraded-note fs found = ground arith

thinking_not_image : (kind : Json) → is_thinking kind ≡ true → is_text "image" kind ≡ false
thinking_not_image (str t) h = elim (Bool-cases (t == "image")) [
  | inl e ↦ absurd (
      true≢false
        (sym h ∙ ap (λ (x : String). is_thinking (str x)) ((text_key.same_iff t "image").0 e)))
  | inr e ↦ e
]
thinking_not_image null h = absurd (ground arith)
thinking_not_image (bool b) h = absurd (ground arith)
thinking_not_image (int n) h = absurd (ground arith)
thinking_not_image (real n m) h = absurd (ground arith)
thinking_not_image (arr vs) h = absurd (ground arith)
thinking_not_image (obj fs) h = absurd (ground arith)

module _ (inner : Json → FeatureSet → FeatureSet) (inner_strip : Json → Json)
    (lockstep : (v : Json) (found : FeatureSet)
      → inner (inner_strip v) (degraded found) ≡ degraded (inner v found)) where
  -- A thinking block is dropped, and the scan of it notes degradable features alone.
  scan-thinking :
      (fs : Fields) (found : FeatureSet)
      → is_thinking (get "type" fs) ≡ true
      → degraded (scan_block inner fs found) ≡ degraded found
  unfolding scan_kind
  scan-thinking fs found h = rw (h, thinking_not_image (get "type" fs) h) (ground arith)

  type-strip : (fs : Fields) → get "type" (strip_block inner_strip fs) ≡ get "type" fs
  unfolding strip_block
  type-strip fs = ground (
    arith,
    get-pop "cache_control" "type" fs,
    get-put "content" "type" (inner_strip (get "content" (pop "cache_control" fs)))
        (pop "cache_control" fs),
  )

  cache-strip : (fs : Fields) → get "cache_control" (strip_block inner_strip fs) ≡ null
  unfolding strip_block
  cache-strip fs = ground (
    arith,
    get-pop "cache_control" "cache_control" fs,
    get-put "content" "cache_control" (inner_strip (get "content" (pop "cache_control" fs)))
        (pop "cache_control" fs),
  )

  content-strip :
      (fs : Fields)
      → get "content" (strip_block inner_strip fs) ≡ (
          if is_text "tool_result" (get "type" fs)
          then inner_strip (get "content" fs)
          else get "content" fs)
  unfolding strip_block
  content-strip fs = ground (
    arith,
    get-pop "cache_control" "type" fs,
    get-pop "cache_control" "content" fs,
    get-put "content" "content" (inner_strip (get "content" (pop "cache_control" fs)))
        (pop "cache_control" fs),
  )

  kind-strip :
      (kind content : Json) (found noted : FeatureSet)
      → is_thinking kind ≡ false
      → degraded noted ≡ degraded found
      → scan_kind inner kind
          (if is_text "tool_result" kind then inner_strip content else content)
          (degraded found)
        ≡ degraded (scan_kind inner kind content noted)
  unfolding scan_kind
  kind-strip kind content found noted t h = elim (Bool-cases (is_text "image" kind)) [
    | inl e ↦ rw e (ground arith)
    | inr e ↦
        rw (e, t)
          elim (Bool-cases (is_text "tool_result" kind)) [
            | inl r ↦ rw r (ap (inner (inner_strip content)) (sym h) ∙ lockstep content noted)
            | inr r ↦ rw r (sym h)
          ]
  ]

  scan-strip_block :
      (fs : Fields) (found : FeatureSet)
      → is_thinking (get "type" fs) ≡ false
      → scan_block inner (strip_block inner_strip fs) (degraded found)
        ≡ degraded (scan_block inner fs found)
  unfolding scan_kind
  scan-strip_block fs found h =
      rw (type-strip fs, cache-strip fs, content-strip fs)
        (kind-strip (get "type" fs) (get "content" fs) found (note_cache_control fs found) h
          (degraded-note fs found))

  scan-strip_items :
      (blocks : Items) (found : FeatureSet)
      → scan_items inner (strip_items inner_strip blocks) (degraded found)
        ≡ degraded (scan_items inner blocks found)
  unfolding scan_items strip_items
  scan-strip_items nil found = refl
  scan-strip_items (cons (obj fs) blocks) found = elim (Bool-cases (is_thinking (get "type" fs))) [
    | inl e ↦
        rw (e, sym (scan-thinking fs found e)) (scan-strip_items blocks (scan_block inner fs found))
    | inr e ↦ rw e (
        ap (scan_items inner (strip_items inner_strip blocks)) (scan-strip_block fs found e)
        ∙ scan-strip_items blocks (scan_block inner fs found))
  ]
  scan-strip_items (cons null blocks) found = scan-strip_items blocks found
  scan-strip_items (cons (bool _) blocks) found = scan-strip_items blocks found
  scan-strip_items (cons (int _) blocks) found = scan-strip_items blocks found
  scan-strip_items (cons (real _ _) blocks) found = scan-strip_items blocks found
  scan-strip_items (cons (str _) blocks) found = scan-strip_items blocks found
  scan-strip_items (cons (arr _) blocks) found = scan-strip_items blocks found

-- At every depth, and past the cap, where both stop.
scan-strip_block_list :
    (levels : ℕ) (blocks : Json) (found : FeatureSet)
    → scan_block_list levels (strip_degradable_blocks levels blocks) (degraded found)
      ≡ degraded (scan_block_list levels blocks found)
unfolding scan_block_list strip_degradable_blocks
scan-strip_block_list zero blocks found = refl
scan-strip_block_list (suc n) (arr blocks) found =
    scan-strip_items (scan_block_list n) (strip_degradable_blocks n) (scan-strip_block_list n)
      blocks found
scan-strip_block_list (suc n) null found = refl
scan-strip_block_list (suc n) (bool _) found = refl
scan-strip_block_list (suc n) (int _) found = refl
scan-strip_block_list (suc n) (real _ _) found = refl
scan-strip_block_list (suc n) (str _) found = refl
scan-strip_block_list (suc n) (obj _) found = refl

scan_stripped :
    (blocks : Items) (found : FeatureSet)
    → scan_message (strip_degradable_blocks max_levels (arr blocks)) found
      ≡ scan_block_list max_levels (strip_degradable_blocks max_levels (arr blocks)) found
unfolding strip_degradable_blocks
scan_stripped blocks found = refl

scan-strip_message :
    (content : Json) (fs : Fields) (found : FeatureSet)
    → get "content" fs ≡ content
    → scan_message (get "content" (strip_message content fs)) (degraded found)
      ≡ degraded (scan_message content found)
scan-strip_message (arr blocks) fs found e =
    rw
      (
        get-put "content" "content" (strip_degradable_blocks max_levels (arr blocks)) fs,
        scan_stripped blocks,
      )
      (scan-strip_block_list max_levels (arr blocks) found)
scan-strip_message null fs found e = rw e refl
scan-strip_message (bool _) fs found e = rw e refl
scan-strip_message (int _) fs found e = rw e refl
scan-strip_message (real _ _) fs found e = rw e refl
scan-strip_message (str _) fs found e = rw e refl
scan-strip_message (obj _) fs found e = rw e refl

pub scan-strip_messages :
    (messages : Items) (found : FeatureSet)
    → scan_messages (strip_messages messages) (degraded found)
      ≡ degraded (scan_messages messages found)
unfolding scan_messages strip_messages
scan-strip_messages nil found = refl
scan-strip_messages (cons (obj fs) messages) found =
    ap (scan_messages (strip_messages messages))
      (scan-strip_message (get "content" fs) fs found refl)
    ∙ scan-strip_messages messages (scan_message (get "content" fs) found)
scan-strip_messages (cons null messages) found = scan-strip_messages messages found
scan-strip_messages (cons (bool _) messages) found = scan-strip_messages messages found
scan-strip_messages (cons (int _) messages) found = scan-strip_messages messages found
scan-strip_messages (cons (real _ _) messages) found = scan-strip_messages messages found
scan-strip_messages (cons (str _) messages) found = scan-strip_messages messages found
scan-strip_messages (cons (arr _) messages) found = scan-strip_messages messages found

pub scan-strip_system :
    (blocks : Items) (found : FeatureSet)
    → scan_system (strip_cache_control blocks) (degraded found)
      ≡ degraded (scan_system blocks found)
unfolding scan_system strip_cache_control
scan-strip_system nil found = refl
scan-strip_system (cons (obj fs) blocks) found =
    ap (scan_system (strip_cache_control blocks))
      (note-pop fs (degraded found) ∙ sym (degraded-note fs found))
    ∙ scan-strip_system blocks (note_cache_control fs found)
scan-strip_system (cons null blocks) found = scan-strip_system blocks found
scan-strip_system (cons (bool _) blocks) found = scan-strip_system blocks found
scan-strip_system (cons (int _) blocks) found = scan-strip_system blocks found
scan-strip_system (cons (real _ _) blocks) found = scan-strip_system blocks found
scan-strip_system (cons (str _) blocks) found = scan-strip_system blocks found
scan-strip_system (cons (arr _) blocks) found = scan-strip_system blocks found

tool-strip :
    (fs : Fields) (found : FeatureSet)
    → record (note_cache_control (pop "cache_control" fs) (degraded found)) { tools = true }
      ≡ degraded (record (note_cache_control fs found) { tools = true })
tool-strip fs found =
    ap (λ (x : FeatureSet). record x { tools = true })
      (note-pop fs (degraded found) ∙ sym (degraded-note fs found))

pub scan-strip_tools :
    (tools : Items) (found : FeatureSet)
    → scan_tools (strip_cache_control tools) (degraded found) ≡ degraded (scan_tools tools found)
unfolding scan_tools strip_cache_control
scan-strip_tools nil found = refl
scan-strip_tools (cons (obj fs) tools) found =
    ap (scan_tools (strip_cache_control tools)) (tool-strip fs found)
    ∙ scan-strip_tools tools (record (note_cache_control fs found) { tools = true })
scan-strip_tools (cons null tools) found = scan-strip_tools tools found
scan-strip_tools (cons (bool _) tools) found = scan-strip_tools tools found
scan-strip_tools (cons (int _) tools) found = scan-strip_tools tools found
scan-strip_tools (cons (real _ _) tools) found = scan-strip_tools tools found
scan-strip_tools (cons (str _) tools) found = scan-strip_tools tools found
scan-strip_tools (cons (arr _) tools) found = scan-strip_tools tools found
