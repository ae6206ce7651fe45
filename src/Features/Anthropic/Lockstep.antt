-- ===== src/Features/Anthropic/Lockstep.antt =====
-- What the gate of anthropic_feature_gate.py finds in a stripped payload.
use reverso_llm.Prelude.{
  [], ◌∷◌, ◌++◌, Bool, true, false, String, false, ◌&&◌, if◌then◌else◌, ◌≡◌, refl, ◌∙◌, arith,
  text_key, ◌==◌,
}
use reverso_llm.Prelude.Dict.{key_refl}
use reverso_llm.Json.{
  Json, null, bool, int, real, str, arr, obj, Items, Fields, get, put, pop, get-put, get-pop,
}
use reverso_llm.Features.Table.{
  is_unsupported, sorted, insert, check_features, accepted, rejected, Tables, check_sorted,
}
use reverso_llm.Features.Anthropic.Blocks.{
  degraded, scan-strip_messages, scan-strip_system, scan-strip_tools,
}
use reverso_llm.Features.Anthropic.{
  FeatureSet, nothing, scan_messages, scan_system, scan_tools, over_list,
  extract_anthropic_features, scan_payload, strip_payload, strip_messages, strip_cache_control,
  strip_list, strip_degradable_features, gate_anthropic_features,
}

-- What a strip leaves under the key that it changes, and under every other key.
scan-strip_list :
    (strip : Items → Items) (scan : Items → FeatureSet → FeatureSet)
    → ((vs : Items) (found : FeatureSet)
        → scan (strip vs) (degraded found) ≡ degraded (scan vs found))
    → (key : String) (fs : Fields) (found : FeatureSet)
    → over_list scan (get key (strip_list strip key fs)) (degraded found)
      ≡ degraded (over_list scan (get key fs) found)
unfolding strip_list
scan-strip_list strip scan h key fs found = go (get key fs) refl
  where
    go :
        (v : Json)
        → get key fs ≡ v
        → over_list scan
            (get key (elim v [ arr vs ↦ put key (arr (strip vs)) fs | _ ↦ fs ]))
            (degraded found)
          ≡ degraded (over_list scan v found)
    go (arr vs) e = rw (get-put key key (arr (strip vs)) fs, key_refl key) (h vs found)
    go null e = rw e refl
    go (bool _) e = rw e refl
    go (int _) e = rw e refl
    go (real _ _) e = rw e refl
    go (str _) e = rw e refl
    go (obj _) e = rw e refl

get-strip_list :
    (strip : Items → Items) (key other : String) (fs : Fields)
    → (key == other) ≡ false
    → get other (strip_list strip key fs) ≡ get other fs
unfolding strip_list
get-strip_list strip key other fs h = go (get key fs)
  where
    go :
        (v : Json)
        → get other (elim v [ arr vs ↦ put key (arr (strip vs)) fs | _ ↦ fs ]) ≡ get other fs
    go (arr vs) = rw (get-put key other (arr (strip vs)) fs, h) refl
    go null = refl
    go (bool _) = refl
    go (int _) = refl
    go (real _ _) = refl
    go (str _) = refl
    go (obj _) = refl

module _ (payload : Fields) where
  abbrev declined : Fields
  declined = pop "thinking" payload

  abbrev messages_stripped : Fields
  messages_stripped = strip_list strip_messages "messages" declined

  abbrev system_stripped : Fields
  system_stripped = strip_list strip_cache_control "system" messages_stripped

  scan-strip_payload : scan_payload (strip_payload payload) ≡ degraded (scan_payload payload)
  unfolding scan_payload strip_payload
  scan-strip_payload =
      rw
        (
          get-strip_list strip_cache_control "tools" "messages" system_stripped refl,
          get-strip_list strip_cache_control "system" "messages" messages_stripped refl,
          scan-strip_list strip_messages scan_messages scan-strip_messages "messages" declined
              nothing,
          get-strip_list strip_cache_control "tools" "system" system_stripped refl,
          scan-strip_list strip_cache_control scan_system scan-strip_system "system"
              messages_stripped (over_list scan_messages (get "messages" declined) nothing),
          scan-strip_list strip_cache_control scan_tools scan-strip_tools "tools" system_stripped (
              over_list scan_system (get "system" messages_stripped)
                (over_list scan_messages (get "messages" declined) nothing)),
          get-strip_list strip_cache_control "system" "tools" messages_stripped refl,
          get-strip_list strip_messages "messages" "tools" declined refl,
          get-strip_list strip_messages "messages" "system" declined refl,
          get-pop "thinking" "messages" payload,
          get-pop "thinking" "tools" payload,
          get-pop "thinking" "system" payload,
        )
        refl

  thinking-strip : get "thinking" (strip_payload payload) ≡ null
  unfolding strip_payload
  thinking-strip =
      get-strip_list strip_cache_control "tools" "thinking" system_stripped refl
      ∙ get-strip_list strip_cache_control "system" "thinking" messages_stripped refl
      ∙ get-strip_list strip_messages "messages" "thinking" declined refl
      ∙ get-pop "thinking" "thinking" payload

-- A stripped payload has exactly the features of the payload but for cached prompts and extended
-- thinking: whatever is detected is stripped at every place and depth, and nothing else is lost.
pub extract-strip :
    (payload : Json)
    → extract_anthropic_features (strip_degradable_features payload)
      ≡ degraded (extract_anthropic_features payload)
unfolding extract_anthropic_features strip_degradable_features
extract-strip (obj payload) = rw (thinking-strip payload, scan-strip_payload payload) (ground arith)
extract-strip null = refl
extract-strip (bool _) = refl
extract-strip (int _) = refl
extract-strip (real _ _) = refl
extract-strip (str _) = refl
extract-strip (arr _) = refl

-- The gate behind a strip rejects an image or tools alone: the image if the payload has one and the
-- backend classifies images as unsupported, else the tools likewise; otherwise it accepts.
pub gate-strip :
    (tables : Tables) (payload : Json) (backend : String)
    → gate_anthropic_features tables (strip_degradable_features payload) backend ≡ (
        if (extract_anthropic_features payload).image && is_unsupported tables backend "input.image"
        then rejected "input.image" backend
        else if (extract_anthropic_features payload).tools
            && is_unsupported tables backend "tools.function"
        then rejected "tools.function" backend
        else accepted)
unfolding gate_anthropic_features check_features sorted insert check_sorted
gate-strip tables payload backend = rw (extract-strip payload) (
    by_members (extract_anthropic_features payload).image
      (extract_anthropic_features payload).tools)
  where
    by_members :
        (image tools : Bool)
        → check_features tables backend (
            (if image then "input.image" ∷ [] else [])
            ++ []
            ++ []
            ++ (if tools then "tools.function" ∷ [] else []))
          ≡ (if image && is_unsupported tables backend "input.image"
              then rejected "input.image" backend
              else if tools && is_unsupported tables backend "tools.function"
              then rejected "tools.function" backend
              else accepted)
    by_members true true = refl
    by_members true false = refl
    by_members false true = refl
    by_members false false = refl
