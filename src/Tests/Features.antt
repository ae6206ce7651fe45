-- ===== src/Tests/Features.antt =====
-- A request that asks for extended thinking and cached prompts, and carries an image in a tool's result.
use reverso_llm.Prelude.{true, false, [], ◌∷◌, ◌≡◌, refl, if◌then◌else◌, text_key}
use reverso_llm.Prelude.Int.{pos}
use reverso_llm.Prelude.Dict
use reverso_llm.Json.{Json, int, str, arr, obj, nil, cons, Fields, end, field, get, has}
use reverso_llm.Features.Table.{
  Tables, rejected, is_unsupported, check_features, sorted, insert, check_sorted,
}
use reverso_llm.Features.Table.Checks.{Checks, check_features-Checks}
use reverso_llm.Features.Anthropic.{
  scan_payload, scan_messages, scan_block_list, scan_items, scan_kind, extract_anthropic_features,
  strip_degradable_features, gate_anthropic_features,
}
use reverso_llm.Features.Anthropic.Blocks.{degraded}
use reverso_llm.Features.Anthropic.Lockstep.{extract-strip, gate-strip}
use reverso_llm.Features.Responses.{from_payload, extract_features}
use reverso_llm.Features.Responses.Declared.{are_declared, extract-declared}
use reverso_llm.Features.Responses.Payload.{lookup, expected, is_field, lookup-from_payload}

abbrev cached : Fields → Fields
cached fs = field "cache_control" (obj (field "type" (str "ephemeral") end)) fs

abbrev tool_result : Json
tool_result = obj (
    cached (
      field "type" (str "tool_result")
        (field "content" (arr (cons (obj (cached (field "type" (str "image") end))) nil)) end)))

abbrev thinking : Json
thinking = obj (field "type" (str "thinking") (field "thinking" (str "hm") end))

abbrev payload : Fields
payload = field "model" (str "m") (
    field "thinking" (obj (field "type" (str "enabled") end)) (
      field "temperature" (int (pos 1)) (
        field "messages"
          (arr (cons (obj (field "content" (arr (cons thinking (cons tool_result nil))) end)) nil))
          end)))

abbrev tables : Tables
tables =
    (
      "claude",
      ("input.image", "unsupported") ∷ ("thinking", "unsupported") ∷ ("stream", "native") ∷ [],
    )
    ∷ []

extract-strip_example :
    extract_anthropic_features (strip_degradable_features (obj payload))
    ≡ degraded (extract_anthropic_features (obj payload))
extract-strip_example = extract-strip (obj payload)

gate_rejects_image :
    gate_anthropic_features tables (strip_degradable_features (obj payload)) "claude"
    ≡ rejected "input.image" "claude"
unfolding gate_anthropic_features check_features sorted insert check_sorted is_unsupported
    extract_anthropic_features scan_payload scan_messages scan_block_list scan_items scan_kind get
    Dict.get
gate_rejects_image = rw (gate-strip tables (obj payload) "claude") refl

check_features-Checks_example :
    Checks tables "claude"
      ("stream" ∷ "thinking" ∷ "input.image" ∷ [])
      (check_features tables "claude" ("stream" ∷ "thinking" ∷ "input.image" ∷ []))
check_features-Checks_example =
    check_features-Checks tables "claude" ("stream" ∷ "thinking" ∷ "input.image" ∷ [])

extract-declared_example : are_declared (extract_features (from_payload payload)) ≡ true
extract-declared_example = extract-declared (from_payload payload)

lookup-from_payload_example :
    (lookup "temperature" (from_payload payload) ≡ expected "temperature" payload)
    × (has "temperature" (from_payload payload).extra
        ≡ (if is_field "temperature" then false else has "temperature" payload))
lookup-from_payload_example = lookup-from_payload "temperature" payload
