-- ===== src/Tests/Claude.antt =====
-- Settings that an earlier version of the gateway wrote.
use reverso_llm.Prelude.{String, ◌≡◌}
use reverso_llm.Json.{str, obj, Fields, end, field}
use reverso_llm.Claude.{remove_reverso_overrides}
use reverso_llm.Claude.Again.{nothing_removed, remove-remove}

abbrev same : String → String
same s = s

abbrev settings : Fields
settings =
    field "env"
      (obj (
        field "ANTHROPIC_BASE_URL" (str "http://127.0.0.1:64946")
          (field "ANTHROPIC_CUSTOM_HEADERS" (str "x-reverso-catalog: all\nx-team: a") end)))
      (field "_reverso_prev_model" (str "opus") (field "model" (str "haiku") end))

remove-remove_example :
    remove_reverso_overrides same same (remove_reverso_overrides same same settings).cleaned
    ≡ nothing_removed same same (remove_reverso_overrides same same settings).cleaned
remove-remove_example = remove-remove same same settings
