-- ===== src/Exposure.antt =====
-- reverso/protocols/model_exposure.py: which Codex profiles are routed, and the ids under which models
-- are shown. `env` reads an environment variable.
use Prim.Native.String.{◌++◌ as str_append}
use reverso_llm.Prelude.{
  ℕ, String, Bool, true, false, not, ◌&&◌, Option, none, some, List, [], ◌∷◌, ◌++◌, map, ◌≡◌,
  Bool-cases, inl, inr, refl, arith, if◌then◌else◌, ◌==◌, text_key, contains, nat_eq,
}
use reverso_llm.Prelude.Dict.{key_refl}
use reverso_llm.Outcome.{Outcome, ok, raised}
use reverso_llm.Bytes.{Bytes, ascii, bytes_eq, lower_byte}
use reverso_llm.Bytes.Search.{occurs}
use reverso_llm.Copilot.{Route, copilot_model_route}
use reverso_llm.Routing.Models.{strip, codex_builtin_models}

-- The code points of `s.lower()`, as far as a comparison with ASCII reads them: the Kelvin sign becomes k.
abbrev lower_code : ℕ → ℕ
lower_code c = if nat_eq c 8490 then b'k' else lower_byte c

abbrev lowered : String → Bytes
lowered s = map lower_code (ascii s)

among : Bytes → List String → Bool
among s [] = false
among s (t ∷ rest) = let later = among s rest in if bytes_eq s (ascii t) then true else later

abbrev host_of : Option String → String
host_of none = "127.0.0.1"
host_of (some host) = host

unfoldable pub is_loopback : (String → Option String) → Bool
is_loopback env = strip (host_of (env "REVERSO_HOST")) == "127.0.0.1"

switch : Bool → (Bytes → Bool) → Option String → Bool
switch unset test none = unset
switch unset test (some raw) = test (lowered (strip raw))

unfoldable pub codex_direct_profile_enabled : (String → Option String) → Bool
unfolding switch among
codex_direct_profile_enabled env =
    if is_loopback env
    then switch true (λ raw. not (among raw ("0" ∷ "false" ∷ "no" ∷ "off" ∷ [])))
        (env "REVERSO_CODEX_DIRECT_BACKEND")
    else false

unfoldable pub openai_profile_enabled : (String → Option String) → Bool
unfolding switch among
openai_profile_enabled env =
    if is_loopback env
    then switch false (λ raw. among raw ("1" ∷ "true" ∷ "yes" ∷ "on" ∷ "openai" ∷ []))
        (env "REVERSO_OPENAI_BACKEND")
    else false

abbrev routed_codex_profile_prefixes : List String
routed_codex_profile_prefixes =
    "claude" ∷ "copilot" ∷ "auggie" ∷ "deepseek" ∷ "kimi" ∷ "ollama" ∷ "opencode" ∷ []

unfoldable pub reverso_routed_codex_profile_prefixes : (String → Option String) → List String
reverso_routed_codex_profile_prefixes env =
    let direct = if codex_direct_profile_enabled env then "codex-direct" ∷ [] else [] in
    let openai = if openai_profile_enabled env then "openai-pass-through" ∷ [] else [] in
    (routed_codex_profile_prefixes ++ direct) ++ openai

unfoldable pub has_prefixed_selector : String → Bool
has_prefixed_selector prefix =
    contains prefix ("copilot" ∷ "auggie" ∷ "agy" ∷ "codex-direct" ∷ "openai-pass-through" ∷ [])

unfoldable pub selector_model_id : String → String → String
selector_model_id prefix model_id =
    if has_prefixed_selector prefix then str_append prefix (str_append "/" model_id) else model_id

unfoldable pub claude_code_selector_model_id : String → String → String
claude_code_selector_model_id prefix model_id =
    if has_prefixed_selector prefix then str_append prefix (str_append "-" model_id) else model_id

kept_ids : (String → Bool) → List String → List String
kept_ids test [] = []
kept_ids test (model_id ∷ model_ids) =
    let rest = kept_ids test model_ids in if test model_id then model_id ∷ rest else rest

is_routed : Option Route → Bool
is_routed none = false
is_routed (some _) = true

unfoldable pub codex_responses_compatible_model_ids : String → List String → List String
unfolding kept_ids is_routed
codex_responses_compatible_model_ids prefix model_ids =
    if prefix == "kimi"
    then kept_ids (λ model_id. model_id == "kimi-k3") model_ids
    else if prefix == "copilot"
    then kept_ids (λ model_id. is_routed (copilot_model_route (ascii model_id))) model_ids
    else model_ids

-- models[0]
default_of : List String → Outcome String
default_of [] = raised "IndexError"
default_of (model ∷ _) = ok model

-- The model that a profile pins.
unfoldable pub pinned_model : String → List String → Outcome String
unfolding default_of
pinned_model prefix models =
    if prefix == "deepseek" && contains "deepseek-v4-pro" models
    then ok "deepseek-v4-pro"
    else if prefix == "opencode" && contains "glm-5" models
    then ok "glm-5"
    else default_of models

selected : String → Outcome String → Outcome String
selected prefix (ok model) = ok (selector_model_id prefix model)
selected prefix (raised e) = raised e

unfoldable pub codex_profile_default_model : String → List String → Outcome String
unfolding selected
codex_profile_default_model prefix models = selected prefix (pinned_model prefix models)

unfoldable pub codex_catalog_context_window : String → String → ℕ
codex_catalog_context_window prefix model_id =
    if prefix == "ollama"
    then 2048
    else if prefix == "kimi" && model_id == "kimi-k3"
    then 1048576
    else if occurs (ascii "500k") (lowered model_id)
    then 500000
    else 128000

unfoldable pub codex_usage_context_window : String → Option ℕ
codex_usage_context_window model_id =
    if occurs (ascii "500k") (lowered model_id)
    then some 500000
    else if contains model_id codex_builtin_models
    then some 128000
    else none

-- A gateway that is bound to another address than the loopback routes neither profile that uses the
-- machine's own OpenAI credentials, whatever its switches say.
pub routed-away :
    (env : String → Option String)
    → is_loopback env ≡ false
    → (contains "codex-direct" (reverso_routed_codex_profile_prefixes env) ≡ false)
      × (contains "openai-pass-through" (reverso_routed_codex_profile_prefixes env) ≡ false)
unfolding reverso_routed_codex_profile_prefixes codex_direct_profile_enabled openai_profile_enabled
    contains
routed-away env away = (rw away refl, rw away refl)

first_contained : (first : String) (models : List String) → contains first (first ∷ models) ≡ true
unfolding contains
first_contained first models = rw (key_refl first) refl

-- The model that a profile pins is one of the models that it has.
pub pinned_model-contains :
    (prefix first : String) (models : List String)
    → (model : String) × (pinned_model prefix (first ∷ models) ≡ ok model)
      × (contains model (first ∷ models) ≡ true)
unfolding pinned_model
pinned_model-contains prefix first models =
    elim (Bool-cases (prefix == "deepseek" && contains "deepseek-v4-pro" (first ∷ models))) [
      | inl e ↦ ("deepseek-v4-pro", rw e refl, both (prefix == "deepseek") _ e)
      | inr e ↦
          rw e (elim (Bool-cases (prefix == "opencode" && contains "glm-5" (first ∷ models))) [
            | inl e ↦ ("glm-5", rw e refl, both (prefix == "opencode") _ e)
            | inr e ↦ (first, rw e refl, first_contained first models)
          ])
    ]
  where
    both : (a b : Bool) → (a && b) ≡ true → b ≡ true
    both a b e = ground arith
