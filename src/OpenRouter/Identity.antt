-- ===== src/OpenRouter/Identity.antt =====
-- `OpenRouterRuntime.upstream_model` of reverso/protocols/adapters/openrouter/runtime.py: the model id
-- `openrouter/<author>/<model>` without its outer prefix.
pub mod Names
use Prim.Native.Char.{Char, code}
use Prim.Native.String
use Prim.Native.String.{String}
use reverso_llm.Prelude.{
  ℕ, zero, suc, ◌+◌, Bool, true, false, not, Option, none, some, if◌then◌else◌, ◌==◌, text_key,
  nat_eq, ◌||◌, ◌&&◌,
}
use reverso_llm.Outcome.{Outcome, ok, raised}

-- The text behind a prefix: `s[len(p):]`, if `s.startswith(p)`.
unfoldable pub after_prefix : String → String → Option String
after_prefix String.[] s = some s
after_prefix (String.◌∷◌ c p) String.[] = none
after_prefix (String.◌∷◌ c p) (String.◌∷◌ d s) =
    if nat_eq (code c) (code d) then after_prefix p s else none

-- s.count("/")
unfoldable pub slashes : String → ℕ
slashes String.[] = 0
slashes (String.◌∷◌ c s) = if nat_eq (code c) b'/' then suc (slashes s) else slashes s

starts_with_slash : String → Bool
starts_with_slash String.[] = false
starts_with_slash (String.◌∷◌ c s) = nat_eq (code c) b'/'

-- "//" in s
unfoldable pub has_double_slash : String → Bool
unfolding starts_with_slash
has_double_slash String.[] = false
has_double_slash (String.◌∷◌ c s) =
    if nat_eq (code c) b'/' && starts_with_slash s then true else has_double_slash s

-- s.split("/", 1), where `s` has a slash
unfoldable pub split_slash : String → String × String
split_slash String.[] = ("", "")
split_slash (String.◌∷◌ c s) =
    let (author, model) = split_slash s in
    if nat_eq (code c) b'/' then ("", s) else (String.◌∷◌ c author, model)

abbrev pub outer_prefix : String
outer_prefix = "openrouter/"

upstream_of : String → Outcome String
upstream_of remainder =
    if not (nat_eq (slashes remainder) 1) || has_double_slash remainder
    then raised "ValueError"
    else let (author, model) = split_slash remainder in
      if author == "" || model == "" then raised "ValueError" else ok remainder

unfoldable pub upstream_model : String → Outcome String
unfolding upstream_of
upstream_model presented_model =
    if presented_model == ""
    then raised "ValueError"
    else elim (after_prefix outer_prefix presented_model) [
      | none ↦ raised "ValueError"
      | some remainder ↦ upstream_of remainder
    ]
