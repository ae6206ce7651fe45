-- ===== src/Routing/Models.antt =====
-- Profile paths and model names in profile_routing.py, with the model lists of
-- reverso/protocols/model_exposure.py.
use Prim.Native.Char.{Char, code}
use Prim.Native.String.{◌++◌ as str_append}
use reverso_llm.Prelude.{
  ℕ, String, Bool, true, false, ◌||◌, ◌&&◌, Option, none, some, List, [], ◌∷◌, ◌≡◌, ◌⊎◌, inl, inr,
  Bool-cases, refl, ap, ◌∙◌, arith, if◌then◌else◌, ◌==◌, text_key, nat_eq, leb, contains,
}
use package.text.Mathlib.TextLemmas.{nil-append, cons-append}
use mathlib.Core.Option.{bind, bind as ◌>>=◌}
use reverso_llm.OpenRouter.Identity.{after_prefix}

abbrev pub codex_frontier_models : List String
codex_frontier_models = "gpt-5.5" ∷ "gpt-5.4" ∷ []

abbrev pub codex_builtin_models : List String
codex_builtin_models =
    "gpt-5.5" ∷ "gpt-5.4" ∷ "gpt-5.4-mini" ∷ "gpt-5.3-codex-spark" ∷ "gpt-4.1" ∷ []

-- What `str.strip` takes off: the code points for which `str.isspace` holds.
abbrev pub is_space : ℕ → Bool
is_space c =
    (leb 9 c && leb c 13)
    || (leb 28 c && leb c 32)
    || nat_eq c 133
    || nat_eq c 160
    || nat_eq c 5760
    || (leb 8192 c && leb c 8202)
    || nat_eq c 8232
    || nat_eq c 8233
    || nat_eq c 8239
    || nat_eq c 8287
    || nat_eq c 12288

lstrip : String → String
lstrip String.[] = ""
lstrip (String.◌∷◌ c s) = let rest = lstrip s in if is_space (code c) then rest else String.◌∷◌ c s

rstrip : String → String
rstrip String.[] = ""
rstrip (String.◌∷◌ c s) =
    let rest = rstrip s in if rest == "" && is_space (code c) then "" else String.◌∷◌ c rest

unfoldable pub strip : String → String
unfolding lstrip rstrip
strip s = rstrip (lstrip s)

-- `MODEL_ALIASES.get(normalized, normalized)`
aliased : String → String
aliased model =
    if model == "claude-opus-4.8"
    then "claude-opus-4-8"
    else if model == "claude-sonnet-4.6"
    then "claude-sonnet-4-6"
    else if model == "claude-haiku-4.6"
    then "claude-haiku-4-6"
    else model

unprefixed : String → String
unprefixed model = elim (after_prefix "custom/" model) [ none ↦ model | some rest ↦ rest ]

unfoldable pub normalise_model : String → String
unfolding aliased unprefixed
normalise_model model = aliased (strip (unprefixed model))

-- One model for the frontier names, one for the other built-in names, all else as it is.
tiered : String → String → String → String
unfolding contains
tiered frontier other model =
    if contains model codex_frontier_models
    then frontier
    else if contains model codex_builtin_models
    then other
    else model

unfoldable pub resolve_profile_model : String → String → String
unfolding tiered
resolve_profile_model profile model =
    let normalized = normalise_model model in
    if profile == "deepseek"
    then tiered "deepseek-v4-pro" "deepseek-v4-flash" normalized
    else if profile == "claude"
    then tiered "claude-opus-4-8" "claude-sonnet-4-6" normalized
    else normalized

-- `s.split("/", 1)`, if `s` has a slash
cons_first : Char → Option (String × String) → Option (String × String)
cons_first c none = none
cons_first c (some (a, b)) = some (String.◌∷◌ c a, b)

unfoldable pub at_slash : String → Option (String × String)
unfolding cons_first
at_slash String.[] = none
at_slash (String.◌∷◌ c s) =
    let rest = at_slash s in if nat_eq (code c) b'/' then some ("", s) else cons_first c rest

pub record ProfilePath : Type 0 where
  pub profile : String
  pub rewritten_path : String

-- The profile and the path, once the four parts of `path.split("/", 3)` are known.
profile_path : String → String → String → Option ProfilePath
profile_path profile version rest =
    if (profile == "deepseek" || profile == "claude") && version == "v1"
    then some (record { profile = profile; rewritten_path = str_append "/v1/" rest })
    else none

unfoldable pub split_profile_path : String → Option ProfilePath
unfolding profile_path
split_profile_path path = do
  (first, behind) ← at_slash path
  (profile, behind) ← at_slash behind
  (version, rest) ← at_slash behind
  profile_path profile version rest

unfoldable pub IsProvider : String → Type 0
IsProvider profile = (profile ≡ "deepseek") ⊎ (profile ≡ "claude")

tiered-contains :
    (frontier other model : String)
    → contains frontier codex_builtin_models ≡ false
    → contains other codex_builtin_models ≡ false
    → contains (tiered frontier other model) codex_builtin_models ≡ false
unfolding tiered
tiered-contains frontier other model f o = ground arith

-- A text with no slash.
unfoldable pub no_slash : String → Bool
no_slash String.[] = true
no_slash (String.◌∷◌ c s) = let rest = no_slash s in if nat_eq (code c) b'/' then false else rest

append_slash : (b : String) → str_append "/" b ≡ String.◌∷◌ "/" b
append_slash b = cons-append "/" "" b ∙ ap (λ s. String.◌∷◌ "/" s) (nil-append b)

at_slash-append :
    (a b : String) → no_slash a ≡ true → at_slash (str_append a (str_append "/" b)) ≡ some (a, b)
unfolding at_slash no_slash
at_slash-append String.[] b h = rw (nil-append (str_append "/" b), append_slash b) refl
at_slash-append (String.◌∷◌ c a) b h = elim (Bool-cases (nat_eq (code c) b'/')) [
  | inl e ↦ absurd (ground arith)
  | inr e ↦
      rw (cons-append c a (str_append "/" b))
        (rw (e, at_slash-append a b (rest_no_slash c a e h)) refl)
]
  where
    rest_no_slash :
        (c : Char) (a : String)
        → nat_eq (code c) b'/' ≡ false
        → no_slash (String.◌∷◌ c a) ≡ true
        → no_slash a ≡ true
    rest_no_slash c a e h = ground arith

-- A request under a provider's path is sent on to that provider's part of the ordinary path, and
-- none of the built-in Codex model names leaves the routing for a provider, whatever model is asked for.
pub resolve_profile_model-contains :
    (first profile model rest : String)
    → no_slash first ≡ true
    → IsProvider profile
    → (split_profile_path (
          str_append first (
            str_append "/"
              (str_append profile (str_append "/" (str_append "v1" (str_append "/" rest))))))
        ≡ some (record { profile = profile; rewritten_path = str_append "/v1/" rest }))
      × (contains (resolve_profile_model profile model) codex_builtin_models ≡ false)
unfolding split_profile_path bind resolve_profile_model IsProvider contains no_slash
resolve_profile_model-contains first profile model rest h (inl e) =
    rw
      (
        e,
        at_slash-append first _ h,
        at_slash-append "deepseek" _ refl,
        at_slash-append "v1" rest refl,
      )
      (
        refl,
        tiered-contains "deepseek-v4-pro" "deepseek-v4-flash" (normalise_model model) refl refl,
      )
resolve_profile_model-contains first profile model rest h (inr e) =
    rw
      (
        e,
        at_slash-append first _ h,
        at_slash-append "claude" _ refl,
        at_slash-append "v1" rest refl,
      )
      (
        refl,
        tiered-contains "claude-opus-4-8" "claude-sonnet-4-6" (normalise_model model) refl refl,
      )
