-- ===== src/Claude.antt =====
-- `_remove_reverso_overrides` of reverso/claude_code_sync.py: the settings of Claude Code without what
-- earlier versions of the gateway wrote there. `strip` and `lower` are the methods of a text.
pub mod Lines
pub mod Env
pub mod Again
pub mod Kept
use Prim.Native.Char.{code}
use Prim.Native.String
use text.Mathlib.Text.{starts_with}
use reverso_llm.Prelude.{
  String, Bool, true, false, ◌&&◌, ◌||◌, Option, none, some, List, [], ◌∷◌, ◌++◌, if◌then◌else◌,
  nat_eq, ◌==◌, text_key,
}
use reverso_llm.Json.{Json, str, obj, Fields, end, field, get, has, put, pop, is_text}
use reverso_llm.Claude.Lines.{splitlines, join_lines}

abbrev pub gateway_base_url : String
gateway_base_url = "http://127.0.0.1:64946"

abbrev pub placeholder_bearer : String
placeholder_bearer = "reverso-local-loopback"

abbrev pub marker_key : String
marker_key = "_reverso_prev_model"

abbrev pub custom_headers_key : String
custom_headers_key = "ANTHROPIC_CUSTOM_HEADERS"

-- `line.partition(":")[0]`
unfoldable pub before_colon : String → String
before_colon String.[] = ""
before_colon (String.◌∷◌ c s) =
    let rest = before_colon s in if nat_eq (code c) b':' then "" else String.◌∷◌ c rest

-- The env without some keys, and the names of those that it had.
unfoldable pub remove_keys : List (String × Bool) → Fields → Fields × List String
remove_keys [] env = (env, [])
remove_keys ((key, should_remove) ∷ keys) env =
    let found = should_remove && has key env in
    let (rest, names) = remove_keys keys (if found then pop key env else env) in
    (rest, if found then key ∷ names else names)

pub record Overrides : Type 0 where
  pub cleaned : Fields
  pub removed_env_keys : List String
  pub rewritten_env_keys : List String
  pub removed_settings_keys : List String
  pub removed_model : Option String

module _ (strip lower : String → String) where
  unfoldable pub is_reverso_header : String → Bool
  is_reverso_header line = starts_with (lower (strip (before_colon line))) "x-reverso-"

  -- The loop over the lines: whether one is the gateway's, and the others.
  unfoldable pub has_reverso_line : List String → Bool
  has_reverso_line [] = false
  has_reverso_line (line ∷ lines) =
      let rest = has_reverso_line lines in if is_reverso_header line then true else rest

  unfoldable pub retained_headers : List String → List String
  retained_headers [] = []
  retained_headers (line ∷ lines) =
      let rest = retained_headers lines in if is_reverso_header line then rest else line ∷ rest

  -- `custom_headers.splitlines()`, of a text.
  abbrev pub header_lines : Json → List String
  header_lines (str s) = splitlines s
  header_lines _ = []

  -- What becomes of the custom headers, with the removed and the rewritten keys.
  abbrev pub rewrite_headers : Bool → String → Fields → Fields × List String × List String
  rewrite_headers false text env = (env, [], [])
  rewrite_headers true text env =
      if text == ""
      then (pop custom_headers_key env, custom_headers_key ∷ [], [])
      else (put custom_headers_key (str text) env, [], custom_headers_key ∷ [])

  -- The keys and whether each is the gateway's.
  unfoldable pub removable_env_keys : Fields → List (String × Bool)
  removable_env_keys env =
      let has_base_url = is_text gateway_base_url (get "ANTHROPIC_BASE_URL" env) in
      let has_headers = has_reverso_line (header_lines (get custom_headers_key env)) in
      ("ANTHROPIC_BASE_URL", has_base_url)
      ∷ ("ANTHROPIC_AUTH_TOKEN", is_text placeholder_bearer (get "ANTHROPIC_AUTH_TOKEN" env))
      ∷ ("ANTHROPIC_SMALL_FAST_MODEL", has_base_url)
      ∷ ("CLAUDE_CODE_ENABLE_GATEWAY_MODEL_DISCOVERY", has_base_url || has_headers)
      ∷ []

  unfoldable pub clean_env : Fields → Fields × List String × List String
  clean_env env =
      let lines = header_lines (get custom_headers_key env) in
      let (kept, removed) = remove_keys (removable_env_keys env) env in
      let (rest, dropped, rewritten) =
        rewrite_headers (has_reverso_line lines) (join_lines (retained_headers lines)) kept in
      (rest, removed ++ dropped, rewritten)

  -- `if env:`
  abbrev pub put_env : Fields → Fields → Fields × List String
  put_env end settings = (pop "env" settings, "env" ∷ [])
  put_env (field k v fs) settings = (put "env" (obj (field k v fs)) settings, [])

  abbrev pub clean_settings : Json → Fields → Overrides
  clean_settings (obj env) settings =
      let (rest, removed, rewritten) = clean_env env in
      let (cleaned, keys) = put_env rest settings in
      record {
        cleaned = cleaned;
        removed_env_keys = removed;
        rewritten_env_keys = rewritten;
        removed_settings_keys = keys;
        removed_model = none;
      }
  clean_settings _ settings = record {
    cleaned = settings;
    removed_env_keys = [];
    rewritten_env_keys = [];
    removed_settings_keys = [];
    removed_model = none;
  }

  -- `model in BROKEN_RESTORED_MODELS`, of a text.
  abbrev pub broken_model : Json → Option String
  broken_model (str model) = if model == "haiku" then some model else none
  broken_model _ = none

  abbrev pub drop_model : Option String → Overrides → Overrides
  drop_model none o = o
  drop_model (some model) o = record o {
    cleaned = pop "model" o.cleaned;
    removed_settings_keys = o.removed_settings_keys ++ "model" ∷ [];
    removed_model = some model;
  }

  unfoldable pub drop_marker : Overrides → Overrides
  drop_marker o =
      let bare = record o {
        cleaned = pop marker_key o.cleaned;
        removed_settings_keys = o.removed_settings_keys ++ marker_key ∷ [];
      } in
      if has marker_key o.cleaned
      then drop_model (broken_model (get "model" bare.cleaned)) bare
      else o

  unfoldable pub remove_reverso_overrides : Fields → Overrides
  remove_reverso_overrides settings = drop_marker (clean_settings (get "env" settings) settings)
