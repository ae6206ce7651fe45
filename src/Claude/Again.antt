-- ===== src/Claude/Again.antt =====
-- A second cleaning of the settings finds nothing.
use reverso_llm.Prelude.{
  String, false, Option, none, some, [], ◌≡◌, ◌≢◌, refl, ap, ◌∙◌, arith, text_key, Bool-cases, inl,
  inr,
}
use reverso_llm.Json.{
  Json, null, bool, int, real, str, arr, obj, Fields, end, field, get, has, get-put, get-pop,
}
use reverso_llm.Claude.{
  marker_key, Overrides, clean_env, put_env, clean_settings, drop_model, drop_marker,
  remove_reverso_overrides,
}
use reverso_llm.Claude.Env.{has-pop, put-get, IsClean, clean_env-clean, clean_env-IsClean}

module _ (strip lower : String → String) where
  -- Settings in which nothing is the gateway's: no marker, and an env that is clean and not empty.
  unfoldable pub EnvDone : Json → Type 0
  EnvDone (obj env) = IsClean strip lower env × (env ≢ end)
  EnvDone _ = Unit

  pub record IsDone (settings : Fields) : Type 0 where
    pub unmarked : has marker_key settings ≡ false
    pub env_done : EnvDone (get "env" settings)

  -- The settings as they are, with nothing removed.
  abbrev pub nothing_removed : Fields → Overrides
  nothing_removed settings = record {
    cleaned = settings;
    removed_env_keys = [];
    rewritten_env_keys = [];
    removed_settings_keys = [];
    removed_model = none;
  }

  clean_settings-done :
      (v : Json) (settings : Fields)
      → get "env" settings ≡ v
      → EnvDone v
      → clean_settings strip lower v settings ≡ nothing_removed settings
  unfolding EnvDone
  clean_settings-done (obj end) settings e (c, filled) = absurd (filled refl)
  clean_settings-done (obj (field k v fs)) settings e (c, filled) =
      rw (clean_env-clean strip lower (field k v fs) c)
        (ap nothing_removed (put-get "env" (field k v fs) settings e))
  clean_settings-done null settings e c = refl
  clean_settings-done (bool b) settings e c = refl
  clean_settings-done (int n) settings e c = refl
  clean_settings-done (real m n) settings e c = refl
  clean_settings-done (str s) settings e c = refl
  clean_settings-done (arr vs) settings e c = refl

  remove-done :
      (settings : Fields)
      → IsDone settings
      → remove_reverso_overrides strip lower settings ≡ nothing_removed settings
  unfolding remove_reverso_overrides drop_marker
  remove-done settings d =
      ap (drop_marker strip lower)
        (clean_settings-done (get "env" settings) settings refl d.env_done)
      ∙ rw d.unmarked refl

  EnvDone-put_env :
      (env settings : Fields)
      → IsClean strip lower env
      → EnvDone (get "env" (put_env strip lower env settings).0)
  unfolding EnvDone
  EnvDone-put_env end settings c = rw (get-pop "env" "env" settings) tt
  EnvDone-put_env (field k v fs) settings c =
      rw (get-put "env" "env" (obj (field k v fs)) settings) (c, λ e. absurd (ground (arith, e)))

  EnvDone-clean_settings :
      (v : Json) (settings : Fields)
      → get "env" settings ≡ v
      → EnvDone (get "env" (clean_settings strip lower v settings).cleaned)
  unfolding EnvDone
  EnvDone-clean_settings (obj env) settings e =
      EnvDone-put_env (clean_env strip lower env).0 settings (clean_env-IsClean strip lower env)
  EnvDone-clean_settings null settings e = rw e tt
  EnvDone-clean_settings (bool b) settings e = rw e tt
  EnvDone-clean_settings (int n) settings e = rw e tt
  EnvDone-clean_settings (real m n) settings e = rw e tt
  EnvDone-clean_settings (str s) settings e = rw e tt
  EnvDone-clean_settings (arr vs) settings e = rw e tt

  dropped-IsDone :
      (model : Option String) (o : Overrides)
      → has marker_key o.cleaned ≡ false
      → EnvDone (get "env" o.cleaned)
      → IsDone (drop_model strip lower model o).cleaned
  dropped-IsDone none o h d = record { unmarked = h; env_done = d }
  dropped-IsDone (some model) o h d = record {
    unmarked = has-pop "model" marker_key o.cleaned ∙ h;
    env_done = rw (get-pop "model" "env" o.cleaned) d;
  }

  drop_marker-IsDone :
      (o : Overrides) → EnvDone (get "env" o.cleaned) → IsDone (drop_marker strip lower o).cleaned
  unfolding drop_marker
  drop_marker-IsDone o d = elim (Bool-cases (has marker_key o.cleaned)) [
    | inr e ↦ rw e (record { unmarked = e; env_done = d })
    | inl e ↦ rw e (
        dropped-IsDone _ _ (has-pop marker_key marker_key o.cleaned)
          (rw (get-pop marker_key "env" o.cleaned) d))
  ]

  -- The cleaned settings are cleaned once and for all: a second cleaning removes nothing, rewrites
  -- nothing and leaves them as they are.
  pub remove-remove :
      (settings : Fields)
      → remove_reverso_overrides strip lower (remove_reverso_overrides strip lower settings).cleaned
        ≡ nothing_removed (remove_reverso_overrides strip lower settings).cleaned
  unfolding remove_reverso_overrides
  remove-remove settings = remove-done _ (
      drop_marker-IsDone (clean_settings strip lower (get "env" settings) settings)
        (EnvDone-clean_settings (get "env" settings) settings refl))
