-- ===== src/Claude/Kept.antt =====
-- What is the user's stays, in the settings and in their env.
use reverso_llm.Prelude.{
  String, false, Option, none, some, ◌≡◌, refl, ◌∙◌, ◌==◌, text_key, Bool-cases, inl, inr,
}
use reverso_llm.Json.{
  Json, null, bool, int, real, str, arr, obj, Fields, end, field, get, has, get-put, get-pop,
}
use reverso_llm.Claude.{
  marker_key, Overrides, clean_env, put_env, clean_settings, drop_model, drop_marker,
  remove_reverso_overrides,
}

module _ (strip lower : String → String) (k : String) where
  get-put_env :
      (env settings : Fields)
      → ("env" == k) ≡ false
      → get k (put_env strip lower env settings).0 ≡ get k settings
  get-put_env end settings h = rw (get-pop "env" k settings, h) refl
  get-put_env (field j v fs) settings h = rw (get-put "env" k (obj (field j v fs)) settings, h) refl

  get-clean_settings :
      (v : Json) (settings : Fields)
      → ("env" == k) ≡ false
      → get k (clean_settings strip lower v settings).cleaned ≡ get k settings
  get-clean_settings (obj env) settings h = get-put_env (clean_env strip lower env).0 settings h
  get-clean_settings null settings h = refl
  get-clean_settings (bool b) settings h = refl
  get-clean_settings (int n) settings h = refl
  get-clean_settings (real m n) settings h = refl
  get-clean_settings (str s) settings h = refl
  get-clean_settings (arr vs) settings h = refl

  get-drop_model :
      (model : Option String) (o : Overrides)
      → ("model" == k) ≡ false
      → get k (drop_model strip lower model o).cleaned ≡ get k o.cleaned
  get-drop_model none o h = refl
  get-drop_model (some model) o h = rw (get-pop "model" k o.cleaned, h) refl

  get-drop_marker :
      (o : Overrides)
      → (marker_key == k) ≡ false
      → ("model" == k) ≡ false
      → get k (drop_marker strip lower o).cleaned ≡ get k o.cleaned
  unfolding drop_marker
  get-drop_marker o m h = elim (Bool-cases (has marker_key o.cleaned)) [
    | inr e ↦ rw e refl
    | inl e ↦ rw e (get-drop_model _ _ h ∙ get-pop marker_key k o.cleaned ∙ rw m refl)
  ]

  -- Every setting but the env, the marker and the model is as it was.
  pub get-remove_reverso_overrides :
      (settings : Fields)
      → ("env" == k) ≡ false
      → (marker_key == k) ≡ false
      → ("model" == k) ≡ false
      → get k (remove_reverso_overrides strip lower settings).cleaned ≡ get k settings
  unfolding remove_reverso_overrides
  get-remove_reverso_overrides settings e m h =
      get-drop_marker (clean_settings strip lower (get "env" settings) settings) m h
      ∙ get-clean_settings (get "env" settings) settings e
