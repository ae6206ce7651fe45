-- ===== src/Claude/Env.antt =====
-- The env of the settings: what a cleaning leaves, and that a second one finds nothing there.
use reverso_llm.Prelude.{
  String, Bool, true, false, ◌&&◌, List, [], ◌∷◌, ◌≡◌, refl, sym, ap, ◌∙◌, arith, if◌then◌else◌,
  ◌==◌, text_key, All, Bool-cases, inl, inr,
}
use reverso_llm.Json.{
  Json, null, bool, int, real, str, arr, obj, Fields, end, field, get, has, put, pop, is_text,
  get-put, get-pop,
}
use reverso_llm.Claude.Lines.{
  splitlines, join_lines, IsLine, splitlines-IsLine, splitlines-join_lines,
}
use reverso_llm.Claude.{
  gateway_base_url, placeholder_bearer, custom_headers_key, remove_keys, is_reverso_header,
  has_reverso_line, retained_headers, header_lines, rewrite_headers, removable_env_keys, clean_env,
}

get-missing : (k : String) (fs : Fields) → has k fs ≡ false → get k fs ≡ null
unfolding get has
get-missing k end h = refl
get-missing k (field j v fs) h = ground (arith, get-missing k fs)

pub has-pop : (k j : String) (fs : Fields) → has j (pop k fs) ≡ (if k == j then false else has j fs)
unfolding has pop
has-pop k j end = ground arith
has-pop k j (field i w fs) =
    ground
      (arith, text_key.same_iff i k, text_key.same_iff i j, text_key.same_iff k j, has-pop k j fs)

pub put-get : (k : String) (v : Fields) (fs : Fields) → get k fs ≡ obj v → put k (obj v) fs ≡ fs
unfolding get put
put-get k v end h = absurd (ground (arith, h))
put-get k v (field j w fs) h = elim (Bool-cases (j == k)) [
  | inl e ↦ rw e (ap (λ x. field j x fs) (sym (rw e at h)))
  | inr e ↦ rw e (ap (λ rest. field j w rest) (put-get k v fs (rw e at h)))
]

-- Is the key among those to be removed?
unfoldable pub is_flagged : String → List (String × Bool) → Bool
is_flagged k [] = false
is_flagged k ((key, should_remove) ∷ keys) =
    let rest = is_flagged k keys in if should_remove && key == k then true else rest

if_null : (b : Bool) {v : Json} → v ≡ null → (if b then null else v) ≡ null
if_null true h = refl
if_null false h = h

unflagged :
    (k key : String) (should_remove : Bool) (keys : List (String × Bool)) (env : Fields)
    → (should_remove && has key env) ≡ false
    → (if is_flagged k keys then null else get k env) ≡ (
        if (if should_remove && key == k then true else is_flagged k keys) then null else get k env)
unflagged k key false keys env e = refl
unflagged k key true keys env e = elim (Bool-cases (key == k)) [
  | inr d ↦ rw d refl
  | inl d ↦
      rw d
        (if_null (is_flagged k keys) (get-missing k env (rw ((text_key.same_iff key k).0 d) at e)))
]

pub get-remove_keys :
    (k : String) (keys : List (String × Bool)) (env : Fields)
    → get k (remove_keys keys env).0 ≡ (if is_flagged k keys then null else get k env)
unfolding remove_keys is_flagged
get-remove_keys k [] env = refl
get-remove_keys k ((key, should_remove) ∷ keys) env =
    elim (Bool-cases (should_remove && has key env)) [
      | inl e ↦ rw e (get-remove_keys k keys (pop key env) ∙ ground (arith, e, get-pop key k env))
      | inr e ↦ rw e (get-remove_keys k keys env ∙ unflagged k key should_remove keys env e)
    ]

module _ (strip lower : String → String) where
  -- An env in which nothing is the gateway's.
  pub record IsClean (env : Fields) : Type 0 where
    pub base_url : is_text gateway_base_url (get "ANTHROPIC_BASE_URL" env) ≡ false
    pub token : is_text placeholder_bearer (get "ANTHROPIC_AUTH_TOKEN" env) ≡ false
    pub headers :
        has_reverso_line strip lower (header_lines strip lower (get custom_headers_key env)) ≡ false

  pub clean_env-clean : (env : Fields) → IsClean env → clean_env strip lower env ≡ (env, [], [])
  unfolding clean_env removable_env_keys remove_keys
  clean_env-clean env c = rw (c.base_url, c.token, c.headers) refl

  Kept : String → Type 0
  Kept line = is_reverso_header strip lower line ≡ false

  has_reverso_line-none :
      (lines : List String) → All Kept lines → has_reverso_line strip lower lines ≡ false
  unfolding has_reverso_line Kept
  has_reverso_line-none [] h = refl
  has_reverso_line-none (line ∷ lines) (k, h) = rw k (has_reverso_line-none lines h)

  retained_headers-Kept :
      (lines : List String)
      → All IsLine lines
      → All IsLine (retained_headers strip lower lines)
        × All Kept (retained_headers strip lower lines)
  unfolding retained_headers Kept
  retained_headers-Kept [] h = (tt, tt)
  retained_headers-Kept (line ∷ lines) (l, h) =
      elim (Bool-cases (is_reverso_header strip lower line)) [
        | inl e ↦ rw (e, All) (retained_headers-Kept lines h)
        | inr e ↦ let (ls, ks) = retained_headers-Kept lines h in rw (e, All) ((l, ls), (e, ks))
      ]

  header_lines-IsLine : (v : Json) → All IsLine (header_lines strip lower v)
  header_lines-IsLine (str s) = splitlines-IsLine s
  header_lines-IsLine null = tt
  header_lines-IsLine (bool b) = tt
  header_lines-IsLine (int n) = tt
  header_lines-IsLine (real m e) = tt
  header_lines-IsLine (arr vs) = tt
  header_lines-IsLine (obj fs) = tt

  -- The headers that a cleaning leaves.
  kept_headers :
      (v : Json)
      → has_reverso_line strip lower
          (splitlines (join_lines (retained_headers strip lower (header_lines strip lower v))))
        ≡ false
  kept_headers v =
      let lines = header_lines strip lower v in
      let (ls, ks) = retained_headers-Kept lines (header_lines-IsLine v) in
      has_reverso_line-none _
        (splitlines-join_lines Kept (retained_headers strip lower lines) ls ks)

  pub get-rewrite_headers :
      (k : String) (b : Bool) (text : String) (env : Fields)
      → (custom_headers_key == k) ≡ false
      → get k (rewrite_headers strip lower b text env).0 ≡ get k env
  get-rewrite_headers k false text env h = refl
  get-rewrite_headers k true text env h = elim (Bool-cases (text == "")) [
    | inl e ↦ rw (e, get-pop custom_headers_key k env, h) refl
    | inr e ↦ rw (e, get-put custom_headers_key k (str text) env, h) refl
  ]

  -- A test that the removal of a key answers.
  unless_removed :
      (text : String) (v : Json) (b : Bool)
      → (is_text text v ≡ true → b ≡ true)
      → is_text text (if b then null else v) ≡ false
  unless_removed text v true h = refl
  unless_removed text v false h = elim (Bool-cases (is_text text v)) [
    | inl e ↦ absurd (ground (arith, h e))
    | inr e ↦ e
  ]

  headers_gone :
      (v : Json) (b : Bool) (env : Fields)
      → has_reverso_line strip lower (header_lines strip lower v) ≡ b
      → get custom_headers_key env ≡ v
      → has_reverso_line strip lower (
          header_lines strip lower (
            get custom_headers_key
              (rewrite_headers strip lower b
                (join_lines (retained_headers strip lower (header_lines strip lower v)))
                env).0))
        ≡ false
  unfolding has_reverso_line
  headers_gone v false env h e = rw e h
  headers_gone v true env h e =
      elim (Bool-cases
        (join_lines (retained_headers strip lower (header_lines strip lower v)) == "")) [
          | inl d ↦ rw (d, get-pop custom_headers_key custom_headers_key env) refl
          | inr d ↦
              rw
                (
                  d,
                  get-put custom_headers_key custom_headers_key
                      (str (join_lines (retained_headers strip lower (header_lines strip lower v))))
                      env,
                )
                (kept_headers v)
        ]

  pub clean_env-IsClean : (env : Fields) → IsClean (clean_env strip lower env).0
  unfolding clean_env removable_env_keys is_flagged
  clean_env-IsClean env = record {
    base_url =
        rw
          (
            get-rewrite_headers "ANTHROPIC_BASE_URL" _ _ _ refl,
            get-remove_keys "ANTHROPIC_BASE_URL" (removable_env_keys strip lower env) env,
          )
          (unless_removed gateway_base_url (get "ANTHROPIC_BASE_URL" env) _ (λ e. rw e refl));
    token =
        rw
          (
            get-rewrite_headers "ANTHROPIC_AUTH_TOKEN" _ _ _ refl,
            get-remove_keys "ANTHROPIC_AUTH_TOKEN" (removable_env_keys strip lower env) env,
          )
          (unless_removed placeholder_bearer (get "ANTHROPIC_AUTH_TOKEN" env) _
            (λ e. rw e (ground arith)));
    headers = headers_gone (get custom_headers_key env) _ _ refl (
        get-remove_keys custom_headers_key (removable_env_keys strip lower env) env ∙ ground arith);
  }
