-- ===== src/Routing/Workspace.antt =====
-- Which workspace a request names, in profile_routing.py, and the body that is sent on. `loads` is
-- `json.loads`, with what it raises; `dumps` is `json.dumps` with the encoding of its text.
use reverso_llm.Prelude.{
  String, Bool, true, false, ◌||◌, Option, none, some, Option-cases, inl, inr, List, [], ◌∷◌, ◌≡◌,
  refl, arith, if◌then◌else◌, ◌==◌, text_key,
}
use reverso_llm.Json.{
  Json, null, str, obj, Fields, end, field, get, put, pop, is_some, truthy, get-put, get-pop,
}
use reverso_llm.Outcome.{Outcome, ok, raised}
use reverso_llm.Bytes.{Bytes, Header, is_header}
use reverso_llm.Routing.Models.{strip, resolve_profile_model}

-- What tells a workspace that is worked in: `isinstance(info, dict) and (...)`
abbrev in_use : Json → Bool
in_use (obj info) =
    truthy (get "associated_remote_urls" info)
    || truthy (get "latest_git_commit_hash" info)
    || is_some (get "has_changes" info)
in_use _ = false

-- s.strip(), as a test
abbrev pub is_blank : String → Bool
is_blank s = strip s == ""

candidates : Fields → List (String × Json)
candidates end = []
candidates (field path info workspaces) =
    let rest = candidates workspaces in if is_blank path then rest else (path, info) ∷ rest

first_in_use : List (String × Json) → Option String
first_in_use [] = none
first_in_use ((path, info) ∷ rest) =
    let later = first_in_use rest in if in_use info then some path else later

choose : List (String × Json) → Option String
unfolding first_in_use
choose [] = none
choose ((path, info) ∷ rest) = elim (first_in_use ((path, info) ∷ rest)) [
  | some found ↦ some found
  | none ↦ some path
]

workspace_in : Json → Option String
unfolding candidates choose
workspace_in (obj workspaces) = choose (candidates workspaces)
workspace_in _ = none

unfoldable pub workspace_from_codex_metadata : Json → Option String
unfolding workspace_in
workspace_from_codex_metadata (obj metadata) = workspace_in (get "workspaces" metadata)
workspace_from_codex_metadata _ = none

-- The workspace that `x_gateway` gives, if it is a text that is not blank.
abbrev pub named_workspace : Json → Option String
named_workspace (str workspace) = if is_blank workspace then none else some workspace
named_workspace _ = none

abbrev pub gateway_workspace : Json → Option String
gateway_workspace (obj x_gateway) = named_workspace (get "workspace" x_gateway)
gateway_workspace _ = none

-- `except json.JSONDecodeError`
abbrev pub unless_malformed {ℓ} : {A : Type ℓ} → A → (Json → Outcome A) → Outcome Json → Outcome A
unless_malformed a next (ok v) = next v
unless_malformed a next (raised e) = if e == "JSONDecodeError" then ok a else raised e

module _ (loads_text : String → Outcome Json) where
  unfoldable pub workspace_from_codex_metadata_json : String → Outcome (Option String)
  workspace_from_codex_metadata_json metadata_raw =
      unless_malformed none (λ metadata. ok (workspace_from_codex_metadata metadata))
        (loads_text metadata_raw)

  -- The first header of the name, decoded.
  turn_metadata : (Bytes → String) → List Header → String
  turn_metadata decode [] = ""
  turn_metadata decode (header ∷ headers) =
      let rest = turn_metadata decode headers in
      if is_header "x-codex-turn-metadata" header then decode header.1 else rest

  unfoldable pub workspace_from_codex_turn_metadata :
      (Bytes → String) → List Header → Outcome (Option String)
  unfolding turn_metadata
  workspace_from_codex_turn_metadata decode headers =
      let metadata_raw = turn_metadata decode headers in
      if truthy (str metadata_raw) then workspace_from_codex_metadata_json metadata_raw else ok none

  -- `client_metadata`, else `metadata`
  from_client_metadata : Json → Json → Outcome (Option String)
  from_client_metadata (obj client) metadata = elim (get "x-codex-turn-metadata" client) [
    | str raw ↦
        if is_blank raw then from_dict client metadata else workspace_from_codex_metadata_json raw
    | _ ↦ from_dict client metadata
  ]
    where
      from_dict : Fields → Json → Outcome (Option String)
      from_dict client metadata = elim (workspace_from_codex_metadata (obj client)) [
        | some workspace ↦ ok (some workspace)
        | none ↦ ok (workspace_from_codex_metadata metadata)
      ]
  from_client_metadata _ metadata = ok (workspace_from_codex_metadata metadata)

  workspace_in_payload : Json → Outcome (Option String)
  unfolding from_client_metadata
  workspace_in_payload (obj payload) = elim (gateway_workspace (get "x_gateway" payload)) [
    | some workspace ↦ ok (some workspace)
    | none ↦ from_client_metadata (get "client_metadata" payload) (get "metadata" payload)
  ]
  workspace_in_payload _ = ok none

  unfoldable pub workspace_from_body : (Bytes → Outcome Json) → Bytes → Outcome (Option String)
  unfolding workspace_in_payload
  workspace_from_body loads body = unless_malformed none workspace_in_payload (loads body)

abbrev fields_of : Json → Fields
fields_of (obj fs) = fs
fields_of _ = end

-- `_with_workspace`, of a workspace that may be None or empty
unfoldable pub with_workspace : Option String → Fields → Fields
with_workspace none payload = payload
with_workspace (some workspace) payload =
    if truthy (str workspace)
    then elim (gateway_workspace (get "x_gateway" payload)) [
      | some _ ↦ payload
      | none ↦
          put "x_gateway"
            (obj (put "workspace" (str workspace) (fields_of (get "x_gateway" payload)))) payload
    ]
    else payload

-- The payload that is sent on for a profile, of a model that is a text.
unfoldable pub rewritten : String → Option String → String → Fields → Fields
rewritten profile workspace model payload =
    put "model" (str (resolve_profile_model profile model))
      (if profile == "claude" then with_workspace workspace payload else pop "x_gateway" payload)

module _ (loads : Bytes → Outcome Json) (dumps : Json → Bytes) where
  rewritten_body : Bytes → String → Option String → Json → Outcome Bytes
  rewritten_body body profile workspace (obj payload) = elim (get "model" payload) [
    | str model ↦ ok (dumps (obj (rewritten profile workspace model payload)))
    | _ ↦ ok body
  ]
  rewritten_body body profile workspace _ = ok body

  unfoldable pub rewrite_body_model : Bytes → String → Option String → Outcome Bytes
  unfolding rewritten_body
  rewrite_body_model body profile workspace =
      unless_malformed body (rewritten_body body profile workspace) (loads body)

gateway-put :
    (w : String) (fs : Fields)
    → is_blank w ≡ false
    → gateway_workspace (obj (put "workspace" (str w) fs)) ≡ some w
gateway-put w fs h = rw (get-put "workspace" "workspace" (str w) fs, h) refl

with_workspace-gateway :
    (w : String) (payload : Fields)
    → is_blank w ≡ false
    → truthy (str w) ≡ true
    → gateway_workspace (get "x_gateway" (with_workspace (some w) payload))
      ≡ elim (gateway_workspace (get "x_gateway" payload)) [ some own ↦ some own | none ↦ some w ]
unfolding with_workspace
with_workspace-gateway w payload b t =
    elim (Option-cases (gateway_workspace (get "x_gateway" payload))) [
      | inl e ↦
          rw (t, e)
            (rw
              (get-put "x_gateway" "x_gateway"
                (obj (put "workspace" (str w) (fields_of (get "x_gateway" payload)))) payload)
              (gateway-put w (fields_of (get "x_gateway" payload)) b))
      | inr (own, e) ↦ rw (t, e) e
    ]

get-with_workspace :
    (w key : String) (payload : Fields)
    → ("x_gateway" == key) ≡ false
    → get key (with_workspace (some w) payload) ≡ get key payload
unfolding with_workspace
get-with_workspace w key payload x = ground (
  arith,
  get-put "x_gateway" key (obj (put "workspace" (str w) (fields_of (get "x_gateway" payload))))
      payload,
)

-- What is sent on for a payload: for the claude profile the workspace that the client names in
-- `x_gateway`, or else, if it names none that is not blank, the one that the routing found; for
-- deepseek no `x_gateway`; and for both every other field but the model as it was.
pub get-rewritten :
    (w model key : String) (payload : Fields)
    → is_blank w ≡ false
    → truthy (str w) ≡ true
    → ("model" == key) ≡ false
    → ("x_gateway" == key) ≡ false
    → (gateway_workspace (get "x_gateway" (rewritten "claude" (some w) model payload))
        ≡ elim (gateway_workspace (get "x_gateway" payload)) [
          | some own ↦ some own
          | none ↦ some w
        ])
      × (get "x_gateway" (rewritten "deepseek" (some w) model payload) ≡ null)
      × (get key (rewritten "claude" (some w) model payload) ≡ get key payload)
      × (get key (rewritten "deepseek" (some w) model payload) ≡ get key payload)
unfolding rewritten
get-rewritten w model key payload b t m x = (
  rw
      (get-put "model" "x_gateway" (str (resolve_profile_model "claude" model))
        (with_workspace (some w) payload))
      (with_workspace-gateway w payload b t),
  rw
      (
        get-put "model" "x_gateway" (str (resolve_profile_model "deepseek" model))
            (pop "x_gateway" payload),
        get-pop "x_gateway" "x_gateway" payload,
      )
      refl,
  rw
      (
        get-put "model" key (str (resolve_profile_model "claude" model))
            (with_workspace (some w) payload),
        m,
      )
      (get-with_workspace w key payload x),
  rw
      (
        get-put "model" key (str (resolve_profile_model "deepseek" model))
            (pop "x_gateway" payload),
        m,
        get-pop "x_gateway" key payload,
        x,
      )
      refl,
)
