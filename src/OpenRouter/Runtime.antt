-- ===== src/OpenRouter/Runtime.antt =====
-- `OpenRouterRuntime` of reverso/protocols/adapters/openrouter/runtime.py: the admission of a request
-- under the deny-first matrix. The transport, the credentials and the rewriting of the request body
-- (`apply_mandatory_policy`) are not modelled.
pub mod Admission
use reverso_llm.Prelude.{
  ℕ, String, Bool, true, false, Option, none, some, List, [], ◌∷◌, if◌then◌else◌, ◌==◌, text_key,
  contains, ◌&&◌,
}
use reverso_llm.Prelude.Int.{ℤ}
use reverso_llm.Outcome.{Outcome, ok, raised, ◌>>=◌}
use reverso_llm.OpenRouter.Grants.{Grant, GrantRegistry, verify, revoke_all}
use reverso_llm.OpenRouter.Policy.{PolicyEvaluator, assert_fresh, require_zdr, require_data_denial}
use reverso_llm.OpenRouter.Identity.{upstream_model}

pub record OpenRouterSurfaceGrant : Type 0 where
  pub model : String
  pub surface : String

pub record OpenRouterRuntime : Type 0 where
  pub allowlist : List String
  pub surface_grants : List OpenRouterSurfaceGrant
  pub policy_evaluator : PolicyEvaluator
  pub grants : GrantRegistry

unfoldable pub assert_allowlisted : String → OpenRouterRuntime → Outcome (Unit {0})
assert_allowlisted presented_model rt =
    if contains presented_model rt.allowlist then ok tt else raised "PermissionError"

-- The loop over the surface grants.
unfoldable pub is_granted : String → String → List OpenRouterSurfaceGrant → Bool
is_granted upstream surface [] = false
is_granted upstream surface (g ∷ gs) =
    if g.model == upstream && g.surface == surface then true else is_granted upstream surface gs

unfoldable pub surface_eligible : List OpenRouterSurfaceGrant → String → String → Outcome (Unit {0})
surface_eligible [] presented_model surface = ok tt
surface_eligible (g ∷ gs) presented_model surface = do
  upstream ← upstream_model presented_model
  if is_granted upstream surface (g ∷ gs) then ok tt else raised "PermissionError"

unfoldable pub assert_surface_eligible : String → String → OpenRouterRuntime → Outcome (Unit {0})
assert_surface_eligible presented_model surface rt =
    surface_eligible rt.surface_grants presented_model surface

-- The checks in front of the grant registry, in the order of the source.
unfoldable pub gate : String → String → ℤ → OpenRouterRuntime → Outcome (Unit {0})
gate surface presented_model now rt = do
  listed ← assert_allowlisted presented_model rt
  eligible ← assert_surface_eligible presented_model surface rt
  fresh ← assert_fresh now rt.policy_evaluator
  zdr ← require_zdr rt.policy_evaluator
  require_data_denial rt.policy_evaluator

-- The launcher's claim: its capability, its process and whether it is alive.
pub record Claim : Type 0 where
  pub capability : Option String
  pub launcher_pid : Option ℕ
  pub liveness : Option Bool

discard : {A : Type 0} → Outcome A → Outcome (Unit {0})
discard (ok _) = ok tt
discard (raised x) = raised x

-- `grants.verify(...)` at the upstream model, which is computed first.
verify_claim :
    Outcome String
    → String
    → ℕ
    → Bool
    → ℤ
    → OpenRouterRuntime
    → Outcome (Unit {0}) × OpenRouterRuntime
unfolding discard
verify_claim (raised x) capability pid live now rt = (raised x, rt)
verify_claim (ok model) capability pid live now rt =
    let (result, registry) = verify capability pid model now live rt.grants in
    (discard result, record rt { grants = registry })

check_claim :
    Option String
    → Option ℕ
    → Option Bool
    → String
    → ℤ
    → OpenRouterRuntime
    → Outcome (Unit {0}) × OpenRouterRuntime
check_claim (some capability) (some pid) (some live) presented_model now rt =
    verify_claim (upstream_model presented_model) capability pid live now rt
check_claim _ _ _ presented_model now rt = (ok tt, rt)

admit_gated :
    Outcome (Unit {0})
    → Claim
    → String
    → ℤ
    → OpenRouterRuntime
    → Outcome (Unit {0}) × OpenRouterRuntime
admit_gated (raised x) claim presented_model now rt = (raised x, rt)
admit_gated (ok _) claim presented_model now rt =
    check_claim claim.capability claim.launcher_pid claim.liveness presented_model now rt

-- `now` is what the clock answers to every reading of the call.
unfoldable pub admit_and_dispatch :
    String → String → Claim → ℤ → OpenRouterRuntime → Outcome (Unit {0}) × OpenRouterRuntime
unfolding admit_gated check_claim verify_claim
admit_and_dispatch surface presented_model claim now rt =
    admit_gated (gate surface presented_model now rt) claim presented_model now rt

unfoldable pub close : OpenRouterRuntime → OpenRouterRuntime
close rt = record rt { grants = revoke_all rt.grants }
