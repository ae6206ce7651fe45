-- ===== src/OpenRouter/Runtime/Admission.antt =====
-- What an admitted request has passed.
use reverso_llm.Prelude.Dict
use reverso_llm.Prelude.{
  ℕ, String, Bool, true, Option, none, some, List, [], ◌∷◌, text_key, contains, ◌≡◌, ◌≢◌, refl, ap,
  arith,
}
use reverso_llm.Prelude.Int.{ℤ, pos, ◌-ℤ◌, ◌≤ℤ◌}
use reverso_llm.Outcome.{Outcome, ok, raised, bind_inversion}
use reverso_llm.OpenRouter.Grants.{Grant, GrantRegistry}
use reverso_llm.OpenRouter.Grants.Authority.{Authorizes, Verifies, verify-Verifies}
use reverso_llm.OpenRouter.Policy.{PolicyEvaluator, assert_fresh, require_zdr, require_data_denial}
use reverso_llm.OpenRouter.Identity.{upstream_model}
use reverso_llm.OpenRouter.Identity.Names.{IsPresented, upstream_model_iff}
use reverso_llm.OpenRouter.Runtime.{
  OpenRouterSurfaceGrant, OpenRouterRuntime, assert_allowlisted, is_granted, surface_eligible,
  assert_surface_eligible, gate, Claim, discard, verify_claim, check_claim, admit_gated,
  admit_and_dispatch,
}

pub record IsFresh (now : ℤ) (e : PolicyEvaluator) : Type 0 where
  pub known : e.policy.revision ≢ ""
  pub past : pos 0 ≤ℤ now -ℤ e.policy.observed_at
  pub bounded : now -ℤ e.policy.observed_at ≤ℤ e.freshness_bound_seconds

-- Without surface grants every model is eligible; with some, one must name the upstream model and
-- the surface.
abbrev pub IsEligible : List OpenRouterSurfaceGrant → String → String → Type 0
IsEligible [] presented_model surface = Unit
IsEligible (g ∷ gs) presented_model surface =
    (upstream : String) × IsPresented presented_model upstream
    × (is_granted upstream surface (g ∷ gs) ≡ true)

-- Every check in front of the grants has passed.
pub record IsGated (surface presented_model : String) (now : ℤ) (rt : OpenRouterRuntime)
    : Type 0 where
  pub listed : contains presented_model rt.allowlist ≡ true
  pub eligible : IsEligible rt.surface_grants presented_model surface
  pub fresh : IsFresh now rt.policy_evaluator
  pub zdr : rt.policy_evaluator.policy.requires_zdr ≡ true
  pub denied : rt.policy_evaluator.policy.denies_data_collection ≡ true

IsFresh-assert_fresh : (now : ℤ) (e : PolicyEvaluator) → assert_fresh now e ≡ ok tt → IsFresh now e
unfolding assert_fresh
IsFresh-assert_fresh now e h = record {
  known = ground (arith, text_key.same_iff e.policy.revision "");
  past = ground arith;
  bounded = ground arith;
}

IsEligible-surface_eligible :
    (gs : List OpenRouterSurfaceGrant) (model surface : String)
    → surface_eligible gs model surface ≡ ok tt
    → IsEligible gs model surface
unfolding surface_eligible
IsEligible-surface_eligible [] model surface h = tt
IsEligible-surface_eligible (g ∷ gs) model surface h =
    let (upstream, found, granted) = bind_inversion (upstream_model model) _ h in
    (upstream, (upstream_model_iff model upstream).0 found, ground arith)

gate_sound :
    (surface model : String) (now : ℤ) (rt : OpenRouterRuntime)
    → gate surface model now rt ≡ ok tt
    → IsGated surface model now rt
unfolding gate assert_allowlisted assert_surface_eligible require_zdr require_data_denial
gate_sound surface model now rt h =
    let (_, listed, rest) = bind_inversion (assert_allowlisted model rt) _ h in
    let (_, eligible, rest2) = bind_inversion (assert_surface_eligible model surface rt) _ rest in
    let (_, fresh, rest3) = bind_inversion (assert_fresh now rt.policy_evaluator) _ rest2 in
    let (_, zdr, denied) = bind_inversion (require_zdr rt.policy_evaluator) _ rest3 in
    record {
      listed = ground arith;
      eligible = IsEligible-surface_eligible rt.surface_grants model surface eligible;
      fresh = IsFresh-assert_fresh now rt.policy_evaluator fresh;
      zdr = ground arith;
      denied = ground arith;
    }

module _ (surface model : String) (now : ℤ) (rt : OpenRouterRuntime) where
  -- A claim with all its parts is backed by a registered grant for that launcher and the model.
  abbrev pub IsBacked : Option String → Option ℕ → Option Bool → Type 0
  IsBacked (some capability) (some pid) (some live) =
      (g : Grant) × (upstream : String) × IsPresented model upstream
      × (Dict.get capability rt.grants.grants ≡ some g)
      × Authorizes g pid upstream now live
  IsBacked _ _ _ = Unit

  abbrev pub Admits : Claim → Outcome (Unit {0}) → OpenRouterRuntime → Type 0
  Admits claim (ok _) next =
      IsGated surface model now rt
      × IsBacked claim.capability claim.launcher_pid claim.liveness
      × (next ≡ rt)
  Admits claim (raised _) next =
      (next.allowlist ≡ rt.allowlist)
      × (next.surface_grants ≡ rt.surface_grants)
      × (next.policy_evaluator ≡ rt.policy_evaluator)

  claimed-Admits :
      (u c : String) (p : ℕ) (l : Bool) (o : Outcome Grant) (registry : GrantRegistry)
      → IsGated surface model now rt
      → upstream_model model ≡ ok u
      → Verifies c p u now l rt.grants o registry
      → Admits
          (record { capability = some c; launcher_pid = some p; liveness = some l })
          (discard o)
          (record rt { grants = registry })
  unfolding discard
  claimed-Admits u c p l (ok g) registry pre named (found, may, same) = (
    pre,
    (g, u, (upstream_model_iff model u).0 named, found, may),
    ap (λ registry. record rt { grants = registry }) same,
  )
  claimed-Admits u c p l (raised x) registry pre named v = (refl, refl, refl)

  check_claim-Admits :
      (c : Option String) (p : Option ℕ) (l : Option Bool) (pre : IsGated surface model now rt)
      → Admits
          (record { capability = c; launcher_pid = p; liveness = l })
          (check_claim c p l model now rt).0
          (check_claim c p l model now rt).1
  unfolding check_claim verify_claim
  check_claim-Admits none p l pre = (pre, tt, refl)
  check_claim-Admits (some c) none l pre = (pre, tt, refl)
  check_claim-Admits (some c) (some p) none pre = (pre, tt, refl)
  check_claim-Admits (some c) (some p) (some l) pre = named (upstream_model model) refl
    where
      named :
          (u : Outcome String)
          → upstream_model model ≡ u
          → Admits
              (record { capability = some c; launcher_pid = some p; liveness = some l })
              (verify_claim u c p l now rt).0
              (verify_claim u c p l now rt).1
      named (raised x) e = (refl, refl, refl)
      named (ok u) e = claimed-Admits u c p l _ _ pre e (verify-Verifies c p u now l rt.grants)

-- An admitted request names a model on the allowlist that is eligible for the surface, under a fresh
-- policy that requires zero data retention and denies data collection. If the request comes with a
-- capability, a process and its liveness, the capability is registered for that live process and
-- exactly this upstream model, and is not too old. Admission changes nothing, and a refusal changes
-- nothing but the grants.
pub admit_and_dispatch-Admits :
    (surface model : String) (claim : Claim) (now : ℤ) (rt : OpenRouterRuntime)
    → Admits surface model now rt claim
        (admit_and_dispatch surface model claim now rt).0
        (admit_and_dispatch surface model claim now rt).1
unfolding admit_and_dispatch
admit_and_dispatch-Admits surface model claim now rt = gated (gate surface model now rt) refl
  where
    gated :
        (o : Outcome (Unit {0}))
        → gate surface model now rt ≡ o
        → Admits surface model now rt claim
            (admit_gated o claim model now rt).0
            (admit_gated o claim model now rt).1
    gated (raised x) e = (refl, refl, refl)
    gated (ok _) e =
        check_claim-Admits surface model now rt claim.capability claim.launcher_pid claim.liveness
          (gate_sound surface model now rt e)
