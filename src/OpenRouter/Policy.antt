-- ===== src/OpenRouter/Policy.antt =====
-- reverso/protocols/adapters/openrouter/policy.py: the checks of a policy snapshot. The clock's answer
-- is an argument; times, Python floats, count ticks of a clock.
use reverso_llm.Prelude.{String, Bool, List, [], ◌∷◌, if◌then◌else◌, ◌==◌, text_key, contains}
use reverso_llm.Prelude.Int.{ℤ, pos, ◌-ℤ◌, ltb_ℤ}
use reverso_llm.Outcome.{Outcome, ok, raised}

pub record OpenRouterPolicy : Type 0 where
  pub revision : String
  pub observed_at : ℤ
  pub requires_zdr : Bool
  pub denies_data_collection : Bool

pub record PolicyEvaluator : Type 0 where
  pub policy : OpenRouterPolicy
  pub freshness_bound_seconds : ℤ
  pub compatibility_providers : List String

unfoldable pub assert_fresh : ℤ → PolicyEvaluator → Outcome (Unit {0})
assert_fresh now e =
    if e.policy.revision == ""
    then raised "UnknownPolicyError"
    else if ltb_ℤ (now -ℤ e.policy.observed_at) (pos 0)
    then raised "FreshnessBoundError"
    else if ltb_ℤ e.freshness_bound_seconds (now -ℤ e.policy.observed_at)
    then raised "FreshnessBoundError"
    else ok tt

unfoldable pub require_zdr : PolicyEvaluator → Outcome (Unit {0})
require_zdr e = if e.policy.requires_zdr then ok tt else raised "PolicyRejectionError"

unfoldable pub require_data_denial : PolicyEvaluator → Outcome (Unit {0})
require_data_denial e =
    if e.policy.denies_data_collection then ok tt else raised "PolicyRejectionError"

unfoldable pub assert_endpoint_compatible : String → PolicyEvaluator → Outcome (Unit {0})
assert_endpoint_compatible provider e = elim e.compatibility_providers [
  | [] ↦ raised "UnknownPolicyError"
  | p ∷ ps ↦ if contains provider (p ∷ ps) then ok tt else raised "PolicyRejectionError"
]
