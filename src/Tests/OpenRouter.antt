-- ===== src/Tests/OpenRouter.antt =====
-- The OpenRouter provider: a session of the ledger, the life of a grant, an admission, a chain.
use reverso_llm.Prelude.{
  ℕ, String, true, none, some, [], ◌∷◌, ◌≡◌, refl, ◌↔◌, arith, any, ◌==◌, text_key, contains,
}
use reverso_llm.Prelude.Int.{pos, ◌+ℤ◌, ◌-ℤ◌, ◌*ℤ◌, ◌≤ℤ◌}
use reverso_llm.Prelude.Dict
use reverso_llm.Json.{null, Fields}
use reverso_llm.Outcome.{ok}
use reverso_llm.OpenRouter.Decimal.{Numeral, decimal, blank, quantize}
use reverso_llm.OpenRouter.Budget.{
  BudgetLedger, BudgetReservation, pending, estimate, cost, admit, reserve, reconcile, find,
  reserved, remaining_usd,
}
use reverso_llm.OpenRouter.Budget.Accounts.{Reserves, reserve-Reserves, reserve_granted}
use reverso_llm.OpenRouter.Budget.Solvent.{
  IsSolvent, opened, next_call, reconciles, Session-IsSolvent,
}
use reverso_llm.OpenRouter.Grants.{Grant, GrantRegistry, issue, verify}
use reverso_llm.OpenRouter.Grants.Authority.{
  Verifies, verify-Verifies, verify-issue, verify_within_max_ttl, start, issues,
}
use reverso_llm.OpenRouter.Identity.{upstream_model}
use reverso_llm.OpenRouter.Identity.Names.{IsPresented, upstream_model_iff}
use reverso_llm.OpenRouter.Runtime.{OpenRouterRuntime, Claim, admit_and_dispatch}
use reverso_llm.OpenRouter.Runtime.Admission.{Admits, admit_and_dispatch-Admits}
use reverso_llm.OpenRouter.Continuation.{
  ReplayItem, ReplayChain, materialize_continuation, build_continuation_request,
}
use reverso_llm.OpenRouter.Continuation.Requests.{
  IsStateless, build_continuation_request-IsStateless,
}

-- A dollar, in units.
abbrev dollar : ℕ
dollar = 1_000_000_000_000_000_000

abbrev price : Numeral
price = decimal (pos 2_000_000_000_000)

abbrev reservation : BudgetReservation
reservation = record {
  id = "r1";
  model = "a/m";
  amount_usd = pos 3_000_000_000_000_000;
  state = pending;
  reconciled_amount_usd = none;
}

abbrev ledger : BudgetLedger
ledger = record {
  request_limit = some (pos dollar);
  session_limit = some (pos dollar);
  reservations = reservation ∷ [];
  reconciled_total = pos 0;
}

-- 1000 and 500 tokens at two dollars a million.
reserve_run :
    (reserve "r1" (pos 1000) (pos 500) "a/m" price price (record ledger { reservations = [] })).1
    ≡ ledger
unfolding reserve estimate cost admit quantize ◌+ℤ◌ ◌*ℤ◌ ◌-ℤ◌ remaining_usd reserved
reserve_run = refl

reserve-Reserves_example :
    Reserves ledger
      (estimate (pos 10) (pos 20) price blank)
      (reserve "r2" (pos 10) (pos 20) "a/m" price blank ledger).0
      (reserve "r2" (pos 10) (pos 20) "a/m" price blank ledger).1
reserve-Reserves_example = reserve-Reserves "r2" "a/m" (pos 10) (pos 20) price blank ledger

reserve_granted_example :
    (r : BudgetReservation) × ((reserve "r2" (pos 1000) (pos 500) "a/m" price price ledger).0
      ≡ ok r)
unfolding estimate cost quantize ◌+ℤ◌ ◌*ℤ◌ reserved
reserve_granted_example =
    reserve_granted "r2" "a/m" (pos 1000) (pos 500) price price ledger (pos dollar) (pos dollar)
      (pos 3_000_000_000_000_000) refl refl refl (omega arith) (omega arith)

Session-IsSolvent_example :
    IsSolvent (pos dollar) (reconcile reservation (some (decimal (pos 7))) ledger).1
unfolding find reserved ◌+ℤ◌
Session-IsSolvent_example =
    Session-IsSolvent (pos dollar) {l = ledger}
      (next_call opened (reconciles reservation (pos 7) (omega arith) (omega arith) (omega arith)))
      (record { session = refl; within = omega arith; credits = omega arith })

abbrev registry : GrantRegistry
registry = record { max_ttl_seconds = pos 86400; grants = [] }

verify-Verifies_example :
    Verifies "cap" 42 "a/m"
      (pos 9)
      true
      registry
      (verify "cap" 42 "a/m" (pos 9) true registry).0
      (verify "cap" 42 "a/m" (pos 9) true registry).1
verify-Verifies_example = verify-Verifies "cap" 42 "a/m" (pos 9) true registry

abbrev granted : Grant
granted = record {
  capability = "cap";
  launcher_pid = 42;
  model = "a/m";
  issued_at = pos 5;
  ttl_seconds = pos 60;
}

verify-issue_example :
    (verify "cap" 42 "a/m"
      (pos 65)
      true
      (issue "cap" 42 "a/m" (some (pos 60)) (pos 5) true registry).1).0
    ≡ ok granted
unfolding ◌-ℤ◌
verify-issue_example =
    verify-issue "cap" 42 "a/m" (some (pos 60)) (pos 5) (pos 65) registry (omega arith)

verify_within_max_ttl_example : pos 65 -ℤ pos 5 ≤ℤ pos 86400
unfolding Dict.get
verify_within_max_ttl_example =
    verify_within_max_ttl {r = registry} "cap" 42 "a/m" (pos 65) true granted
      (λ k g e. absurd (ground arith)) (issues "cap" 42 "a/m" (some (pos 60)) (pos 5) true start)
      verify-issue_example

upstream_model_iff_example :
    (upstream_model "openrouter/a/m" ≡ ok "a/m") ↔ IsPresented "openrouter/a/m" "a/m"
upstream_model_iff_example = upstream_model_iff "openrouter/a/m" "a/m"

abbrev runtime : OpenRouterRuntime
runtime = record {
  allowlist = "openrouter/a/m" ∷ [];
  surface_grants = record { model = "a/m"; surface = "responses" } ∷ [];
  policy_evaluator = record {
    policy = record {
      revision = "r7";
      observed_at = pos 1;
      requires_zdr = true;
      denies_data_collection = true;
    };
    freshness_bound_seconds = pos 100;
    compatibility_providers = [];
  };
  grants = record registry { grants = ("cap", granted) ∷ [] };
}

abbrev claim : Claim
claim = record { capability = some "cap"; launcher_pid = some 42; liveness = some true }

admit_and_dispatch-Admits_example :
    Admits "responses" "openrouter/a/m"
      (pos 10)
      runtime
      claim
      (admit_and_dispatch "responses" "openrouter/a/m" claim (pos 10) runtime).0
      (admit_and_dispatch "responses" "openrouter/a/m" claim (pos 10) runtime).1
admit_and_dispatch-Admits_example =
    admit_and_dispatch-Admits "responses" "openrouter/a/m" claim (pos 10) runtime

abbrev said : String → String → ReplayItem
said role content = record {
  role = role;
  content = content;
  reasoning = none;
  tool_call_id = none;
  tool_name = none;
  tool_arguments = none;
  tool_output = null;
  response_id = none;
}

abbrev chain : ReplayChain
chain = record { response_id = "resp_1"; items = said "user" "hi" ∷ said "assistant" "hello" ∷ [] }

build_continuation_request-IsStateless_example :
    (chain ≡ chain)
    × (any (λ (i : ReplayItem). i.role == "assistant") chain.items ≡ true)
    × ((body : Fields) × (build_continuation_request "a/m" chain ≡ ok body)
        × IsStateless "a/m" chain body)
unfolding materialize_continuation any contains
build_continuation_request-IsStateless_example =
    build_continuation_request-IsStateless "a/m" chain chain refl
