-- ===== src/OpenRouter/Budget.antt =====
-- reverso/protocols/adapters/openrouter/budget.py: the ledger of reserved and reconciled amounts. A
-- method returns what Python's returns or raises, beside the ledger that it leaves. The id that
-- `uuid.uuid4` draws is an argument.
pub mod Accounts
pub mod Solvent
use reverso_llm.Prelude.{
  String, Bool, true, false, Option, none, some, List, [], ◌∷◌, ◌++◌, if◌then◌else◌, ◌==◌, text_key,
  ◌≡◌, ℕ,
}
use reverso_llm.Prelude.Int.{ℤ, pos, negsuc, ◌+ℤ◌, ◌-ℤ◌, ◌*ℤ◌, ltb_ℤ, leb_ℤ}
use reverso_llm.Outcome.{Outcome, ok, raised, ◌>>=◌}
use reverso_llm.OpenRouter.Decimal.{Numeral, blank, malformed, decimal, quantize}

pub data ReservationState : Type 0 where
  pending released reconciled : ReservationState

pub record BudgetReservation : Type 0 where
  pub id : String
  pub model : String
  pub amount_usd : ℤ
  pub state : ReservationState
  pub reconciled_amount_usd : Option ℤ

-- `BudgetReservation.release` and `.reconcile`
unfoldable pub released_as : BudgetReservation → BudgetReservation
released_as r = record r { state = released }

unfoldable pub reconciled_as : ℤ → BudgetReservation → BudgetReservation
reconciled_as actual r = record r { state = reconciled; reconciled_amount_usd = some actual }

pub record BudgetLedger : Type 0 where
  pub request_limit : Option ℤ
  pub session_limit : Option ℤ
  pub reservations : List BudgetReservation
  pub reconciled_total : ℤ

parse_checked : Numeral → Outcome ℤ
parse_checked (decimal x) = if ltb_ℤ x (pos 0) then raised "ValueError" else ok x
parse_checked _ = raised "ValueError"

unfoldable pub parse_optional : Option Numeral → Outcome (Option ℤ)
unfolding parse_checked
parse_optional none = ok none
parse_optional (some text) = do x ← parse_checked text; ok (some x)

unfoldable pub parse_required : Option Numeral → Outcome ℤ
unfolding parse_checked
parse_required none = raised "MissingLimitsError"
parse_required (some text) = parse_checked text

-- `BudgetLedger(...)`
unfoldable pub new_ledger : Option Numeral → Option Numeral → Outcome BudgetLedger
unfolding parse_optional
new_ledger request_limit_usd session_limit_usd = do
  request ← parse_optional request_limit_usd
  session ← parse_optional session_limit_usd
  ok (record {
    request_limit = request;
    session_limit = session;
    reservations = [];
    reconciled_total = pos 0;
  })

abbrev pub is_pending : ReservationState → Bool
is_pending pending = true
is_pending _ = false

-- The sum over the pending reservations.
unfoldable pub reserved : List BudgetReservation → ℤ
reserved [] = pos 0
reserved (r ∷ rs) = if is_pending r.state then r.amount_usd +ℤ reserved rs else reserved rs

-- `none` is `Decimal("inf")`.
unfoldable pub remaining_usd : BudgetLedger → Option ℤ
remaining_usd l = elim l.session_limit [
  | none ↦ none
  | some limit ↦ some (limit -ℤ reserved l.reservations -ℤ l.reconciled_total)
]

unfoldable pub cost : ℤ → Numeral → Outcome ℤ
cost tokens price = if leb_ℤ tokens (pos 0) then ok (pos 0) else elim price [
  | blank ↦ ok (pos 0)
  | malformed ↦ raised "InvalidOperation"
  | decimal p ↦ ok (tokens *ℤ p)
]

unfoldable pub estimate : ℤ → ℤ → Numeral → Numeral → Outcome ℤ
estimate request_tokens completion_tokens pricing_prompt pricing_completion = do
  prompt_cost ← cost request_tokens pricing_prompt
  completion_cost ← cost completion_tokens pricing_completion
  ok (quantize (prompt_cost +ℤ completion_cost))

-- `remaining < worst_case`, where an infinite remainder is below nothing.
abbrev is_below : Option ℤ → ℤ → Bool
is_below none worst_case = false
is_below (some remaining) worst_case = ltb_ℤ remaining worst_case

-- The part of `reserve` after the estimate.
unfoldable pub admit :
    String → String → ℤ → ℤ → BudgetLedger → Outcome BudgetReservation × BudgetLedger
admit fresh_id model request_limit worst_case l =
    if ltb_ℤ request_limit worst_case
    then (raised "InsufficientBudgetError", l)
    else if is_below (remaining_usd l) worst_case
    then (raised "InsufficientBudgetError", l)
    else let reservation : BudgetReservation = record {
      id = fresh_id;
      model = model;
      amount_usd = worst_case;
      state = pending;
      reconciled_amount_usd = none;
    } in
      (ok reservation, record l { reservations = l.reservations ++ reservation ∷ [] })

admit_estimated :
    String → String → ℤ → Outcome ℤ → BudgetLedger → Outcome BudgetReservation × BudgetLedger
admit_estimated fresh_id model request_limit (raised x) l = (raised x, l)
admit_estimated fresh_id model request_limit (ok worst_case) l =
    admit fresh_id model request_limit worst_case l

reserve_limited :
    Option ℤ
    → Option ℤ
    → String
    → String
    → Outcome ℤ
    → BudgetLedger
    → Outcome BudgetReservation × BudgetLedger
unfolding admit_estimated
reserve_limited (some request_limit) (some _) fresh_id model worst_case l =
    admit_estimated fresh_id model request_limit worst_case l
reserve_limited _ _ fresh_id model worst_case l = (raised "MissingLimitsError", l)

unfoldable pub reserve :
    String
    → ℤ
    → ℤ
    → String
    → Numeral
    → Numeral
    → BudgetLedger
    → Outcome BudgetReservation × BudgetLedger
unfolding reserve_limited
reserve fresh_id request_tokens completion_tokens model pricing_prompt pricing_completion l =
    reserve_limited l.request_limit l.session_limit fresh_id model
      (estimate request_tokens completion_tokens pricing_prompt pricing_completion) l

-- The loops over the reservations: the first with the id is replaced.
unfoldable pub replace :
    String
    → (BudgetReservation → BudgetReservation)
    → List BudgetReservation
    → List BudgetReservation
replace id f [] = []
replace id f (r ∷ rs) = if r.id == id then f r ∷ rs else r ∷ replace id f rs

unfoldable pub find : String → List BudgetReservation → Option BudgetReservation
find id [] = none
find id (r ∷ rs) = if r.id == id then some r else find id rs

unfoldable pub release : BudgetReservation → BudgetLedger → Outcome (Unit {0}) × BudgetLedger
unfolding released_as
release reservation l = elim (find reservation.id l.reservations) [
  | none ↦ (raised "KeyError", l)
  | some _ ↦ (ok tt, record l { reservations = replace reservation.id released_as l.reservations })
]

reconcile_parsed :
    BudgetReservation → Outcome ℤ → BudgetLedger → Outcome BudgetReservation × BudgetLedger
reconcile_parsed reservation (raised x) l = (raised x, l)
reconcile_parsed reservation (ok actual) l =
    let settled = reconciled_as actual reservation in
    (
      ok settled,
      record l {
        reservations = replace reservation.id (λ _. settled) l.reservations;
        reconciled_total = l.reconciled_total +ℤ actual;
      },
    )

unfoldable pub reconcile :
    BudgetReservation → Option Numeral → BudgetLedger → Outcome BudgetReservation × BudgetLedger
unfolding reconcile_parsed reconciled_as
reconcile reservation actual_cost_usd l =
    reconcile_parsed reservation (parse_required actual_cost_usd) l
