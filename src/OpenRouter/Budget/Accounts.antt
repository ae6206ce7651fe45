-- ===== src/OpenRouter/Budget/Accounts.antt =====
-- What each call of the ledger does to the sum of pending and reconciled amounts.
use reverso_llm.Prelude.{
  String, false, Option, none, some, List, [], ◌∷◌, ◌++◌, if◌then◌else◌, ◌==◌, text_key, ◌≡◌, refl,
  ap, arith, ◌↔◌, Bool-cases, Option-cases, inl, inr,
}
use reverso_llm.Prelude.Int.{ℤ, pos, ◌+ℤ◌, ◌-ℤ◌, ◌≤ℤ◌, int_laws, parts}
use reverso_llm.Outcome.{Outcome, ok, raised}
use reverso_llm.OpenRouter.Decimal.{Numeral, decimal}
use reverso_llm.OpenRouter.Budget.{
  pending, BudgetReservation, BudgetLedger, is_pending, reserved, remaining_usd, estimate, admit,
  reserve, reserve_limited, replace, find, release, released_as, reconciled_as, reconcile,
  parse_required,
}

-- What the session has promised or spent.
abbrev pub committed : BudgetLedger → ℤ
committed l = reserved l.reservations +ℤ l.reconciled_total

-- What a reservation still holds back.
abbrev pub held : Option BudgetReservation → ℤ
held none = pos 0
held (some r) = if is_pending r.state then r.amount_usd else pos 0

reserved-append :
    (rs : List BudgetReservation) (r : BudgetReservation)
    → r.state ≡ pending
    → reserved (rs ++ r ∷ []) ≡ reserved rs +ℤ r.amount_usd
unfolding reserved
reserved-append [] r h = rw h (omega int_laws)
reserved-append (s ∷ rs) r h = elim (Bool-cases (is_pending s.state)) [
  | inl e ↦ rw e (omega (int_laws, parts (reserved-append rs r h)))
  | inr e ↦ rw e (reserved-append rs r h)
]

-- Replacing the first reservation of an id by one that holds nothing frees what it held.
reserved-replace :
    (id : String) (f : BudgetReservation → BudgetReservation) (rs : List BudgetReservation)
    → ((r : BudgetReservation) → is_pending (f r).state ≡ false)
    → reserved (replace id f rs) +ℤ held (find id rs) ≡ reserved rs
unfolding reserved replace find
reserved-replace id f [] h = omega int_laws
reserved-replace id f (r ∷ rs) h = elim (Bool-cases (r.id == id)) [
  | inl e ↦ elim (Bool-cases (is_pending r.state)) [
    | inl p ↦ rw (e, p, h r) (omega int_laws)
    | inr p ↦ rw (e, p, h r) (omega int_laws)
  ]
  | inr e ↦ elim (Bool-cases (is_pending r.state)) [
    | inl p ↦ rw (e, p) (omega (int_laws, parts (reserved-replace id f rs h)))
    | inr p ↦ rw (e, p) (omega (int_laws, parts (reserved-replace id f rs h)))
  ]
]

-- What a granted reservation means.
pub record IsGranted (l : BudgetLedger) (r : BudgetReservation) (next : BudgetLedger) : Type 0 where
  pub request_limit : ℤ
  pub session_limit : ℤ
  pub request_set : l.request_limit ≡ some request_limit
  pub session_set : l.session_limit ≡ some session_limit
  pub within_request : r.amount_usd ≤ℤ request_limit
  pub within_session : committed next ≤ℤ session_limit
  pub booked : committed next ≡ committed l +ℤ r.amount_usd
  pub listed : next ≡ record l { reservations = l.reservations ++ r ∷ [] }

admit-IsGranted :
    (id model : String) (limit worst session : ℤ) (l : BudgetLedger) {r : BudgetReservation}
    {next : BudgetLedger}
    → l.request_limit ≡ some limit
    → l.session_limit ≡ some session
    → admit id model limit worst l ≡ (ok r, next)
    → IsGranted l r next
unfolding admit remaining_usd
admit-IsGranted id model limit worst session l {r} {next} q s e =
    let listed : next ≡ record l { reservations = l.reservations ++ r ∷ [] } = ground arith in
    let amount : r.amount_usd ≡ worst = ground arith in
    let state : r.state ≡ pending = ground arith in
    let fits : worst ≤ℤ limit = ground arith in
    let room : worst ≤ℤ session -ℤ reserved l.reservations -ℤ l.reconciled_total = ground arith in
    let booked : committed next ≡ committed l +ℤ r.amount_usd =
      rw listed (omega (int_laws, parts (reserved-append l.reservations r state))) in
    record {
      request_limit = limit;
      session_limit = session;
      request_set = q;
      session_set = s;
      within_request = rw amount fits;
      within_session = rw booked (rw amount (omega int_laws));
      booked = booked;
      listed = listed;
    }

amount-admit :
    (id model : String) (limit worst : ℤ) (l : BudgetLedger) {r : BudgetReservation}
    {next : BudgetLedger}
    → admit id model limit worst l ≡ (ok r, next)
    → worst ≡ r.amount_usd
unfolding admit
amount-admit id model limit worst l e = ground arith

-- What a call of `reserve` leaves, by its result: a granted reservation of the estimated amount, or
-- after an exception the ledger as it was.
abbrev pub Reserves : BudgetLedger → Outcome ℤ → Outcome BudgetReservation → BudgetLedger → Type 0
Reserves l worst (ok r) next = IsGranted l r next × (worst ≡ ok r.amount_usd)
Reserves l worst (raised _) next = next ≡ l

admit-Reserves :
    (id model : String) (limit worst session : ℤ) (l : BudgetLedger) (r : Outcome BudgetReservation)
    (next : BudgetLedger)
    → l.request_limit ≡ some limit
    → l.session_limit ≡ some session
    → admit id model limit worst l ≡ (r, next)
    → Reserves l (ok worst) r next
unfolding admit
admit-Reserves id model limit worst session l (ok r) next q s e = (
  admit-IsGranted id model limit worst session l q s e,
  ap ok (amount-admit id model limit worst l e),
)
admit-Reserves id model limit worst session l (raised x) next q s e = ground arith

reserve_limited-Reserves :
    (q s : Option ℤ) (id model : String) (worst : Outcome ℤ) (l : BudgetLedger)
    → l.request_limit ≡ q
    → l.session_limit ≡ s
    → Reserves l worst
        (reserve_limited q s id model worst l).0
        (reserve_limited q s id model worst l).1
unfolding reserve_limited
reserve_limited-Reserves none s id model worst l hq hs = refl
reserve_limited-Reserves (some limit) none id model worst l hq hs = refl
reserve_limited-Reserves (some limit) (some session) id model (raised x) l hq hs = refl
reserve_limited-Reserves (some limit) (some session) id model (ok worst) l hq hs =
    admit-Reserves id model limit worst session l _ _ hq hs refl

-- A reservation is granted only with both limits set, for the estimated amount, which is within the
-- request limit; what the session has then committed is within the session limit, and has grown by
-- that amount; the reservation stands last in the ledger, which is otherwise as before. A call that
-- raises leaves the ledger as it was.
pub reserve-Reserves :
    (id model : String) (tokens completion : ℤ) (prompt_price completion_price : Numeral)
    (l : BudgetLedger)
    → Reserves l
        (estimate tokens completion prompt_price completion_price)
        (reserve id tokens completion model prompt_price completion_price l).0
        (reserve id tokens completion model prompt_price completion_price l).1
unfolding reserve
reserve-Reserves id model tokens completion prompt_price completion_price l =
    reserve_limited-Reserves l.request_limit l.session_limit id model
      (estimate tokens completion prompt_price completion_price) l refl refl

-- With both limits set, an estimate within the request limit that fits the session limit beside
-- what is committed is granted.
pub reserve_granted :
    (id model : String) (tokens completion : ℤ) (prompt_price completion_price : Numeral)
    (l : BudgetLedger) (limit session worst : ℤ)
    → l.request_limit ≡ some limit
    → l.session_limit ≡ some session
    → estimate tokens completion prompt_price completion_price ≡ ok worst
    → worst ≤ℤ limit
    → committed l +ℤ worst ≤ℤ session
    → (r : BudgetReservation) × ((reserve id tokens completion model prompt_price completion_price
          l).0
        ≡ ok r)
unfolding reserve remaining_usd admit
reserve_granted id model tokens completion prompt_price completion_price l limit session worst q s e
      fits room =
    let spare : worst ≤ℤ session -ℤ reserved l.reservations -ℤ l.reconciled_total =
      omega int_laws in
    (
      record {
        id = id;
        model = model;
        amount_usd = worst;
        state = pending;
        reconciled_amount_usd = none;
      },
      rw (q, s, e) (ground arith),
    )

parsed : (x : ℤ) → pos 0 ≤ℤ x → parse_required (some (decimal x)) ≡ ok x
unfolding parse_required
parsed x h = ground arith

freed : (r : BudgetReservation) → is_pending (released_as r).state ≡ false
unfolding released_as
freed r = refl

settled : (actual : ℤ) (r s : BudgetReservation) → is_pending (reconciled_as actual r).state ≡ false
unfolding reconciled_as
settled actual r s = refl

module _ (r : BudgetReservation) (l : BudgetLedger) where
  pub release_missing : find r.id l.reservations ≡ none → release r l ≡ (raised "KeyError", l)
  unfolding release
  release_missing e = ground arith

  pub release_found :
      {old : BudgetReservation}
      → find r.id l.reservations ≡ some old
      → release r l ≡ (ok tt, record l { reservations = replace r.id released_as l.reservations })
  unfolding release
  release_found e = ground arith

  -- Releasing frees exactly what the first reservation of that id held: its amount if it was
  -- pending, else nothing. An unknown id raises `KeyError` and changes nothing.
  pub committed-release :
      (committed (release r l).1 +ℤ held (find r.id l.reservations) ≡ committed l)
      × (((release r l).0 ≡ raised "KeyError") ↔ (find r.id l.reservations ≡ none))
  unfolding release
  committed-release = elim (Option-cases (find r.id l.reservations)) [
    | inl e ↦ (rw (release_missing e, e) (omega int_laws), ground arith)
    | inr (old, e) ↦ (
      rw (release_found e)
          (omega (int_laws, parts (reserved-replace r.id released_as l.reservations freed))),
      ground arith,
    )
  ]

  pub reconcile_lem :
      (actual : ℤ)
      → pos 0 ≤ℤ actual
      → reconcile r (some (decimal actual)) l ≡ (
        ok (reconciled_as actual r),
        record l {
          reservations = replace r.id (λ _. reconciled_as actual r) l.reservations;
          reconciled_total = l.reconciled_total +ℤ actual;
        },
      )
  unfolding reconcile
  reconcile_lem actual h = rw (parsed actual h)

  -- Reconciling frees what the first reservation of that id held and books the actual cost, whether
  -- or not there is such a reservation.
  pub committed-reconcile :
      (actual : ℤ)
      → pos 0 ≤ℤ actual
      → committed (reconcile r (some (decimal actual)) l).1 +ℤ held (find r.id l.reservations)
        ≡ committed l +ℤ actual
  committed-reconcile actual h = rw (reconcile_lem actual h) (
      omega (
        int_laws,
        parts
            (reserved-replace r.id (λ _. reconciled_as actual r) l.reservations (settled actual r)),
      ))
