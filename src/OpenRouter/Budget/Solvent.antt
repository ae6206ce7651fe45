-- ===== src/OpenRouter/Budget/Solvent.antt =====
-- A session whose reconciled costs stay within what was reserved never passes its limit.
use mathlib.Core.Path.{subst, sym, ◌∙◌}
use reverso_llm.Prelude.{
  String, Option, some, List, [], ◌∷◌, ◌++◌, ◌==◌, text_key, ◌≡◌, arith, All, Bool-cases,
  Option-cases, inl, inr,
}
use reverso_llm.Prelude.Int.{ℤ, pos, negsuc, ◌+ℤ◌, ◌*ℤ◌, ◌≤ℤ◌, int_laws, parts}
use reverso_llm.Outcome.{Outcome, ok, raised, bind_inversion}
use reverso_llm.OpenRouter.Decimal.{Numeral, blank, malformed, decimal, quantize-nonneg}
use reverso_llm.OpenRouter.Budget.{
  BudgetReservation, BudgetLedger, cost, estimate, reserve, replace, find, release, released_as,
  reconciled_as, reconcile,
}
use reverso_llm.OpenRouter.Budget.Accounts.{
  committed, held, Reserves, reserve-Reserves, committed-release, committed-reconcile,
  release_missing, release_found, reconcile_lem,
}

abbrev pub IsCredit : BudgetReservation → Type 0
IsCredit r = pos 0 ≤ℤ r.amount_usd

pub record IsSolvent (limit : ℤ) (l : BudgetLedger) : Type 0 where
  pub session : l.session_limit ≡ some limit
  pub within : committed l ≤ℤ limit
  pub credits : All IsCredit l.reservations

abbrev pub NonNegative : Numeral → Type 0
NonNegative (decimal p) = pos 0 ≤ℤ p
NonNegative _ = Unit

-- The calls of one session: `reserve` at prices that are not negative, `release`, and `reconcile` of
-- a cost that is at most what the reservation still holds.
pub data Step (l : BudgetLedger) : BudgetLedger → Type 0 where
  reserves :
      (id model : String) (tokens completion : ℤ) (prompt_price completion_price : Numeral)
      → NonNegative prompt_price
      → NonNegative completion_price
      → Step l (reserve id tokens completion model prompt_price completion_price l).1
  releases : (r : BudgetReservation) → Step l (release r l).1
  reconciles :
      (r : BudgetReservation) (actual : ℤ)
      → IsCredit r
      → pos 0 ≤ℤ actual
      → actual ≤ℤ held (find r.id l.reservations)
      → Step l (reconcile r (some (decimal actual)) l).1

pub data Session (l : BudgetLedger) : BudgetLedger → Type 0 where
  opened : Session l l
  next_call : {m n : BudgetLedger} → Session l m → Step m n → Session l n

*ℤ_nonneg : (a b : ℤ) → pos 0 ≤ℤ a → pos 0 ≤ℤ b → pos 0 ≤ℤ a *ℤ b
unfolding ◌*ℤ◌
*ℤ_nonneg (pos a) (pos b) h k = ground arith
*ℤ_nonneg (pos a) (negsuc b) h k = absurd (omega arith)
*ℤ_nonneg (negsuc a) b h k = absurd (omega arith)

+ℤ_nonneg : (a b : ℤ) → pos 0 ≤ℤ a → pos 0 ≤ℤ b → pos 0 ≤ℤ a +ℤ b
+ℤ_nonneg a b h k = omega int_laws

cost-nonneg :
    (tokens x : ℤ) (price : Numeral) → NonNegative price → cost tokens price ≡ ok x → pos 0 ≤ℤ x
unfolding cost
cost-nonneg tokens x (decimal p) h e = ground (arith, *ℤ_nonneg tokens p)
cost-nonneg tokens x blank h e = ground arith
cost-nonneg tokens x malformed h e = ground arith

ok-injective : {a b : ℤ} → ok a ≡ ok b → a ≡ b
ok-injective e = cc

estimate-nonneg :
    (tokens completion x : ℤ) (p c : Numeral)
    → NonNegative p
    → NonNegative c
    → estimate tokens completion p c ≡ ok x
    → pos 0 ≤ℤ x
unfolding estimate
estimate-nonneg tokens completion x p c hp hc e =
    let (a, ea, rest) = bind_inversion (cost tokens p) _ e in
    let (b, eb, last) = bind_inversion (cost completion c) _ rest in
    let sum = +ℤ_nonneg a b (cost-nonneg tokens a p hp ea) (cost-nonneg completion b c hc eb) in
    subst (λ y. pos 0 ≤ℤ y) (ok-injective last) (quantize-nonneg (a +ℤ b) sum)

credits-append :
    (rs : List BudgetReservation) (r : BudgetReservation)
    → All IsCredit rs
    → IsCredit r
    → All IsCredit (rs ++ r ∷ [])
credits-append [] r h k = (k, tt)
credits-append (s ∷ rs) r (h, hs) k = (h, credits-append rs r hs k)

credits-replace :
    (id : String) (f : BudgetReservation → BudgetReservation) (rs : List BudgetReservation)
    → ((r : BudgetReservation) → IsCredit r → IsCredit (f r))
    → All IsCredit rs
    → All IsCredit (replace id f rs)
unfolding replace
credits-replace id f [] hf h = tt
credits-replace id f (r ∷ rs) hf (h, hs) = elim (Bool-cases (r.id == id)) [
  | inl e ↦ rw e (hf r h, hs)
  | inr e ↦ rw e (h, credits-replace id f rs hf hs)
]

held-nonneg :
    (id : String) (rs : List BudgetReservation) → All IsCredit rs → pos 0 ≤ℤ held (find id rs)
unfolding find
held-nonneg id [] h = omega arith
held-nonneg id (r ∷ rs) (h, hs) = ground (arith, held-nonneg id rs hs)

one_limit : (a b : ℤ) → ◌≡◌ {A = Option ℤ} (some a) (some b) → a ≡ b
one_limit a b e = cc

reserve-IsSolvent :
    (limit : ℤ) (l next : BudgetLedger) (worst : Outcome ℤ) (r : Outcome BudgetReservation)
    → IsSolvent limit l
    → ((x : ℤ) → worst ≡ ok x → pos 0 ≤ℤ x)
    → Reserves l worst r next
    → IsSolvent limit next
reserve-IsSolvent limit l next worst (raised x) h credit same = rw same h
reserve-IsSolvent limit l next worst (ok r) h credit (granted, amount) = record {
  session = rw granted.listed h.session;
  within =
      let same = one_limit granted.session_limit limit (sym granted.session_set ∙ h.session) in
      subst (λ m. committed next ≤ℤ m) same granted.within_session;
  credits =
      rw granted.listed (credits-append l.reservations r h.credits (credit r.amount_usd amount));
}

-- Freeing what is held leaves room.
spend :
    (limit after before free : ℤ)
    → after +ℤ free ≡ before
    → pos 0 ≤ℤ free
    → before ≤ℤ limit
    → after ≤ℤ limit
spend limit after before free e h k = omega (int_laws, parts e)

IsCredit-released_as : (r : BudgetReservation) → IsCredit r → IsCredit (released_as r)
unfolding released_as
IsCredit-released_as r h = h

release-IsSolvent :
    (limit : ℤ) (l : BudgetLedger) (r : BudgetReservation)
    → IsSolvent limit l
    → IsSolvent limit (release r l).1
release-IsSolvent limit l r h = elim (Option-cases (find r.id l.reservations)) [
  | inl e ↦ rw (release_missing r l e) h
  | inr (old, e) ↦
      let room = held-nonneg r.id l.reservations h.credits in
      rw (release_found r l e) (record {
        session = h.session;
        within = rw (release_found r l e) at (
            spend limit _ (committed l) (held (find r.id l.reservations)) (committed-release r l).0
              room h.within);
        credits = credits-replace r.id released_as l.reservations IsCredit-released_as h.credits;
      })
]

-- A cost of at most what is held stays within what was committed.
settle :
    (limit after before free actual : ℤ)
    → after +ℤ free ≡ before +ℤ actual
    → actual ≤ℤ free
    → before ≤ℤ limit
    → after ≤ℤ limit
settle limit after before free actual e h k = omega (int_laws, parts e)

IsCredit-settled :
    (actual : ℤ) (r : BudgetReservation) → IsCredit r → IsCredit (reconciled_as actual r)
unfolding reconciled_as
IsCredit-settled actual r h = h

reconcile-IsSolvent :
    (limit : ℤ) (l : BudgetLedger) (r : BudgetReservation) (actual : ℤ)
    → IsSolvent limit l
    → IsCredit r
    → pos 0 ≤ℤ actual
    → actual ≤ℤ held (find r.id l.reservations)
    → IsSolvent limit (reconcile r (some (decimal actual)) l).1
reconcile-IsSolvent limit l r actual h credit nonneg fits =
    let balance = committed-reconcile r l actual nonneg in
    rw (reconcile_lem r l actual nonneg) (record {
      session = h.session;
      within = rw (reconcile_lem r l actual nonneg) at (
          settle limit _ (committed l) (held (find r.id l.reservations)) actual balance fits
            h.within);
      credits =
          credits-replace r.id (λ _. reconciled_as actual r) l.reservations
            (λ _ _. IsCredit-settled actual r credit) h.credits;
    })

Step-IsSolvent :
    (limit : ℤ) {l next : BudgetLedger} → Step l next → IsSolvent limit l → IsSolvent limit next
Step-IsSolvent limit {l} (reserves id model tokens completion p c hp hc) h =
    reserve-IsSolvent limit l _ _ _ h (λ x. estimate-nonneg tokens completion x p c hp hc)
      (reserve-Reserves id model tokens completion p c l)
Step-IsSolvent limit {l} (releases r) h = release-IsSolvent limit l r h
Step-IsSolvent limit {l} (reconciles r actual credit nonneg fits) h =
    reconcile-IsSolvent limit l r actual h credit nonneg fits

-- Over every session that starts within the limit, of reserves at prices that are not negative, releases,
-- and reconciliations of a cost that is at most what the reservation still holds (nothing once it is
-- released or reconciled), in any order and whether they return or raise, what is committed stays within the session limit: pending amounts and reconciled
-- costs never add up to more.
pub Session-IsSolvent :
    (limit : ℤ) {l next : BudgetLedger} → Session l next → IsSolvent limit l → IsSolvent limit next
Session-IsSolvent limit opened h = h
Session-IsSolvent limit (next_call s st) h = Step-IsSolvent limit st (Session-IsSolvent limit s h)
