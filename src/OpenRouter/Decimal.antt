-- ===== src/OpenRouter/Decimal.antt =====
-- The `decimal.Decimal` amounts of budget.py, in fixed point. An amount of money counts units of
-- 10^-18 US dollars, a price units of 10^-12 dollars for a million tokens, so that a count of tokens
-- times a price is exactly an amount. Decimal's special values and the rounding of results with
-- more than 28 digits are left out.
use reverso_llm.Prelude.{ℕ, suc, ◌+◌, ◌*◌, ◌/◌, ◌%◌, ◌≤◌, arith, ltb, nat_eq, if◌then◌else◌}
use reverso_llm.Prelude.Int.{ℤ, pos, negsuc, sub_ℕ, pos_part, neg_part, ◌≤ℤ◌}

-- What `Decimal(text)` makes of a text; the empty text is malformed, but `text or "0"` is a zero.
pub data Numeral : Type 0 where
  blank malformed : Numeral
  decimal : ℤ → Numeral

-- A millionth of a dollar.
abbrev pub micro : ℕ
micro = 1_000_000_000_000

-- n / micro, rounded half to even, as `quantize` rounds.
unfoldable pub half_even : ℕ → ℕ
half_even n =
    let q = n / micro in
    let r = n % micro in
    if ltb (2 * r) micro
    then q
    else if ltb micro (2 * r)
    then q + 1
    else if nat_eq (q % 2) 0
    then q
    else q + 1

-- amount.quantize(Decimal("0.000001"))
unfoldable pub quantize : ℤ → ℤ
unfolding half_even
quantize (pos n) = pos (half_even n * micro)
quantize (negsuc n) = sub_ℕ 0 (half_even (suc n) * micro)

half_even-near :
    (n : ℕ)
    → (2 * (half_even n * micro) ≤ 2 * n + micro) × (2 * n ≤ 2 * (half_even n * micro) + micro)
unfolding half_even
half_even-near n = ground arith

-- Quantizing moves an amount by half a millionth of a dollar at most, in either direction.
pub quantize-near :
    (x : ℤ)
    → (2 * pos_part (quantize x) + 2 * neg_part x
        ≤ 2 * pos_part x + 2 * neg_part (quantize x) + micro)
      × (2 * pos_part x + 2 * neg_part (quantize x)
          ≤ 2 * pos_part (quantize x) + 2 * neg_part x + micro)
unfolding quantize
quantize-near (pos n) = omega (arith, half_even-near n)
quantize-near (negsuc n) = ground (arith, half_even-near (suc n))

pub quantize-nonneg : (x : ℤ) → pos 0 ≤ℤ x → pos 0 ≤ℤ quantize x
unfolding quantize
quantize-nonneg (pos n) h = ground arith
quantize-nonneg (negsuc n) h = absurd (ground arith)
