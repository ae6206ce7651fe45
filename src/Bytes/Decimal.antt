-- ===== src/Bytes/Decimal.antt =====
-- `str(n).encode("ascii")` for a length, and what its reader makes of it.
use reverso_llm.Prelude.{
  ℕ, zero, suc, ◌+◌, ◌-◌, ◌*◌, ◌/◌, ◌%◌, ◌<◌, false, [], ◌∷◌, ◌++◌, ◌≡◌, ◌∙◌, refl, arith,
  if◌then◌else◌, ltb, Bool-cases, inl, inr,
}
use reverso_llm.Bytes.{Bytes}

-- One digit for each unit of fuel at most.
pub digits : ℕ → ℕ → Bytes
digits zero n = []
digits (suc fuel) n =
    let front = digits fuel (n / 10) in
    if ltb n 10 then (b'0' + n) ∷ [] else front ++ (b'0' + n % 10) ∷ []

-- A number has no more digits than one more than itself.
unfoldable pub decimal : ℕ → Bytes
unfolding digits
decimal n = digits (suc n) n

-- The number that digits stand for.
abbrev pub read_digits : ℕ → Bytes → ℕ
read_digits acc [] = acc
read_digits acc (c ∷ s) = read_digits (acc * 10 + (c - b'0')) s

read_digits-append :
    (acc : ℕ) (s t : Bytes) → read_digits acc (s ++ t) ≡ read_digits (read_digits acc s) t
read_digits-append acc [] t = refl
read_digits-append acc (c ∷ s) t = read_digits-append (acc * 10 + (c - b'0')) s t

tenth : (n fuel : ℕ) → n < suc fuel → ltb n 10 ≡ false → n / 10 < fuel
tenth n fuel h e = ground arith

digit_back : (n : ℕ) → (n / 10) * 10 + (b'0' + n % 10 - b'0') ≡ n
digit_back n = omega arith

read_digits-digits : (fuel n : ℕ) → n < fuel → read_digits 0 (digits fuel n) ≡ n
unfolding digits
read_digits-digits zero n h = absurd (omega arith)
read_digits-digits (suc fuel) n h = elim (Bool-cases (ltb n 10)) [
  | inl e ↦ rw e (omega arith)
  | inr e ↦ rw e (
      read_digits-append 0 (digits fuel (n / 10)) _
      ∙ rw (read_digits-digits fuel (n / 10) (tenth n fuel h e)) (digit_back n))
]

pub read_digits-decimal : (n : ℕ) → read_digits 0 (decimal n) ≡ n
unfolding decimal
read_digits-decimal n = read_digits-digits (suc n) n (omega arith)
