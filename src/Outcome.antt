-- ===== src/Outcome.antt =====
-- A Python call that may raise: its value, or the name of the exception's class.
use reverso_llm.Prelude.{◌≡◌, refl, String, arith}

pub data Outcome {ℓ} (A : Type ℓ) : Type ℓ where
  ok : A → Outcome A
  raised : String → Outcome A

infixl 5 ◌>>=◌
-- An exception skips what follows.
abbrev pub ◌>>=◌ {ℓ κ} : {A : Type ℓ} {B : Type κ} → Outcome A → (A → Outcome B) → Outcome B
raised name >>= next = raised name
ok value >>= next = next value

-- What a call that did not raise went through.
pub bind_inversion {ℓ κ} :
    {A : Type ℓ} {B : Type κ} (m : Outcome A) (next : A → Outcome B) {b : B}
    → (m >>= next) ≡ ok b
    → (a : A) × (m ≡ ok a) × (next a ≡ ok b)
bind_inversion (ok a) next h = (a, refl, h)
bind_inversion (raised x) next h = absurd (ground arith)
