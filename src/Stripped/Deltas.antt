-- ===== src/Stripped/Deltas.antt =====
-- `_split_visible_delta` of reverso/middleware/responses_think_stripper.py: a long delta as the deltas of
-- several events. A text is the list of its code points; a delta that is no text stays in its payload.
use mathlib.Core.List.{append-nil}
use reverso_llm.Prelude.{
  ℕ, zero, suc, ◌≤◌, Bool, true, false, not, ◌||◌, List, [], ◌∷◌, ◌++◌, ◌≡◌, refl, ap, ◌∙◌, arith,
  if◌then◌else◌, leb, length, concat, All, ◌⊎◌, inl, inr, Bool-cases, leb→le,
}
use reverso_llm.Bytes.{Bytes, drop, front, front-drop}

-- `_VISIBLE_DELTA_CHUNK_SIZE`
abbrev pub chunk_size : ℕ
chunk_size = 48

abbrev next_chunk : (Bytes → List Bytes) → Bytes → List Bytes
next_chunk next [] = []
next_chunk next (c ∷ s) = front chunk_size (c ∷ s) ∷ next (drop chunk_size (c ∷ s))

-- `for index in range(0, len(delta), size)`, on fuel for the chunks.
unfoldable pub chunks : ℕ → Bytes → List Bytes
chunks zero s = []
chunks (suc fuel) s = next_chunk (chunks fuel) s

-- A chunk for each code point is enough.
unfoldable pub split_visible_delta : Bytes → Bool → List Bytes
split_visible_delta delta enabled =
    if not enabled || leb (length delta) chunk_size then delta ∷ [] else chunks (length delta) delta

abbrev IsShort : Bool → Bytes → Type 0
IsShort enabled chunk = (enabled ≡ false) ⊎ (length chunk ≤ chunk_size)

length-drop_le : (n : ℕ) (s : Bytes) → length (drop n s) ≤ length s
length-drop_le zero s = omega arith
length-drop_le (suc n) [] = omega arith
length-drop_le (suc n) (c ∷ s) = omega (arith, length-drop_le n s)

length-front_le : (n : ℕ) (s : Bytes) → length (front n s) ≤ n
length-front_le zero s = omega arith
length-front_le (suc n) [] = omega arith
length-front_le (suc n) (c ∷ s) = omega (arith, length-front_le n s)

concat-chunks : (fuel : ℕ) (s : Bytes) → length s ≤ fuel → concat (chunks fuel s) ≡ s
unfolding concat chunks
concat-chunks zero [] h = refl
concat-chunks zero (c ∷ s) h = absurd (omega (arith, h))
concat-chunks (suc fuel) [] h = refl
concat-chunks (suc fuel) (c ∷ s) h =
    ap (λ rest. front chunk_size (c ∷ s) ++ rest)
      (concat-chunks fuel (drop chunk_size (c ∷ s)) (omega (arith, h, length-drop_le 47 s)))
    ∙ front-drop chunk_size (c ∷ s)

chunks-IsShort : (enabled : Bool) (fuel : ℕ) (s : Bytes) → All (IsShort enabled) (chunks fuel s)
unfolding chunks
chunks-IsShort enabled zero s = tt
chunks-IsShort enabled (suc fuel) [] = tt
chunks-IsShort enabled (suc fuel) (c ∷ s) = (
  inr (length-front_le chunk_size (c ∷ s)),
  chunks-IsShort enabled fuel (drop chunk_size (c ∷ s)),
)

whole-IsShort :
    (delta : Bytes) (enabled : Bool)
    → (not enabled || leb (length delta) chunk_size) ≡ true
    → IsShort enabled delta
whole-IsShort delta false h = inl refl
whole-IsShort delta true h = inr (leb→le (length delta) chunk_size h)

-- The deltas that a delta is split into are that delta when joined, and where the splitting is enabled
-- each has 48 code points at most.
pub concat-split_visible_delta :
    (delta : Bytes) (enabled : Bool)
    → (concat (split_visible_delta delta enabled) ≡ delta)
      × All (IsShort enabled) (split_visible_delta delta enabled)
unfolding split_visible_delta concat
concat-split_visible_delta delta enabled =
    elim (Bool-cases (not enabled || leb (length delta) chunk_size)) [
      | inr e ↦
          rw (e, All)
            (
              concat-chunks (length delta) delta (omega arith),
              chunks-IsShort enabled (length delta) delta,
            )
      | inl e ↦ rw (e, All) (append-nil delta, (whole-IsShort delta enabled e, tt))
    ]
