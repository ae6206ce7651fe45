-- ===== src/Bytes/Search.antt =====
-- Prefixes and occurrences in bytes.
use reverso_llm.Prelude.{
  ◌+◌, Bool, true, false, [], ◌∷◌, ◌≡◌, arith, if◌then◌else◌, nat_eq, length, Option, none, some,
  Option-cases, inl, inr,
}
use reverso_llm.Bytes.{Bytes}

-- s.startswith(p)
unfoldable pub starts_with : Bytes → Bytes → Bool
starts_with [] s = true
starts_with (c ∷ p) [] = false
starts_with (c ∷ p) (d ∷ s) = if nat_eq c d then starts_with p s else false

-- s.find(p), as what stands in front of the first occurrence and what begins with it
unfoldable pub find : Bytes → Bytes → Option (Bytes × Bytes)
find p [] = if starts_with p [] then some ([], []) else none
find p (c ∷ s) =
    let rest = find p s in
    if starts_with p (c ∷ s)
    then some ([], c ∷ s)
    else elim rest [ none ↦ none | some (before, from) ↦ some (c ∷ before, from) ]

-- p in s
abbrev pub occurs : Bytes → Bytes → Bool
occurs p s = elim (find p s) [ none ↦ false | some _ ↦ true ]

-- What an occurrence leaves in front of it and what begins with it make up the whole.
pub find-parts :
    (p s before from : Bytes)
    → find p s ≡ some (before, from)
    → (starts_with p from ≡ true) × (length before + length from ≡ length s)
unfolding find
find-parts p [] before from h = ground arith
find-parts p (c ∷ s) before from h = elim (Option-cases (find p s)) [
  | inl none_found ↦ ground arith
  | inr ((b, f), found) ↦ ground (arith, find-parts p s b f found)
]
