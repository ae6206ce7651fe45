-- ===== src/Claude/Lines.antt =====
-- `str.splitlines()` and `"\n".join(...)`.
use Prim.Native.Char.{Char, code}
use Prim.Native.String.{◌++◌ as ◌<>◌}
use package.text.Mathlib.TextLemmas.{nil-append, cons-append}
use reverso_llm.Prelude.{
  ℕ, String, Bool, false, ◌||◌, ◌&&◌, List, [], ◌∷◌, ◌≡◌, refl, ap, ◌∙◌, if◌then◌else◌, nat_eq, All,
  Bool-cases, inl, inr,
}

-- The code points at which a line ends.
abbrev ends_line : ℕ → Bool
ends_line n =
    nat_eq n 10
    || nat_eq n 11
    || nat_eq n 12
    || nat_eq n 13
    || nat_eq n 28
    || nat_eq n 29
    || nat_eq n 30
    || nat_eq n 133
    || nat_eq n 8232
    || nat_eq n 8233

unfoldable pub is_break : Char → Bool
is_break c = ends_line (code c)

begins_with_newline : String → Bool
begins_with_newline String.[] = false
begins_with_newline (String.◌∷◌ c s) = nat_eq (code c) 10

abbrev prepend : Char → List String → List String
prepend c [] = (String.◌∷◌ c String.[]) ∷ []
prepend c (line ∷ lines) = String.◌∷◌ c line ∷ lines

-- A line ends at each break; \r\n is one.
unfoldable pub splitlines : String → List String
unfolding begins_with_newline
splitlines String.[] = []
splitlines (String.◌∷◌ c s) =
    let rest = splitlines s in
    if is_break c
    then (if nat_eq (code c) 13 && begins_with_newline s then rest else "" ∷ rest)
    else prepend c rest

unfoldable pub join_lines : List String → String
join_lines [] = ""
join_lines (line ∷ []) = line
join_lines (line ∷ next ∷ lines) = line <> ("\n" <> join_lines (next ∷ lines))

-- A text without a break.
abbrev pub IsLine : String → Type 0
IsLine String.[] = Unit
IsLine (String.◌∷◌ c s) = (is_break c ≡ false) × IsLine s

All-prepend :
    (c : Char) (lines : List String)
    → is_break c ≡ false
    → All IsLine lines
    → All IsLine (prepend c lines)
All-prepend c [] e h = ((e, tt), tt)
All-prepend c (line ∷ lines) e (l, h) = ((e, l), h)

pub splitlines-IsLine : (s : String) → All IsLine (splitlines s)
unfolding splitlines
splitlines-IsLine String.[] = tt
splitlines-IsLine (String.◌∷◌ c s) = elim (Bool-cases (is_break c)) [
  | inr e ↦ rw (e, All) (All-prepend c (splitlines s) e (splitlines-IsLine s))
  | inl e ↦ elim (Bool-cases (nat_eq (code c) 13 && begins_with_newline s)) [
    | inl d ↦ rw (e, d, All) (splitlines-IsLine s)
    | inr d ↦ rw (e, d, All) (tt, splitlines-IsLine s)
  ]
]

newline_first : (s : String) → ("\n" <> s) ≡ String.◌∷◌ "\n" s
newline_first s = cons-append "\n" "" s ∙ ap (λ t. String.◌∷◌ "\n" t) (nil-append s)

splitlines-cut :
    (line rest : String)
    → IsLine line
    → splitlines (line <> ("\n" <> rest)) ≡ line ∷ splitlines rest
unfolding splitlines is_break
splitlines-cut String.[] rest h = rw (nil-append ("\n" <> rest), newline_first rest) refl
splitlines-cut (String.◌∷◌ c line) rest (e, h) =
    rw (cons-append c line ("\n" <> rest), e, splitlines-cut line rest h) refl

abbrev whole : String → List String
whole String.[] = []
whole (String.◌∷◌ c s) = String.◌∷◌ c s ∷ []

prepend-whole : (c : Char) (line : String) → prepend c (whole line) ≡ String.◌∷◌ c line ∷ []
prepend-whole c String.[] = refl
prepend-whole c (String.◌∷◌ d s) = refl

splitlines-whole : (line : String) → IsLine line → splitlines line ≡ whole line
unfolding splitlines
splitlines-whole String.[] h = refl
splitlines-whole (String.◌∷◌ c line) (e, h) = rw (e, splitlines-whole line h) (prepend-whole c line)

module _ (P : String → Type 0) where
  All-whole : (line : String) → P line → All P (whole line)
  All-whole String.[] p = tt
  All-whole (String.◌∷◌ c s) p = (p, tt)

  -- The lines of joined lines are among them.
  pub splitlines-join_lines :
      (lines : List String) → All IsLine lines → All P lines → All P (splitlines (join_lines lines))
  unfolding join_lines splitlines
  splitlines-join_lines [] h p = tt
  splitlines-join_lines (line ∷ []) (h, _) (p, _) =
      rw (splitlines-whole line h, All) (All-whole line p)
  splitlines-join_lines (line ∷ next ∷ lines) (h, hs) (p, ps) =
      rw (splitlines-cut line (join_lines (next ∷ lines)) h, All)
        (p, splitlines-join_lines (next ∷ lines) hs ps)
