-- ===== src/Think.antt =====
-- `StreamingThinkStripper` of reverso/proxy/utils.py: reasoning between `<think>` and `</think>` is taken
-- out of a text that arrives in deltas. A text is the list of its code points.
pub mod Bounds
use mathlib.Core.Option.{map as map_option}
use reverso_llm.Prelude.{
  ℕ, zero, suc, ◌+◌, ◌-◌, Bool, true, false, ◌||◌, not, ◌&&◌, Option, none, some, List, [], ◌∷◌,
  ◌++◌, ◌≡◌, arith, if◌then◌else◌, ltb, nat_eq, length,
}
use reverso_llm.Bytes.{Bytes, ascii, drop, last, front}
use reverso_llm.Bytes.Search.{find, starts_with}

abbrev pub think_start : Bytes
think_start = ascii "<think>"

abbrev pub think_end : Bytes
think_end = ascii "</think>"

-- The first size from n on down at which a suffix is a prefix.
unfoldable pub longest_from : ℕ → Bytes → Bytes → ℕ
longest_from zero value prefix = 0
longest_from (suc n) value prefix =
    let smaller = longest_from n value prefix in
    if starts_with (last (suc n) value) prefix then suc n else smaller

abbrev pub min : ℕ → ℕ → ℕ
min a b = if ltb a b then a else b

unfoldable pub longest_suffix_prefix : Bytes → Bytes → ℕ
longest_suffix_prefix value prefix =
    longest_from (min (length value) (length prefix - 1)) value prefix

-- `while index < len(text) and text[index] in " \t\r\n"`
abbrev pub is_gap : ℕ → Bool
is_gap c = nat_eq c 32 || nat_eq c 9 || nat_eq c 13 || nat_eq c 10

unfoldable pub skip_gap : Bytes → Bytes
skip_gap [] = []
skip_gap (c ∷ s) = let rest = skip_gap s in if is_gap c then rest else c ∷ s

pub record Stripper : Type 0 where
  pub in_think : Bool
  pub pending : Bytes

abbrev pub fresh : Stripper
fresh = record { in_think = false; pending = [] }

-- A turn of the loop: it goes on behind a tag, or it ends and keeps a tail.
pub data Step : Type 0 where
  again : (output : Bytes) (in_think : Bool) (rest : Bytes) → Step
  ends : (output pending : Bytes) → Step

in_block : Bytes → Step
in_block text = elim (find think_end text) [
  | none ↦ ends [] (last (longest_suffix_prefix text think_end) text)
  | some (before, from) ↦ again [] false (skip_gap (drop (length think_end) from))
]

-- Without a start tag.
plain : Bytes → Step
plain text =
    let tail = longest_suffix_prefix text think_start in
    ends (front (length text - tail) text) (last tail text)

-- With a start tag, and perhaps a stray end tag.
opened : Bytes → Bytes → Option (Bytes × Bytes) → Step
opened before from none = again before true (drop (length think_start) from)
opened before from (some (before_end, from_end)) =
    if ltb (length before_end) (length before)
    then again [] false (skip_gap (drop (length think_end) from_end))
    else again before true (drop (length think_start) from)

stray : Bytes → Option (Bytes × Bytes) → Step
unfolding plain
stray text none = plain text
stray text (some (before_end, from_end)) =
    again [] false (skip_gap (drop (length think_end) from_end))

outside : Bytes → Step
unfolding stray opened
outside text = elim (find think_start text) [
  | none ↦ stray text (find think_end text)
  | some (before, from) ↦ opened before from (find think_end text)
]

unfoldable pub step : Bool → Bytes → Step
unfolding in_block outside
step true text = in_block text
step false text = outside text

-- The output in front of what follows.
abbrev pub behind : Bytes → Option (Bytes × Stripper) → Option (Bytes × Stripper)
behind output none = none
behind output (some (rest, s)) = some (output ++ rest, s)

-- What a turn makes of the turns after it.
abbrev pub go_on :
    Bool → (Bool → Bytes → Option (Bytes × Stripper)) → Step → Option (Bytes × Stripper)
go_on in_think next (ends output pending) =
    some (output, record { in_think = in_think; pending = pending })
go_on in_think next (again output now rest) = behind output (next now rest)

-- The loop, on fuel for its turns.
unfoldable pub strip_loop : ℕ → Bool → Bytes → Option (Bytes × Stripper)
strip_loop fuel in_think [] = some ([], record { in_think = in_think; pending = [] })
strip_loop zero in_think (c ∷ text) = none
strip_loop (suc fuel) in_think (c ∷ text) =
    go_on in_think (strip_loop fuel) (step in_think (c ∷ text))

-- A turn for each code point is enough.
unfoldable pub strip_delta : Bytes → Stripper → Option (Bytes × Stripper)
strip_delta value s = let text = s.pending ++ value in strip_loop (length text) s.in_think text
