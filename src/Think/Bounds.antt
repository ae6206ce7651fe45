-- ===== src/Think/Bounds.antt =====
-- Termination and bounds of `strip_delta`.
use reverso_llm.Prelude.{
  ℕ, zero, suc, ◌+◌, ◌-◌, ◌≤◌, ◌<◌, Bool, true, false, Option, none, some, [], ◌∷◌, ◌++◌, ◌≡◌, refl,
  ap, ◌∙◌, arith, ltb, length, length-append, Bool-cases, Option-cases, inl, inr,
}
use reverso_llm.Bytes.{Bytes, drop, last, front}
use reverso_llm.Bytes.Search.{find, starts_with, find-parts}
use reverso_llm.Think.{
  think_start, think_end, min, longest_from, longest_suffix_prefix, skip_gap, Stripper, Step, again,
  ends, in_block, plain, opened, stray, outside, step, behind, go_on, strip_loop, strip_delta,
}

length-drop : (n : ℕ) (s : Bytes) → length (drop n s) ≡ length s - n
length-drop zero s = omega arith
length-drop (suc n) [] = omega arith
length-drop (suc n) (c ∷ s) = omega (arith, length-drop n s)

length-front_le : (n : ℕ) (s : Bytes) → length (front n s) ≤ n
length-front_le zero s = omega arith
length-front_le (suc n) [] = omega arith
length-front_le (suc n) (c ∷ s) = omega (arith, length-front_le n s)

drop-length : (s : Bytes) → drop (length s) s ≡ []
drop-length [] = refl
drop-length (c ∷ s) = drop-length s

last_none : (s : Bytes) → last 0 s ≡ []
last_none s = ap (λ n. drop n s) (minus_zero (length s)) ∙ drop-length s
  where
    minus_zero : (n : ℕ) → n - 0 ≡ n
    minus_zero n = omega arith

skip_gap_le : (s : Bytes) → length (skip_gap s) ≤ length s
unfolding skip_gap
skip_gap_le [] = omega arith
skip_gap_le (c ∷ s) = ground (arith, skip_gap_le s)

longest_from_le : (n : ℕ) (v p : Bytes) → longest_from n v p ≤ n
unfolding longest_from
longest_from_le zero v p = omega arith
longest_from_le (suc n) v p = ground (arith, longest_from_le n v p)

longest_from-starts_with :
    (n : ℕ) (v p : Bytes) → starts_with (last (longest_from n v p) v) p ≡ true
unfolding longest_from starts_with
longest_from-starts_with zero v p = rw (last_none v) refl
longest_from-starts_with (suc n) v p = elim (Bool-cases (starts_with (last (suc n) v) p)) [
  | inl e ↦ rw e e
  | inr e ↦ rw e (longest_from-starts_with n v p)
]

length-last : (n : ℕ) (s : Bytes) → n ≤ length s → length (last n s) ≡ n
length-last n s h = omega (arith, length-drop (length s - n) s, h)

min_le : (a b : ℕ) → (min a b ≤ a) × (min a b ≤ b)
min_le a b = ground arith

starts_with-nonempty : (p s : Bytes) → 0 < length p → starts_with p s ≡ true → 0 < length s
unfolding starts_with
starts_with-nonempty [] s h e = omega (arith, h)
starts_with-nonempty (c ∷ p) [] h e = ground arith
starts_with-nonempty (c ∷ p) (d ∷ s) h e = omega arith

-- The kept tail of a text is a proper prefix of the tag, and of the text no more than there is.
kept_tail :
    (v p : Bytes)
    → 0 < length p
    → (starts_with (last (longest_suffix_prefix v p) v) p ≡ true)
      × (length (last (longest_suffix_prefix v p) v) < length p)
      × (length (last (longest_suffix_prefix v p) v) ≡ longest_suffix_prefix v p)
      × (longest_suffix_prefix v p ≤ length v)
unfolding longest_suffix_prefix
kept_tail v p h =
    let n = longest_suffix_prefix v p in
    let below = longest_from_le (min (length v) (length p - 1)) v p in
    let (in_text, in_tag) = min_le (length v) (length p - 1) in
    let size = length-last (longest_suffix_prefix v p) v (omega (arith, below, in_text)) in
    (
      longest_from-starts_with (min (length v) (length p - 1)) v p,
      omega (arith, size, below, in_tag, h),
      size,
      omega (arith, below, in_text),
    )

-- What a turn of the loop does: it goes on with less text, or it ends with a proper prefix of the
-- tag that it waits for.
abbrev pub tag : Bool → Bytes
tag true = think_end
tag false = think_start

IsGood : Bool → Bytes → Step → Type 0
IsGood b text (again output now rest) = length output + length rest < length text
IsGood b text (ends output pending) =
    (starts_with pending (tag b) ≡ true)
    × (length pending < length (tag b))
    × (length output + length pending ≤ length text)

-- The text behind a tag.
behind_tag :
    (p text before from : Bytes)
    → 0 < length p
    → find p text ≡ some (before, from)
    → length before + length (drop (length p) from) < length text
behind_tag p text before from h found =
    let (starts, parts) = find-parts p text before from found in
    omega (arith, length-drop (length p) from, starts_with-nonempty p from h starts, parts)

-- A text behind a tag and its gap.
behind_gap :
    (p text before from : Bytes)
    → 0 < length p
    → find p text ≡ some (before, from)
    → 0 + length (skip_gap (drop (length p) from)) < length text
behind_gap p text before from h found =
    omega (arith, behind_tag p text before from h found, skip_gap_le (drop (length p) from))

in_block-IsGood : (text : Bytes) → IsGood true text (in_block text)
unfolding in_block IsGood
in_block-IsGood text = elim (Option-cases (find think_end text)) [
  | inl e ↦
      rw (e, IsGood)
        (let (starts, short, size, inside) = kept_tail text think_end (omega arith) in
          (starts, short, omega (arith, size, inside)))
  | inr ((before, from), e) ↦ rw (e, IsGood) (behind_gap think_end text before from (omega arith) e)
]

plain-IsGood : (text : Bytes) → IsGood false text (plain text)
unfolding plain IsGood
plain-IsGood text =
    let (starts, short, size, inside) = kept_tail text think_start (omega arith) in
    (
      starts,
      short,
      omega (
        arith,
        size,
        inside,
        length-front_le (length text - longest_suffix_prefix text think_start) text,
      ),
    )

opened-IsGood :
    (text before from : Bytes)
    → find think_start text ≡ some (before, from)
    → IsGood false text (opened before from (find think_end text))
unfolding opened IsGood
opened-IsGood text before from e = elim (Option-cases (find think_end text)) [
  | inl none_found ↦
      rw (none_found, IsGood) (behind_tag think_start text before from (omega arith) e)
  | inr ((before_end, from_end), found) ↦
      rw (found, IsGood)
        (elim (Bool-cases (ltb (length before_end) (length before))) [
          | inl first ↦
              rw (first, IsGood) (behind_gap think_end text before_end from_end (omega arith) found)
          | inr later ↦ rw (later, IsGood) (behind_tag think_start text before from (omega arith) e)
        ])
]

stray-IsGood : (text : Bytes) → IsGood false text (stray text (find think_end text))
unfolding stray IsGood
stray-IsGood text = elim (Option-cases (find think_end text)) [
  | inl none_found ↦ rw (none_found, IsGood) (plain-IsGood text)
  | inr ((before, from), found) ↦
      rw (found, IsGood) (behind_gap think_end text before from (omega arith) found)
]

step-IsGood : (b : Bool) (text : Bytes) → IsGood b text (step b text)
unfolding step outside IsGood
step-IsGood true text = in_block-IsGood text
step-IsGood false text = elim (Option-cases (find think_start text)) [
  | inl none_found ↦ rw (none_found, IsGood) (stray-IsGood text)
  | inr ((before, from), found) ↦ rw (found, IsGood) (opened-IsGood text before from found)
]

-- The result of the loop: an output and a tail, together no longer than the text, the tail a proper
-- prefix of the tag that is waited for.
unfoldable pub IsStripped : ℕ → Option (Bytes × Stripper) → Type 0
IsStripped n none = ¬ Unit
IsStripped n (some (output, s)) =
    (starts_with s.pending (tag s.in_think) ≡ true)
    × (length s.pending < length (tag s.in_think))
    × (length output + length s.pending ≤ n)

behind-IsStripped :
    (output : Bytes) (n m : ℕ) (r : Option (Bytes × Stripper))
    → length output + m ≤ n
    → IsStripped m r
    → IsStripped n (behind output r)
unfolding IsStripped
behind-IsStripped output n m none h r = r
behind-IsStripped output n m (some (out, s)) h (starts, short, size) =
    (starts, short, omega (arith, length-append output out, h, size))

go_on-IsStripped :
    (b : Bool) (text : Bytes) (next : Bool → Bytes → Option (Bytes × Stripper)) (s : Step)
    → ((now : Bool) (rest : Bytes)
        → length rest < length text
        → IsStripped (length rest) (next now rest))
    → IsGood b text s
    → IsStripped (length text) (go_on b next s)
unfolding IsGood IsStripped
go_on-IsStripped b text next (ends output pending) ih good = good
go_on-IsStripped b text next (again output now rest) ih good =
    behind-IsStripped output (length text) (length rest) (next now rest) (omega (arith, good))
      (ih now rest (omega (arith, good)))

strip_loop-IsStripped :
    (fuel : ℕ) (b : Bool) (text : Bytes)
    → length text ≤ fuel
    → IsStripped (length text) (strip_loop fuel b text)
unfolding strip_loop IsStripped starts_with
strip_loop-IsStripped fuel true [] h = (refl, omega arith, omega arith)
strip_loop-IsStripped fuel false [] h = (refl, omega arith, omega arith)
strip_loop-IsStripped zero b (c ∷ text) h = absurd (omega (arith, h))
strip_loop-IsStripped (suc fuel) b (c ∷ text) h =
    go_on-IsStripped b (c ∷ text) (strip_loop fuel) (step b (c ∷ text))
      (λ now rest shorter. strip_loop-IsStripped fuel now rest (omega (arith, shorter, h)))
      (step-IsGood b (c ∷ text))

result-IsStripped :
    (n : ℕ) (r : Option (Bytes × Stripper))
    → IsStripped n r
    → (output : Bytes) × (s : Stripper) × (r ≡ some (output, s)) × IsStripped n (some (output, s))
unfolding IsStripped
result-IsStripped n none h = absurd (h tt)
result-IsStripped n (some (output, s)) h = (output, s, refl, h)

-- Stripping a delta ends, for every delta and every state: it gives an output and a state whose
-- pending text is a proper prefix of the tag that is waited for, so at most seven code points, and the
-- output with what is kept is no longer than the delta with what was kept before.
pub strip_delta-bounded :
    (value : Bytes) (s : Stripper)
    → (output : Bytes) × (s' : Stripper) × (strip_delta value s ≡ some (output, s'))
      × (starts_with s'.pending (tag s'.in_think) ≡ true)
      × (length s'.pending < length (tag s'.in_think))
      × (length output + length s'.pending ≤ length s.pending + length value)
unfolding strip_delta IsStripped
strip_delta-bounded value s =
    let text = s.pending ++ value in
    let (output, s', e, (starts, short, size)) =
      result-IsStripped (length text) (strip_loop (length text) s.in_think text)
        (strip_loop-IsStripped (length text) s.in_think text (omega arith)) in
    (output, s', e, starts, short, omega (arith, size, length-append s.pending value))
