-- ===== src/Mutations/Laws/Atomic.antt =====
-- `apply_prepared_group` as one transaction: all of its candidates, or what there was.
use reverso_llm.Prelude.{
  ℕ, false, Option, none, List, [], ◌∷◌, ◌≡◌, ◌≢◌, refl, sym, ◌∙◌, inl, inr, Dec-cases,
  Option-cases, Bool-cases, All, arith,
}
use reverso_llm.Mutations.{
  FileState, state_discrete, Location, location_discrete, Disk, Fault, Captured, holds, unread,
  capture_at, capture_state,
}
use reverso_llm.Mutations.Group.{
  PreparedMutation, changed, is_seen, Outcome, finished, refused, apply_failed, rollback_failed,
  escaped, Progress, completed, broken, check_before, check_mutation, validate,
  validate_prepared_group, apply_all, ended, recover, apply_prepared_group,
}
use reverso_llm.Mutations.Laws.{Modes, CapturedPost, Same, IsLawful, capture_at-Post}
use reverso_llm.Mutations.Laws.Rollback.{IsSound}
use reverso_llm.Mutations.Laws.Recovery.{Apart, IsDistinct, RestoredPost, recover-Post}
use reverso_llm.Mutations.Laws.Groups.{
  wanted, All-changed, IsDistinct-changed, HoldsBefore, wanted-changed, ProgressPost,
  apply_all-Post,
}

abbrev Unseen : Location → List Location → Type 0
Unseen p = All (λ x. x ≢ p)

is_seen-Unseen : (p : Location) (seen : List Location) → is_seen p seen ≡ false → Unseen p seen
unfolding is_seen
is_seen-Unseen p [] h = tt
is_seen-Unseen p (x ∷ seen) h = elim (Dec-cases (location_discrete x p)) [
  | inl (_, d) ↦ absurd (ground (arith, rw (d, is_seen) at h))
  | inr (n, d) ↦ (n, is_seen-Unseen p seen (rw (d, is_seen) at h))
]

Apart-of :
    (p : PreparedMutation) (seen : List Location) (ms : List PreparedMutation)
    → All (λ m. Unseen m.path (p.path ∷ seen)) ms
    → Apart p ms × All (λ m. Unseen m.path seen) ms
Apart-of p seen [] h = (tt, tt)
Apart-of p seen (m ∷ ms) ((n, u), h) =
    let (off, rest) = Apart-of p seen ms h in ((λ e. n (sym e), off), (u, rest))

module _ (D : Disk) (M : Modes) (L : IsLawful D M) where
  check_before-holds :
      (before : FileState) (p : Location) (w : D.World) (c : Captured)
      → CapturedPost D M L.entry p w c
      → check_before D before c ≡ none
      → L.entry p w ≡ before
  unfolding check_before
  check_before-holds before p w (unread e) h n = absurd (ground (arith, n))
  check_before-holds before p w (holds c) h n = elim (Dec-cases (state_discrete c before)) [
    | inl (e, _) ↦ h ∙ e
    | inr (_, d) ↦ absurd (ground (arith, rw (d, check_before) at n))
  ]

  check_mutation-holds :
      (all : List PreparedMutation) (seen : List Location) (m : PreparedMutation) (w : D.World)
      → check_mutation D all seen m w ≡ none
      → HoldsBefore D M L w m × Unseen m.path seen
  unfolding check_mutation capture_state
  check_mutation-holds all seen m w h = elim (Bool-cases (is_seen m.path seen)) [
    | inl s ↦ absurd (ground (arith, rw (s, check_mutation) at h))
    | inr s ↦ elim (Option-cases (check_before D m.before (capture_at D m.path w))) [
      | inr (e, c) ↦ absurd (ground (arith, rw (s, c, check_mutation) at h))
      | inl c ↦ (
        check_before-holds m.before m.path w (capture_at D m.path w)
            (capture_at-Post D M L m.path w) c,
        is_seen-Unseen m.path seen s,
      )
    ]
  ]

  validate-holds :
      (all : List PreparedMutation) (seen : List Location) (ms : List PreparedMutation)
      (w : D.World)
      → validate D all seen ms w ≡ none
      → All (HoldsBefore D M L w) ms × IsDistinct ms × All (λ m. Unseen m.path seen) ms
  unfolding validate
  validate-holds all seen [] w h = (tt, tt, tt)
  validate-holds all seen (m ∷ ms) w h = elim (Option-cases (check_mutation D all seen m w)) [
    | inr (e, c) ↦ absurd (ground (arith, rw (c, validate) at h))
    | inl c ↦
        let (before, unseen) = check_mutation-holds all seen m w c in
        let (rest, distinct, off) =
          validate-holds all (m.path ∷ seen) ms w (rw (c, validate) at h) in
        let (apart, others) = Apart-of m seen ms off in
        ((before, rest), (apart, distinct), (unseen, others))
  ]

  -- What the group leaves on the disk, by how it ends.
  abbrev pub GroupPost : D.World → List PreparedMutation → Outcome D.World → Type 0
  GroupPost w ms (finished v) =
      (q : Location) → L.scratch q ≡ false → L.entry q v ≡ wanted ms q (L.entry q w)
  GroupPost w ms (refused e v) = v ≡ w
  GroupPost w ms (apply_failed v) = Same D M L.entry L.scratch w v
  GroupPost w ms (rollback_failed v) = Unit
  GroupPost w ms (escaped e v) = Unit

  of_restored :
      (w : D.World) (ms : List PreparedMutation) (o : Outcome D.World)
      → RestoredPost D M L w o
      → GroupPost w ms o
  of_restored w ms (apply_failed v) h = h
  of_restored w ms (finished v) h = absurd h
  of_restored w ms (refused e v) h = absurd h
  of_restored w ms (rollback_failed v) h = tt
  of_restored w ms (escaped e v) h = tt

  ended-Post :
      (w : D.World) (ms : List PreparedMutation)
      → All (HoldsBefore D M L w) ms
      → IsDistinct ms
      → (r : Progress D.World) → ProgressPost D M L w (changed ms) w r
      → GroupPost w ms (ended D r)
  unfolding ended
  ended-Post w ms before dist (completed v) h =
      λ q c. h q c ∙ wanted-changed D M L ms w q before dist
  ended-Post w ms before dist (broken e touched v) h =
      of_restored w ms (recover D e touched v) (recover-Post D M L w e touched v h)

  nothing_touched : (ms : List PreparedMutation) → All {A = PreparedMutation} (λ m. Apart m []) ms
  nothing_touched [] = tt
  nothing_touched (m ∷ ms) = (tt, nothing_touched ms)

  -- A group of sound mutations that finishes leaves each of its paths with its candidate and every
  -- other path as it was. A group that is refused leaves the disk as it is, and one whose failure is
  -- told as restored leaves every path as it was, whichever call failed. Scratch paths are left out.
  pub apply_prepared_group-GroupPost :
      (observer : PreparedMutation → ℕ → Option Fault) (ms : List PreparedMutation) (w : D.World)
      → All (IsSound D M L) ms
      → GroupPost w ms (apply_prepared_group D observer ms w)
  unfolding apply_prepared_group validate_prepared_group
  apply_prepared_group-GroupPost observer ms w sound = elim (Option-cases (validate D ms [] ms w)) [
    | inr (e, v) ↦ rw (v, GroupPost) refl
    | inl v ↦
        let (before, distinct, _) = validate-holds ms [] ms w v in
        rw (v, GroupPost)
          (ended-Post w ms before distinct (apply_all D observer 0 [] (changed ms) w) (
            apply_all-Post D M L observer w 0 [] (changed ms) w (λ _ _. refl) tt tt
              (All-changed (IsSound D M L) ms sound) (IsDistinct-changed ms distinct)
              (nothing_touched (changed ms)) (All-changed (HoldsBefore D M L w) ms before)))
  ]
