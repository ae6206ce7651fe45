-- ===== src/Mutations/Laws/Groups.antt =====
-- A group of mutations as one transaction.
use mathlib.Core.Path.{subst}
use reverso_llm.Prelude.{
  ℕ, suc, false, Option, List, [], ◌∷◌, ◌≡◌, ◌≢◌, refl, sym, ap, ◌∙◌, inl, inr, Dec-cases,
  Option-cases, All,
}
use reverso_llm.Mutations.{
  FileState, state_discrete, Location, location_discrete, Disk, Fault, os_error,
}
use reverso_llm.Mutations.Leaf.{apply_state}
use reverso_llm.Mutations.Group.{
  PreparedMutation, transition_guard, changed, Progress, completed, broken, apply_all,
}
use reverso_llm.Mutations.Laws.{Modes, SameBut, IsLawful}
use reverso_llm.Mutations.Laws.Outcomes.{AppliedPost}
use reverso_llm.Mutations.Laws.Application.{apply_state-Post}
use reverso_llm.Mutations.Laws.Rollback.{Applied-cases, IsSound, Trail}
use reverso_llm.Mutations.Laws.Recovery.{Apart, IsDistinct, BrokenPost}

-- What a path holds after the group: its mutation's candidate, and else what it held.
unfoldable pub wanted : List PreparedMutation → Location → FileState → FileState
wanted [] q old = old
wanted (m ∷ ms) q old =
    let rest = wanted ms q old in
    elim (location_discrete m.path q) [ yes _ ↦ m.after | no _ ↦ rest ]

wanted-Apart :
    (ms : List PreparedMutation) (m : PreparedMutation) (old : FileState)
    → Apart m ms
    → wanted ms m.path old ≡ old
unfolding wanted
wanted-Apart [] m old off = refl
wanted-Apart (m' ∷ ms) m old (n, off) = elim (Dec-cases (location_discrete m'.path m.path)) [
  | inl (e, d) ↦ absurd (n e)
  | inr (_, d) ↦ rw (d, wanted) (wanted-Apart ms m old off)
]

module _ (P : PreparedMutation → Type 0) where
  pub All-changed : (ms : List PreparedMutation) → All P ms → All P (changed ms)
  unfolding changed
  All-changed [] h = tt
  All-changed (m ∷ ms) (p, h) = elim (Dec-cases (state_discrete m.before m.after)) [
    | inl (_, d) ↦ rw (d, All) (All-changed ms h)
    | inr (_, d) ↦ rw (d, All) (p, All-changed ms h)
  ]

pub IsDistinct-changed : (ms : List PreparedMutation) → IsDistinct ms → IsDistinct (changed ms)
unfolding changed
IsDistinct-changed [] h = tt
IsDistinct-changed (m ∷ ms) (off, h) = elim (Dec-cases (state_discrete m.before m.after)) [
  | inl (_, d) ↦ rw (d, IsDistinct) (IsDistinct-changed ms h)
  | inr (_, d) ↦
      rw (d, IsDistinct) (All-changed (λ m'. m'.path ≢ m.path) ms off, IsDistinct-changed ms h)
]

module _ (D : Disk) (M : Modes) (L : IsLawful D M) where
  abbrev pub HoldsBefore : D.World → PreparedMutation → Type 0
  HoldsBefore w m = L.entry m.path w ≡ m.before

  pub wanted-changed :
      (ms : List PreparedMutation) (w : D.World) (q : Location)
      → All (HoldsBefore w) ms
      → IsDistinct ms
      → wanted (changed ms) q (L.entry q w) ≡ wanted ms q (L.entry q w)
  unfolding wanted changed
  wanted-changed [] w q h off = refl
  wanted-changed (m ∷ ms) w q (b, h) (n, off) = elim (Dec-cases (state_discrete m.before m.after)) [
    | inl (e, d) ↦ elim (Dec-cases (location_discrete m.path q)) [
      | inr (_, l) ↦ rw (d, l, wanted) (wanted-changed ms w q h off)
      | inl (p, l) ↦
          rw (d, l, wanted)
            (wanted-changed ms w q h off
              ∙ subst (λ x. wanted ms x (L.entry x w) ≡ L.entry x w) p
                  (wanted-Apart ms m (L.entry m.path w) n)
              ∙ ap (λ x. L.entry x w) (sym p)
              ∙ b
              ∙ e)
    ]
    | inr (_, d) ↦ elim (Dec-cases (location_discrete m.path q)) [
      | inl (_, l) ↦ rw (d, l, wanted) refl
      | inr (_, l) ↦ rw (d, l, wanted) (wanted-changed ms w q h off)
    ]
  ]

  -- How the loop ends: every candidate is in place, or it was broken.
  abbrev pub ProgressPost : D.World → List PreparedMutation → D.World → Progress D.World → Type 0
  ProgressPost w ms v (completed u) =
      (q : Location) → L.scratch q ≡ false → L.entry q u ≡ wanted ms q (L.entry q v)
  ProgressPost w ms v (broken e touched u) = BrokenPost D M L w e touched u

  here :
      (m : PreparedMutation) (s : IsSound D M L m) (v : D.World)
      → HoldsBefore v m
      → AppliedPost D M L m.path m.before m.after v (apply_state D m.path m.before m.after v)
  here m s v b =
      apply_state-Post D M L m.path s.clean m.before m.after v b s.after_kept
        (λ d n. absurd (n (s.directory_kept d)))

  progress_on :
      (w : D.World) (m : PreparedMutation) (ms : List PreparedMutation) (v u : D.World)
      → SameBut D M L.entry L.scratch m.path v u
      → L.entry m.path u ≡ m.after
      → IsSound D M L m
      → Apart m ms
      → (r : Progress D.World) → ProgressPost w ms u r
      → ProgressPost w (m ∷ ms) v r
  unfolding wanted
  progress_on w m ms v u same made s n (broken e touched x) h = h
  progress_on w m ms v u same made s n (completed x) h = λ q c.
      elim (Dec-cases (location_discrete m.path q)) [
        | inr (off, d) ↦ rw (d, wanted) (h q c ∙ ap (wanted ms q) (same q c (λ e. off (sym e))))
        | inl (e, d) ↦
            rw (d, wanted)
              (h q c
                ∙ subst (λ y. wanted ms y (L.entry y u) ≡ L.entry y u) e
                    (wanted-Apart ms m (L.entry m.path u) n)
                ∙ ap (λ y. L.entry y u) (sym e)
                ∙ made)
      ]

  abbrev Untouched : List PreparedMutation → List PreparedMutation → Type 0
  Untouched touched = All (λ m. Apart m touched)

  Untouched-cons :
      (m : PreparedMutation) (touched ms : List PreparedMutation)
      → Apart m ms
      → Untouched touched ms
      → Untouched (m ∷ touched) ms
  Untouched-cons m touched [] n off = tt
  Untouched-cons m touched (m' ∷ ms) (e, n) (o, off) =
      ((λ x. e (sym x), o), Untouched-cons m touched ms n off)

  HoldsBefore-on :
      (m : PreparedMutation) (v u : D.World) (ms : List PreparedMutation)
      → SameBut D M L.entry L.scratch m.path v u
      → Apart m ms
      → All (IsSound D M L) ms
      → All (HoldsBefore v) ms
      → All (HoldsBefore u) ms
  HoldsBefore-on m v u [] same n sound h = tt
  HoldsBefore-on m v u (m' ∷ ms) same (e, n) (s, sound) (b, h) =
      (same m'.path s.clean e ∙ b, HoldsBefore-on m v u ms same n sound h)

  module _ (observer : PreparedMutation → ℕ → Option Fault) (w : D.World) where
    stopped :
        (e : Fault) (touched : List PreparedMutation) (v : D.World)
        → Trail D M L w touched v
        → All (IsSound D M L) touched
        → IsDistinct touched
        → BrokenPost D M L w (os_error e) touched v
    unfolding transition_guard
    stopped e [] v same sound off = (same, refl)
    stopped e (m ∷ ms) v (u, trail, was, same) (s, sound) (n, off) =
        (s, sound, n, (u, trail, was, same, tt))

    pub apply_all-Post :
        (i : ℕ) (touched ms : List PreparedMutation) (v : D.World)
        → Trail D M L w touched v
        → All (IsSound D M L) touched
        → IsDistinct touched
        → All (IsSound D M L) ms
        → IsDistinct ms
        → Untouched touched ms
        → All (HoldsBefore v) ms
        → ProgressPost w ms v (apply_all D observer i touched ms v)
    unfolding apply_all wanted
    apply_all-Post i touched [] v trail ts td sound dist off before = λ q c. refl
    apply_all-Post i touched (m ∷ ms) v trail ts td (s, sound) (n, dist) (o, off) (b, before) =
        elim (Option-cases (observer m i)) [
          | inr (e, x) ↦ rw (x, ProgressPost) (stopped e touched v trail ts td)
          | inl x ↦ elim (Applied-cases (apply_state D m.path m.before m.after v)) [
            | inr (e, u, r) ↦
                let (same, told) = rw (r, AppliedPost) at (here m s v b) in
                rw (x, r, ProgressPost) (s, ts, o, (v, trail, b, same, told))
            | inl (u, r) ↦
                let (same, _, made) = rw (r, AppliedPost) at (here m s v b) in
                rw (x, r, ProgressPost)
                  (progress_on w m ms v u same made s n
                    (apply_all D observer (suc i) (m ∷ touched) ms u)
                    (apply_all-Post (suc i) (m ∷ touched) ms u (v, trail, b, same) (s, ts) (o, td)
                      sound dist (Untouched-cons m touched ms n off)
                      (HoldsBefore-on m v u ms same n sound before)))
          ]
        ]
