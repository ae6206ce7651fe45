-- ===== src/Mutations/Laws/Rollback.antt =====
-- The rollback: the mutations that were applied one after the other are undone in the other order.
use mathlib.Core.Path.{subst}
use reverso_llm.Prelude.{
  false, List, [], ◌∷◌, ◌≡◌, ◌≢◌, refl, sym, ap, ◌∙◌, inl, inr, ◌⊎◌, All, length, arith,
}
use reverso_llm.Mutations.{
  absent, directory, FileState, state_discrete, Location, location_discrete, Disk, Raised,
}
use reverso_llm.Mutations.Leaf.{Applied, applied, raises, apply_state}
use reverso_llm.Mutations.Group.{PreparedMutation, roll_back}
use reverso_llm.Mutations.Laws.{
  Modes, recreated, SameBut, Same, IsEmptied, IsLawful, IsBelow, IsBelow-lt,
}
use reverso_llm.Mutations.Laws.Outcomes.{AppliedPost, IsRaised}
use reverso_llm.Mutations.Laws.Application.{apply_state-Post, apply_state-IsRaised}

pub Applied-cases :
    {W : Type 0} (r : Applied W)
    → ((v : W) × (r ≡ applied v)) ⊎ ((e : Raised) × (v : W) × (r ≡ raises e v))
Applied-cases (applied v) = inl (v, refl)
Applied-cases (raises e v) = inr (e, v, refl)

module _ (D : Disk) (M : Modes) (L : IsLawful D M) where
  -- A mutation of a path that is not scratch, between states that a creation leaves as they are
  -- captured, which takes no directory away.
  pub record IsSound (m : PreparedMutation) : Type 0 where
    pub clean : L.scratch m.path ≡ false
    pub before_kept : recreated D M m.before ≡ m.before
    pub after_kept : recreated D M m.after ≡ m.after
    pub directory_kept : m.before.kind ≡ directory → m.after.kind ≡ directory

  -- The mutations were applied one after the other, the last in front.
  abbrev pub Trail : D.World → List PreparedMutation → D.World → Type 0
  Trail w [] v = Same D M L.entry L.scratch w v
  Trail w (m ∷ ms) v =
      (u : D.World) × Trail w ms u
      × (L.entry m.path u ≡ m.before)
      × SameBut D M L.entry L.scratch m.path u v

  -- The disk that is rolled back may differ at paths where it holds nothing.
  module _ (Lost : Location → Type 0) (is_lost : (q : Location) → Dec (Lost q)) where
    abbrev pub Near : D.World → D.World → Type 0
    Near w v = (q : Location) → L.scratch q ≡ false → ¬ Lost q → L.entry q v ≡ L.entry q w

    abbrev pub Missing : D.World → Type 0
    Missing v = (q : Location) → L.scratch q ≡ false → Lost q → (L.entry q v).kind ≡ absent

    abbrev pub RolledPost : D.World → D.World → Applied D.World → Type 0
    RolledPost w v (applied u) =
        Near w u × ((q : Location) → L.scratch q ≡ false → Lost q → L.entry q u ≡ L.entry q v)
    RolledPost w v (raises e u) = Unit

    -- What lies below a directory that was made is gone before the directory goes.
    emptied :
        (m : PreparedMutation) (u v' v : D.World)
        → L.entry m.path u ≡ m.before
        → m.before.kind ≢ directory
        → SameBut D M L.entry L.scratch m.path u v'
        → Near v' v
        → Missing v
        → IsEmptied D M L.entry L.scratch m.path v
    emptied m u v' v was n same near missing q c below = elim (is_lost q) [
      | yes lost ↦ missing q c lost
      | no kept ↦
          ap {A = FileState} (λ x. x.kind)
            (near q c kept ∙ same q c (λ e. shorter m.path q below (sym e)))
          ∙ L.tree_law m.path q u (λ x. n (ap {A = FileState} (λ s. s.kind) (sym was) ∙ x)) below
    ]
      where
        shorter : (d p : Location) → IsBelow d p → d ≢ p
        shorter d p b e = absurd (omega (arith, IsBelow-lt d p b, ap length e))

    -- What undoing one mutation leaves.
    abbrev UndonePost : PreparedMutation → D.World → Applied D.World → Type 0
    UndonePost m v (applied v1) =
        SameBut D M L.entry L.scratch m.path v v1 × (L.entry m.path v1 ≡ m.before)
    UndonePost m v (raises e v1) = Unit

    of_raised :
        (m : PreparedMutation) (v : D.World) (r : Applied D.World) → IsRaised r → UndonePost m v r
    of_raised m v (applied v1) h = absurd h
    of_raised m v (raises e v1) h = tt

    of_applied :
        (m : PreparedMutation) (v : D.World) (r : Applied D.World)
        → AppliedPost D M L m.path m.after m.before v r
        → UndonePost m v r
    of_applied m v (applied v1) (same, _, put) = (same, put)
    of_applied m v (raises e v1) h = tt

    undone :
        (m : PreparedMutation) (s : IsSound m) (u v' v : D.World)
        → L.entry m.path u ≡ m.before
        → SameBut D M L.entry L.scratch m.path u v'
        → Near v' v
        → Missing v
        → UndonePost m v (apply_state D m.path m.after m.before v)
    undone m s u v' v was same near missing = elim (state_discrete (L.entry m.path v) m.after) [
      | no n ↦
          of_raised m v (apply_state D m.path m.after m.before v)
            (apply_state-IsRaised D M L m.path m.after m.before v n)
      | yes e ↦ of_applied m v (apply_state D m.path m.after m.before v) (
          apply_state-Post D M L m.path s.clean m.after m.before v e s.before_kept
            (λ _ n. emptied m u v' v was n same near missing))
    ]

    rolled_on :
        (w v v1 : D.World) (r : Applied D.World)
        → ((q : Location) → L.scratch q ≡ false → Lost q → L.entry q v1 ≡ L.entry q v)
        → RolledPost w v1 r
        → RolledPost w v r
    rolled_on w v v1 (applied u) kept (near, lost) = (near, λ q c k. lost q c k ∙ kept q c k)
    rolled_on w v v1 (raises e u) kept h = tt

    pub roll_back-Post :
        (w : D.World) (ms : List PreparedMutation) (v' v : D.World)
        → Trail w ms v'
        → All IsSound ms
        → All (λ m. ¬ Lost m.path) ms
        → Near v' v
        → Missing v
        → RolledPost w v (roll_back D ms v)
    unfolding roll_back
    roll_back-Post w [] v' v same sound off near missing =
        (λ q c l. near q c l ∙ same q c, λ q _ _. refl)
    roll_back-Post w (m ∷ ms) v' v (u, trail, was, same) (s, sound) (l, off) near missing =
        elim (Applied-cases (apply_state D m.path m.after m.before v)) [
          | inr (e, x, r) ↦ rw (r, RolledPost) tt
          | inl (v1, r) ↦
              let (close, put) = rw (r, UndonePost) at (undone m s u v' v was same near missing) in
              let back : Near u v1 = λ q c k. elim (location_discrete q m.path) [
                | yes e ↦ ap (λ x. L.entry x v1) e ∙ put ∙ sym was ∙ ap (λ x. L.entry x u) (sym e)
                | no n ↦ close q c n ∙ near q c k ∙ same q c n
              ] in
              let gone : Missing v1 = λ q c k.
                ap {A = FileState} (λ x. x.kind) (close q c (λ e. l (subst Lost e k)))
                ∙ missing q c k in
              rw (r, RolledPost)
                (rolled_on w v v1 (roll_back D ms v1) (λ q c k. close q c (λ e. l (subst Lost e k)))
                  (roll_back-Post w ms u v1 trail sound off back gone))
        ]
