-- ===== src/Mutations/Laws/Recovery.antt =====
-- The handler of a failed group: what it leaves after the loop was broken.
use mathlib.Core.Path.{subst}
use reverso_llm.Prelude.{
  Bool, true, false, none, some, List, [], ◌∷◌, ◌≡◌, ◌≢◌, refl, sym, ap, ◌∙◌, ◌⊎◌, inl, inr,
  Dec-cases, All,
}
use reverso_llm.Mutations.{
  absent, FileState, state_discrete, location_discrete, Disk, TransitionGuard, Raised, os_error,
  runtime_error, state_changed, guard_apply_failed, guard_cleanup_failed, Captured, holds, unread,
  capture_at, capture_state,
}
use reverso_llm.Mutations.Leaf.{Applied, applied, raises, settle_transition_guard}
use reverso_llm.Mutations.Group.{
  PreparedMutation, Outcome, finished, refused, apply_failed, rollback_failed, escaped,
  is_untouched, roll_back, transition_guard, settled, settle, recover_from, recover,
}
use reverso_llm.Mutations.Laws.{Modes, CapturedPost, SameBut, Same, IsLawful, capture_at-Post}
use reverso_llm.Mutations.Laws.Outcomes.{IsGuard, RaisedPost}
use reverso_llm.Mutations.Laws.Settling.{SettledPost, settle_transition_guard-Post}
use reverso_llm.Mutations.Laws.Rollback.{IsSound, Trail, RolledPost, roll_back-Post}

abbrev pub Apart : PreparedMutation → List PreparedMutation → Type 0
Apart m = All (λ m'. m'.path ≢ m.path)

abbrev pub IsDistinct : List PreparedMutation → Type 0
IsDistinct [] = Unit
IsDistinct (m ∷ ms) = Apart m ms × IsDistinct ms

none_lost : (ms : List PreparedMutation) → All {A = PreparedMutation} (λ m. ¬ ⊥) ms
none_lost [] = tt
none_lost (m ∷ ms) = (λ x. x, none_lost ms)

-- `current == failed.before`
abbrev Bool_of : {A : Type 0} → Dec A → Bool
Bool_of (yes _) = true
Bool_of (no _) = false

module _ (D : Disk) (M : Modes) (L : IsLawful D M) (w : D.World) where
  -- How the loop was broken: at its last mutation, behind the ones that were applied.
  abbrev pub BrokenPost : Raised → List PreparedMutation → D.World → Type 0
  BrokenPost e [] v = Same D M L.entry L.scratch w v × (transition_guard e ≡ none)
  BrokenPost e (m ∷ ms) v =
      IsSound D M L m
      × All (IsSound D M L) ms
      × Apart m ms
      × ((u : D.World) × Trail D M L w ms u
          × (L.entry m.path u ≡ m.before)
          × SameBut D M L.entry L.scratch m.path u v
          × RaisedPost D M L m.path m.before m.after e v)

  -- A failure that is told as restored is restored.
  abbrev pub RestoredPost : Outcome D.World → Type 0
  RestoredPost (apply_failed v) = Same D M L.entry L.scratch w v
  RestoredPost (finished v) = ⊥
  RestoredPost (refused e v) = ⊥
  RestoredPost (rollback_failed v) = Unit
  RestoredPost (escaped e v) = Unit

  -- A path that no mutation names stays.
  pub Trail-keeps :
      (ms : List PreparedMutation) (m : PreparedMutation) (u : D.World)
      → Trail D M L w ms u
      → L.scratch m.path ≡ false
      → Apart m ms
      → L.entry m.path u ≡ L.entry m.path w
  Trail-keeps [] m u same clean off = same m.path clean
  Trail-keeps (m' ∷ ms) m u (v, trail, _, same) clean (n, off) =
      same m.path clean (λ e. n (sym e)) ∙ Trail-keeps ms m v trail clean off

  module _ (m : PreparedMutation) (ms : List PreparedMutation) (s : IsSound D M L m)
      (sound : All (IsSound D M L) ms) (off : Apart m ms) (u : D.World) (trail : Trail D M L w ms u)
      (was : L.entry m.path u ≡ m.before) where
    at_first : L.entry m.path w ≡ m.before
    at_first = sym (Trail-keeps ms m u trail s.clean off) ∙ was

    module _ (g : TransitionGuard) (is : IsGuard D M L m.path m.before g) where
      settled-Post :
          (v : D.World) (r : Applied D.World)
          → SameBut D M L.entry L.scratch m.path w v
          → SettledPost D M L m.path s.clean m.before s.before_kept g is v r
          → RestoredPost (settled D r)
      unfolding settled
      settled-Post v (raises e x) near h = tt
      settled-Post v (applied x) near (same, put) = λ q c. elim (location_discrete q m.path) [
        | yes e ↦ subst (λ y. L.entry y x ≡ L.entry y w) (sym e) (put ∙ sym at_first)
        | no n ↦ same q c n ∙ near q c n
      ]

      -- The guard's target is lost or restored.
      settle-Post :
          (v : D.World)
          → SameBut D M L.entry L.scratch m.path w v
          → (L.entry m.path v ≡ m.before) ⊎ ((L.entry m.path v).kind ≡ absent)
          → RestoredPost (settle D (some g) (applied v))
      unfolding settle
      settle-Post v near there =
          settled-Post v (settle_transition_guard D g v) near
            (settle_transition_guard-Post D M L m.path s.clean m.before s.before_kept g is v there)

    module _ (v : D.World) where
      abbrev AllRolled : Applied D.World → Type 0
      AllRolled = RolledPost D M L (λ _. ⊥) (λ _. no (λ x. x)) w v

      unguarded : (r : Applied D.World) → AllRolled r → RestoredPost (settle D none r)
      unfolding settle
      unguarded (raises e x) h = tt
      unguarded (applied x) (near, _) = λ q c. near q c (λ b. b)

      guarded_back :
          (g : TransitionGuard)
          → IsGuard D M L m.path m.before g
          → (r : Applied D.World) → AllRolled r
          → RestoredPost (settle D (some g) r)
      unfolding settle
      guarded_back g is (raises e x) h = tt
      guarded_back g is (applied x) (near, _) =
          settle-Post g is x (λ q c _. near q c (λ b. b))
            (inl (near m.path s.clean (λ b. b) ∙ at_first))

      missing_back :
          (g : TransitionGuard)
          → IsGuard D M L m.path m.before g
          → (L.entry m.path v).kind ≡ absent
          → (r : Applied D.World)
          → RolledPost D M L (λ q. q ≡ m.path) (λ q. location_discrete q m.path) w v r
          → RestoredPost (settle D (some g) r)
      unfolding settle
      missing_back g is gone (raises e x) h = tt
      missing_back g is gone (applied x) (near, kept) =
          settle-Post g is x near
            (inr (ap {A = FileState} (λ y. y.kind) (kept m.path s.clean refl) ∙ gone))

      module _ (same : SameBut D M L.entry L.scratch m.path u v) where
        -- The last mutation is undone with the others.
        touched-AllRolled : AllRolled (roll_back D (m ∷ ms) v)
        touched-AllRolled =
            roll_back-Post D M L (λ _. ⊥) (λ _. no (λ x. x)) w (m ∷ ms) v v (u, trail, was, same)
              (s, sound) (none_lost (m ∷ ms)) (λ _ _ _. refl) (λ _ _ b. absurd b)

        -- The last mutation left its path as it was.
        untouched-AllRolled : L.entry m.path v ≡ m.before → AllRolled (roll_back D ms v)
        untouched-AllRolled there =
            roll_back-Post D M L (λ _. ⊥) (λ _. no (λ x. x)) w ms u v trail sound (none_lost ms)
              (λ q c _. elim (location_discrete q m.path) [
                | yes e ↦ subst (λ y. L.entry y v ≡ L.entry y u) (sym e) (there ∙ sym was)
                | no n ↦ same q c n
              ])
              (λ _ _ b. absurd b)

        -- The last mutation's path is empty, and its guard holds what was there.
        lost-Rolled :
            (L.entry m.path v).kind ≡ absent
            → RolledPost D M L
                (λ q. q ≡ m.path)
                (λ q. location_discrete q m.path)
                w
                v
                (roll_back D ms v)
        lost-Rolled gone =
            roll_back-Post D M L (λ q. q ≡ m.path) (λ q. location_discrete q m.path) w ms u v trail
              sound off (λ q c n. same q c n)
              (λ q _ e. subst (λ y. (L.entry y v).kind ≡ absent) (sym e) gone)

        -- By the exception and what the path holds now.
        by_state :
            (e : Raised) (c : FileState)
            → transition_guard e ≡ none
            → is_untouched e m c ≡ Bool_of (state_discrete c m.before)
            → L.entry m.path v ≡ c
            → RestoredPost (recover_from D e m ms (holds c) v)
        unfolding recover_from
        by_state e c plain rule h = elim (Dec-cases (state_discrete c m.before)) [
          | inl (q, d) ↦
              rw (rule, d, plain, RestoredPost)
                (unguarded (roll_back D ms v) (untouched-AllRolled (h ∙ q)))
          | inr (_, d) ↦
              rw (rule, d, plain, RestoredPost)
                (unguarded (roll_back D (m ∷ ms) v) touched-AllRolled)
        ]

        recover_from-Post :
            (e : Raised) (c : Captured)
            → RaisedPost D M L m.path m.before m.after e v
            → CapturedPost D M L.entry m.path v c
            → RestoredPost (recover_from D e m ms c v)
        unfolding recover_from is_untouched transition_guard
        recover_from-Post e (unread x) told h = tt
        recover_from-Post (os_error f) (holds c) told h = by_state (os_error f) c refl refl h
        recover_from-Post runtime_error (holds c) told h = by_state runtime_error c refl refl h
        recover_from-Post (state_changed true) (holds c) told h =
            by_state (state_changed true) c refl refl h
        recover_from-Post (state_changed false) (holds c) told h =
            unguarded (roll_back D ms v) (untouched-AllRolled told)
        recover_from-Post (guard_apply_failed g false) (holds c) (is, gone) h =
            missing_back g is gone (roll_back D ms v) (lost-Rolled gone)
        recover_from-Post (guard_apply_failed g true) (holds c) (is, made) h =
            elim (Dec-cases (state_discrete c m.after)) [
              | inl (_, d) ↦
                  rw (d, RestoredPost)
                    (guarded_back g is (roll_back D (m ∷ ms) v) touched-AllRolled)
              | inr (n, d) ↦ absurd (n (sym h ∙ made))
            ]
        recover_from-Post (guard_cleanup_failed g) (holds c) is h =
            elim (Dec-cases (state_discrete c m.before)) [
              | inl (q, d) ↦
                  rw (d, RestoredPost)
                    (guarded_back g is (roll_back D ms v) (untouched-AllRolled (h ∙ q)))
              | inr (_, d) ↦
                  rw (d, RestoredPost)
                    (guarded_back g is (roll_back D (m ∷ ms) v) touched-AllRolled)
            ]

  pub recover-Post :
      (e : Raised) (ms : List PreparedMutation) (v : D.World)
      → BrokenPost e ms v
      → RestoredPost (recover D e ms v)
  unfolding recover settle capture_state
  recover-Post e [] v (same, plain) = rw (plain, RestoredPost) same
  recover-Post e (m ∷ ms) v (s, sound, off, (u, trail, was, same, told)) =
      recover_from-Post m ms s sound off u trail was v same e (capture_at D m.path v) told
        (capture_at-Post D M L m.path v)
