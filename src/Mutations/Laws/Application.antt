-- ===== src/Mutations/Laws/Application.antt =====
-- What `apply_state` with an expected state leaves, whether it raises or not.
use reverso_llm.Prelude.{
  ℕ, true, false, Option, none, some, ◌≡◌, ◌≢◌, refl, sym, ap, ◌∙◌, arith, Dec-cases, Option-cases,
  inl, inr, [], ◌∷◌,
}
use reverso_llm.Mutations.{
  Kind, absent, file, directory, symlink, FileState, state_discrete, Location, exists, not_found,
  other, Answer, answer, fails, Ran, done, failed, Disk, TransitionGuard, Raised, mode_or, Captured,
  holds, unread, capture_at,
}
use reverso_llm.Mutations.Leaf.{
  sibling, Created, created, parent, create_state, remove_named_state, at_absent, read_back,
  put_back, check_mode, set_mode, change_mode, removed_guard, replaced, guarded, renamed,
  move_aside, transition, compared, apply_expected_state, open_chain, apply_state,
}
use reverso_llm.Mutations.Laws.{
  Others, fchmod, Modes, recreated, CallPost, CapturedPost, SameBut, IsEmptied, RenamePost,
  IsLawful, capture_at-Post,
}
use reverso_llm.Mutations.Laws.Creation.{CreatedPost, create_state-Post}
use reverso_llm.Mutations.Laws.Outcomes.{
  IsRaised, Answer-cases, IsGuard, RaisedPost, AppliedPost, plain-Raised, off_scratch, behind,
  remove_named_state-Others,
}

module _ (D : Disk) (M : Modes) (L : IsLawful D M) where
  module _ (p : Location) (clean : L.scratch p ≡ false) (before after : FileState) (w : D.World)
      (was : L.entry p w ≡ before) (wanted : recreated D M after ≡ after) where
    at_absent-Post :
        before.kind ≡ absent
        → (c : Created D.World) → CreatedPost D M L p after w c
        → AppliedPost D M L p before after w (at_absent D c)
    unfolding at_absent
    at_absent-Post free (created none _ v) (same, made) = (same, was, made ∙ wanted)
    at_absent-Post free (created (some exists) _ v) (same, early, late, taken) =
        absurd (taken refl (ap {A = FileState} (λ x. x.kind) was ∙ free))
    at_absent-Post free (created (some not_found) _ v) (same, _, _, _) = (same, tt)
    at_absent-Post free (created (some other) _ v) (same, _, _, _) = (same, tt)

    read_back-Post :
        (c : Captured) (v : D.World)
        → CapturedPost D M L.entry p v c
        → SameBut D M L.entry L.scratch p w v
        → AppliedPost D M L p before after w (read_back D before c v)
    unfolding read_back
    read_back-Post (unread e) v h same = (same, plain-Raised D M L p before after e v v h)
    read_back-Post (holds c) v h same = elim (Dec-cases (state_discrete c before)) [
      | inr (_, d) ↦ rw (d, AppliedPost) (same, tt)
      | inl (e, d) ↦ rw (d, AppliedPost) (same, h ∙ e)
    ]

    put_back-Post :
        (m : ℕ) (u : D.World) (r : Ran D.World)
        → CallPost D M L.entry (fchmod p m) u r
        → SameBut D M L.entry L.scratch p w u
        → AppliedPost D M L p before after w (put_back D p before r)
    unfolding put_back
    put_back-Post m u (failed e v) (others, _, _) same =
        (λ q c off. others q off ∙ same q c off, tt)
    put_back-Post m u (done v) (others, _) same =
        read_back-Post (capture_at D p v) v (capture_at-Post D M L p v)
          (λ q c off. others q off ∙ same q c off)

    check_mode-Post :
        (c : Captured) (v : D.World)
        → CapturedPost D M L.entry p v c
        → SameBut D M L.entry L.scratch p w v
        → AppliedPost D M L p before after w (check_mode D p before after c v)
    unfolding check_mode
    check_mode-Post (unread e) v h same = (same, plain-Raised D M L p before after e v v h)
    check_mode-Post (holds c) v h same = elim (Dec-cases (state_discrete c after)) [
      | inl (e, d) ↦ rw (d, AppliedPost) (same, was, h ∙ e)
      | inr (_, d) ↦
          rw (d, AppliedPost)
            (put_back-Post (mode_or 448 before.mode) v (D.fchmod p (mode_or 448 before.mode) v)
              (L.call_law (fchmod p (mode_or 448 before.mode)) v) same)
    ]

    set_mode-Post :
        (m : ℕ) (r : Ran D.World)
        → CallPost D M L.entry (fchmod p m) w r
        → AppliedPost D M L p before after w (set_mode D p before after r)
    unfolding set_mode
    set_mode-Post m (failed e v) (others, _, _) = (λ q _ off. others q off, tt)
    set_mode-Post m (done v) (others, _) =
        check_mode-Post (capture_at D p v) v (capture_at-Post D M L p v) (λ q _ off. others q off)

    change_mode-Post :
        (a : Answer (Unit {0}))
        → AppliedPost D M L p before after w (change_mode D p before after a w)
    unfolding change_mode
    change_mode-Post (fails e) = (λ _ _ _. refl, tt)
    change_mode-Post (answer _) =
        set_mode-Post (mode_or 448 after.mode) (D.fchmod p (mode_or 448 after.mode) w)
          (L.call_law (fchmod p (mode_or 448 after.mode)) w)

    removed_guard-Post :
        (g : TransitionGuard) (u : D.World) (r : Ran D.World)
        → IsGuard D M L p before g
        → Others D M L.entry g.path u (behind D M L r)
        → SameBut D M L.entry L.scratch p w u
        → L.entry p u ≡ after
        → AppliedPost D M L p before after w (removed_guard D g r)
    unfolding removed_guard
    removed_guard-Post g u (failed e v) is others same made =
        (λ q c off. others q (off_scratch D M L g.path q is.hidden c) ∙ same q c off, is)
    removed_guard-Post g u (done v) is others same made = (
      λ q c off. others q (off_scratch D M L g.path q is.hidden c) ∙ same q c off,
      was,
      others p (off_scratch D M L g.path p is.hidden clean) ∙ made,
    )

    replaced-Post :
        (g : TransitionGuard) (u : D.World) (c : Created D.World)
        → IsGuard D M L p before g
        → (L.entry p u).kind ≡ absent
        → SameBut D M L.entry L.scratch p w u
        → CreatedPost D M L p after u c
        → AppliedPost D M L p before after w (replaced D g c)
    unfolding replaced
    replaced-Post g u (created none _ v) is free same (near, made) =
        removed_guard-Post g v (remove_named_state D g.path g.state v) is
          (remove_named_state-Others D M L g.path g.state v)
          (λ q c off. near q c off ∙ same q c off) (made ∙ wanted)
    replaced-Post g u (created (some e) true v) is free same (near, early, late, _) =
        (λ q c off. near q c off ∙ same q c off, (is, late refl ∙ wanted))
    replaced-Post g u (created (some e) false v) is free same (near, early, late, _) = (
      λ q c off. near q c off ∙ same q c off,
      (is, ap {A = FileState} (λ x. x.kind) (early refl) ∙ free),
    )

    module _ (there : before.kind ≢ absent) where
      guarded-Post :
          (guard : Location) (u : D.World) (c : Captured)
          → L.scratch guard ≡ true
          → CapturedPost D M L.entry guard u c
          → L.entry guard u ≡ before
          → (L.entry p u).kind ≡ absent
          → SameBut D M L.entry L.scratch p w u
          → AppliedPost D M L p before after w (guarded D p guard before after c u)
      unfolding guarded
      guarded-Post guard u (unread e) hidden h kept free same =
          (same, plain-Raised D M L p before after e u u h)
      guarded-Post guard u (holds c) hidden h kept free same =
          elim (Dec-cases (state_discrete c before)) [
            | inr (n, d) ↦ absurd (n (sym h ∙ kept))
            | inl (e, d) ↦
                rw (d, AppliedPost)
                  (replaced-Post (record { path = guard; state = c; target_path = p }) u
                    (create_state D p after u)
                    (record { hidden = hidden; keeps = e; guards = refl; was_there = there }) free
                    same (create_state-Post D M L p after u clean free))
          ]

      renamed-Post :
          (guard : Location) (u : D.World) (r : Ran D.World)
          → L.scratch guard ≡ true
          → RenamePost D M L.entry L.scratch p guard u r
          → L.entry p u ≡ before
          → IsEmptied D M L.entry L.scratch p u
          → SameBut D M L.entry L.scratch p w u
          → AppliedPost D M L p before after w (renamed D p guard before after r)
      unfolding renamed
      renamed-Post guard u (failed e v) hidden h kept empty same =
          (λ q c off. h q ∙ same q c off, tt)
      renamed-Post guard u (done v) hidden (moved, gone, others) kept empty same =
          guarded-Post guard v (capture_at D guard v) hidden (capture_at-Post D M L guard v)
            (moved ∙ kept) gone (λ q c off. others empty q c off ∙ same q c off)

      move_aside-Post :
          IsEmptied D M L.entry L.scratch p w
          → AppliedPost D M L p before after w (move_aside D p before after (D.token w))
      unfolding move_aside
      move_aside-Post empty =
          let u = (D.token w).1 in
          let g = sibling p (D.token w).0 ".guard" in
          let (hidden, _) = L.sibling_law p ".guard" w in
          renamed-Post g u (D.rename p g u) hidden
            (L.rename_law p g u (off_scratch D M L g p hidden clean) hidden) (L.token_law p w ∙ was)
            (λ q c b. ap {A = FileState} (λ x. x.kind) (L.token_law q w) ∙ empty q c b)
            (λ q _ _. L.token_law q w)

    no_children : before.kind ≢ directory → IsEmptied D M L.entry L.scratch p w
    no_children n q _ b =
        L.tree_law p q w (λ x. n (ap {A = FileState} (λ x. x.kind) (sym was) ∙ x)) b

    transition-Post :
        (k l : Kind)
        → before.kind ≡ k
        → after.kind ≡ l
        → (before.kind ≡ directory → after.kind ≢ directory → IsEmptied D M L.entry L.scratch p w)
        → AppliedPost D M L p before after w (transition D k l p before after w)
    unfolding transition
    transition-Post absent l b a room =
        at_absent-Post b (create_state D p after w)
          (create_state-Post D M L p after w clean (ap {A = FileState} (λ x. x.kind) was ∙ b))
    transition-Post directory directory b a room = change_mode-Post (D.open_directory p w)
    transition-Post directory absent b a room =
        move_aside-Post (λ x. absurd (ground (arith, b, x)))
          (room b (λ x. absurd (ground (arith, a, x))))
    transition-Post directory file b a room =
        move_aside-Post (λ x. absurd (ground (arith, b, x)))
          (room b (λ x. absurd (ground (arith, a, x))))
    transition-Post directory symlink b a room =
        move_aside-Post (λ x. absurd (ground (arith, b, x)))
          (room b (λ x. absurd (ground (arith, a, x))))
    transition-Post file l b a room =
        move_aside-Post (λ x. absurd (ground (arith, b, x)))
          (no_children (λ x. absurd (ground (arith, b, x))))
    transition-Post symlink l b a room =
        move_aside-Post (λ x. absurd (ground (arith, b, x)))
          (no_children (λ x. absurd (ground (arith, b, x))))

    -- A parent that is gone is told as a change of the path, which is as it was.
    abbrev ChainPost : Option Raised → Type 0
    ChainPost none = Unit
    ChainPost (some e) = RaisedPost D M L p before after e w

    open_chain-Post : (dir : Location) → ChainPost (open_chain D dir w)
    unfolding open_chain
    open_chain-Post [] = elim (Answer-cases (D.open_directory [] w)) [
      | inl (_, o) ↦ rw (o, ChainPost) tt
      | inr (e, o) ↦ rw (o, ChainPost) tt
    ]
    open_chain-Post (name ∷ rest) = elim (Option-cases (open_chain D rest w)) [
      | inr (e, o) ↦ rw (o, ChainPost) (rw o at (open_chain-Post rest))
      | inl o ↦ elim (Answer-cases (D.open_directory (name ∷ rest) w)) [
        | inl (_, a) ↦ rw (o, a, ChainPost) tt
        | inr (e, a) ↦ rw (o, a, ChainPost) was
      ]
    ]

    module _
        (room : before.kind ≡ directory
          → after.kind ≢ directory
          → IsEmptied D M L.entry L.scratch p w) where
      compared-Post :
          (c : Captured)
          → CapturedPost D M L.entry p w c
          → AppliedPost D M L p before after w (compared D p before after c w)
      unfolding compared
      compared-Post (unread e) h = (λ _ _ _. refl, plain-Raised D M L p before after e w w h)
      compared-Post (holds c) h = elim (Dec-cases (state_discrete c before)) [
        | inr (n, d) ↦ absurd (n (sym h ∙ was))
        | inl (e, d) ↦ elim (Dec-cases (state_discrete c after)) [
          | inl (e', d') ↦ rw (d, d', AppliedPost) (λ _ _ _. refl, was, h ∙ e')
          | inr (_, d') ↦
              rw (d, d', AppliedPost) (transition-Post before.kind after.kind refl refl room)
        ]
      ]

      pub apply_state-Post : AppliedPost D M L p before after w (apply_state D p before after w)
      unfolding apply_state apply_expected_state
      apply_state-Post = elim (Option-cases (open_chain D (parent p) w)) [
        | inl o ↦ rw (o, AppliedPost) (compared-Post (capture_at D p w) (capture_at-Post D M L p w))
        | inr (e, o) ↦ rw (o, AppliedPost) (λ _ _ _. refl, rw o at (open_chain-Post (parent p)))
      ]

  compared-IsRaised :
      (p : Location) (before after : FileState) (w : D.World) (c : Captured)
      → L.entry p w ≢ before
      → CapturedPost D M L.entry p w c
      → IsRaised (compared D p before after c w)
  unfolding compared
  compared-IsRaised p before after w (unread e) off h = tt
  compared-IsRaised p before after w (holds c) off h = elim (Dec-cases (state_discrete c before)) [
    | inl (e, d) ↦ absurd (off (h ∙ e))
    | inr (_, d) ↦ rw (d, IsRaised) tt
  ]

  -- A path that does not hold the expected state is left alone, with an exception.
  pub apply_state-IsRaised :
      (p : Location) (before after : FileState) (w : D.World)
      → L.entry p w ≢ before
      → IsRaised (apply_state D p before after w)
  unfolding apply_state apply_expected_state
  apply_state-IsRaised p before after w off = elim (Option-cases (open_chain D (parent p) w)) [
    | inl o ↦
        rw (o, IsRaised)
          (compared-IsRaised p before after w (capture_at D p w) off (capture_at-Post D M L p w))
    | inr (e, o) ↦ rw (o, IsRaised) tt
  ]
