-- ===== src/Mutations/Laws/Settling.antt =====
-- `_settle_transition_guard`: the guard's state is at the target again, and the guard is gone.
use reverso_llm.Prelude.{
  false, none, some, ◌≡◌, refl, sym, ap, ◌∙◌, ◌⊎◌, inl, inr, Dec-cases, Option-cases,
}
use reverso_llm.Mutations.{
  absent, FileState, state_discrete, kind_discrete, Location, exists, not_found, other, Ran, done,
  failed, Disk, TransitionGuard, Captured, holds, unread, capture_at,
}
use reverso_llm.Mutations.Leaf.{
  Created, created, Applied, applied, raises, parent, create_state, remove_named_state, dropped,
  drop_guard, put_again, settle_target, settle_guard, open_chain, settle_transition_guard,
}
use reverso_llm.Mutations.Laws.{
  Modes, recreated, CapturedPost, Others, SameBut, IsLawful, capture_at-Post,
}
use reverso_llm.Mutations.Laws.Creation.{CreatedPost, create_state-Post}
use reverso_llm.Mutations.Laws.Outcomes.{IsGuard, behind, off_scratch, remove_named_state-Others}

module _ (D : Disk) (M : Modes) (L : IsLawful D M) (p : Location) (clean : L.scratch p ≡ false)
    (before : FileState) (kept : recreated D M before ≡ before) (g : TransitionGuard)
    (is : IsGuard D M L p before g) where
  -- The path holds what the guard kept, and no other changed.
  abbrev pub SettledPost : D.World → Applied D.World → Type 0
  SettledPost w (applied v) = SameBut D M L.entry L.scratch p w v × (L.entry p v ≡ before)
  SettledPost w (raises e v) = Unit

  dropped-Post :
      (w u : D.World) (r : Ran D.World)
      → Others D M L.entry g.path u (behind D M L r)
      → SameBut D M L.entry L.scratch p w u
      → L.entry p u ≡ before
      → SettledPost w (dropped D r)
  unfolding dropped
  dropped-Post w u (failed e v) others same there = tt
  dropped-Post w u (done v) others same there = (
    λ q c off. others q (off_scratch D M L g.path q is.hidden c) ∙ same q c off,
    others p (off_scratch D M L g.path p is.hidden clean) ∙ there,
  )

  drop_guard-Post :
      (w u : D.World) (c : Captured)
      → SameBut D M L.entry L.scratch p w u
      → L.entry p u ≡ before
      → SettledPost w (drop_guard D g c u)
  unfolding drop_guard
  drop_guard-Post w u (unread e) same there = tt
  drop_guard-Post w u (holds c) same there = elim (Dec-cases (state_discrete c g.state)) [
    | inr (_, d) ↦ rw (d, SettledPost) tt
    | inl (_, d) ↦
        rw (d, SettledPost)
          (dropped-Post w u (remove_named_state D g.path g.state u)
            (remove_named_state-Others D M L g.path g.state u) same there)
  ]

  put_again-Post :
      (w : D.World) (c : Created D.World)
      → (L.entry p w).kind ≡ absent
      → CreatedPost D M L p before w c
      → SettledPost w (put_again D g c)
  unfolding put_again
  put_again-Post w (created none _ v) free (same, made) =
      drop_guard-Post w v (capture_at D g.path v) same (made ∙ kept)
  put_again-Post w (created (some exists) _ v) free (same, early, late, taken) =
      absurd (taken refl free)
  put_again-Post w (created (some not_found) _ v) free (same, early, late, taken) = tt
  put_again-Post w (created (some other) _ v) free (same, early, late, taken) = tt

  settle_target-Post :
      (w : D.World) (c : Captured)
      → CapturedPost D M L.entry p w c
      → (L.entry p w ≡ before) ⊎ ((L.entry p w).kind ≡ absent)
      → SettledPost w (settle_target D g c w)
  unfolding settle_target put_again
  settle_target-Post w (unread e) h there = tt
  settle_target-Post w (holds c) h (inl there) = elim (Dec-cases (kind_discrete c.kind absent)) [
    | inl (e, d) ↦ absurd (is.was_there (ap {A = FileState} (λ x. x.kind) (sym there ∙ h) ∙ e))
    | inr (_, d) ↦
        rw (d, SettledPost) (drop_guard-Post w w (capture_at D g.path w) (λ _ _ _. refl) there)
  ]
  settle_target-Post w (holds c) h (inr free) = elim (Dec-cases (kind_discrete c.kind absent)) [
    | inr (n, d) ↦ absurd (n (ap {A = FileState} (λ x. x.kind) (sym h) ∙ free))
    | inl (e, d) ↦
        rw (d, SettledPost, is.guards, is.keeps)
          (put_again-Post w (create_state D p before w) free
            (create_state-Post D M L p before w clean free))
  ]

  settle_guard-Post :
      (w : D.World) (c : Captured)
      → (L.entry p w ≡ before) ⊎ ((L.entry p w).kind ≡ absent)
      → SettledPost w (settle_guard D g c w)
  unfolding settle_guard settle_target
  settle_guard-Post w (unread e) there = tt
  settle_guard-Post w (holds c) there = elim (Dec-cases (state_discrete c g.state)) [
    | inr (_, d) ↦ rw (d, SettledPost) tt
    | inl (_, d) ↦
        rw (d, SettledPost, is.guards)
          (settle_target-Post w (capture_at D p w) (capture_at-Post D M L p w) there)
  ]

  pub settle_transition_guard-Post :
      (w : D.World)
      → (L.entry p w ≡ before) ⊎ ((L.entry p w).kind ≡ absent)
      → SettledPost w (settle_transition_guard D g w)
  unfolding settle_transition_guard
  settle_transition_guard-Post w there = elim (Option-cases (open_chain D (parent g.path) w)) [
    | inr (e, o) ↦ rw (o, SettledPost) tt
    | inl o ↦ rw (o, SettledPost) (settle_guard-Post w (capture_at D g.path w) there)
  ]
