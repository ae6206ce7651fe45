-- ===== src/Mutations/Laws/Outcomes.antt =====
-- What an exception of `apply_state` tells of the path, and the guard that it may leave.
use reverso_llm.Prelude.{true, false, ◌≡◌, ◌≢◌, refl, ap, arith, Dec-cases, inl, inr, ◌⊎◌}
use reverso_llm.Mutations.{
  absent, directory, FileState, kind_discrete, Location, Fault, Answer, answer, fails, Ran, done,
  failed, Disk, TransitionGuard, Raised, os_error, runtime_error, state_changed, guard_apply_failed,
  guard_cleanup_failed, unread,
}
use reverso_llm.Mutations.Leaf.{Applied, applied, raises, remove_named_state}
use reverso_llm.Mutations.Laws.{
  Call, place, Others, unlink, rmdir, Modes, CallPost, CapturedPost, SameBut, IsLawful,
}

abbrev pub IsRaised : {World : Type 0} → Applied World → Type 0
IsRaised (applied v) = ⊥
IsRaised (raises e v) = Unit

pub Answer-cases :
    {A : Type 0} (a : Answer A) → ((x : A) × (a ≡ answer x)) ⊎ ((e : Fault) × (a ≡ fails e))
Answer-cases (answer x) = inl (x, refl)
Answer-cases (fails e) = inr (e, refl)

module _ (D : Disk) (M : Modes) (L : IsLawful D M) where
  -- The guard keeps what was at the path.
  pub record IsGuard (path : Location) (before : FileState) (guard : TransitionGuard) : Type 0 where
    pub hidden : L.scratch guard.path ≡ true
    pub keeps : guard.state ≡ before
    pub guards : guard.target_path ≡ path
    pub was_there : before.kind ≢ absent

  -- What an exception tells of the path.
  abbrev pub RaisedPost : Location → FileState → FileState → Raised → D.World → Type 0
  RaisedPost p before after (state_changed false) v = L.entry p v ≡ before
  RaisedPost p before after (state_changed true) v = Unit
  RaisedPost p before after (os_error e) v = Unit
  RaisedPost p before after runtime_error v = Unit
  RaisedPost p before after (guard_apply_failed guard false) v =
      IsGuard p before guard × ((L.entry p v).kind ≡ absent)
  RaisedPost p before after (guard_apply_failed guard true) v =
      IsGuard p before guard × (L.entry p v ≡ after)
  RaisedPost p before after (guard_cleanup_failed guard) v = IsGuard p before guard

  abbrev pub AppliedPost : Location → FileState → FileState → D.World → Applied D.World → Type 0
  AppliedPost p before after w (applied v) =
      SameBut D M L.entry L.scratch p w v × (L.entry p w ≡ before) × (L.entry p v ≡ after)
  AppliedPost p before after w (raises e v) =
      SameBut D M L.entry L.scratch p w v × RaisedPost p before after e v

  pub plain-Raised :
      (p : Location) (b a : FileState) (e : Raised) (v w : D.World)
      → CapturedPost D M L.entry p w (unread e)
      → RaisedPost p b a e v
  plain-Raised p b a (os_error e) v w h = tt
  plain-Raised p b a runtime_error v w h = tt
  plain-Raised p b a (state_changed t) v w h = absurd h
  plain-Raised p b a (guard_apply_failed g t) v w h = absurd h
  plain-Raised p b a (guard_cleanup_failed g) v w h = absurd h

  -- What is scratch is no path of interest.
  pub off_scratch : (g q : Location) → L.scratch g ≡ true → L.scratch q ≡ false → q ≢ g
  off_scratch g q hidden c e = absurd (ground (arith, hidden, c, ap L.scratch e))

  abbrev pub behind : Ran D.World → D.World
  behind (done v) = v
  behind (failed e v) = v

  call-Others :
      (c : Call) (w : D.World) (r : Ran D.World)
      → CallPost D M L.entry c w r
      → Others D M L.entry (place c) w (behind r)
  call-Others c w (done v) (others, _) = others
  call-Others c w (failed e v) (others, _, _) = others

  -- A removal changes its path and no other.
  pub remove_named_state-Others :
      (p : Location) (s : FileState) (w : D.World)
      → Others D M L.entry p w (behind (remove_named_state D p s w))
  unfolding remove_named_state
  remove_named_state-Others p s w = elim (Dec-cases (kind_discrete s.kind directory)) [
    | inl (_, e) ↦ rw (e, behind) (call-Others (rmdir p) w (D.rmdir p w) (L.call_law (rmdir p) w))
    | inr (_, e) ↦
        rw (e, behind) (call-Others (unlink p) w (D.unlink p w) (L.call_law (unlink p) w))
  ]
