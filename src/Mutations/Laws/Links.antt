-- ===== src/Mutations/Laws/Links.antt =====
-- A candidate of `symlink_state` has no mode, and what is captured of a link has one.
use reverso_llm.Prelude.{
  ℕ, String, List, [], ◌∷◌, ◌++◌, ◌≢◌, ap, inl, inr, Dec-cases, Option-cases, arith,
}
use reverso_llm.Bytes.{Bytes}
use reverso_llm.Mutations.{
  FileState, state_discrete, Location, exists, not_found, other, Answer, answer, fails, Info,
  link_info, regular_info, directory_info, special_info, Disk, Captured, holds, unread, as_link,
  as_file, as_info, capture_at, symlink_state,
}
use reverso_llm.Mutations.Leaf.{parent, compared, apply_expected_state, open_chain, apply_state}
use reverso_llm.Mutations.Group.{PreparedMutation, roll_back}
use reverso_llm.Mutations.Laws.Outcomes.{IsRaised}
use reverso_llm.Mutations.Laws.Rollback.{Applied-cases}

module _ (D : Disk) where
  -- A captured state is no candidate for a link.
  abbrev NoCandidate : Captured → Type 0
  NoCandidate (holds c) = (text : String) → c ≢ symlink_state text
  NoCandidate (unread e) = Unit

  as_link-NoCandidate : (m : ℕ) (a : Answer String) → NoCandidate (as_link D m a)
  unfolding as_link
  as_link-NoCandidate m (answer t) =
      λ text e. absurd (ground (arith, ap {A = FileState} (λ s. s.mode) e))
  as_link-NoCandidate m (fails e) = tt

  as_file-NoCandidate : (m : ℕ) (a : Answer Bytes) → NoCandidate (as_file D m a)
  unfolding as_file
  as_file-NoCandidate m (answer b) =
      λ text e. absurd (ground (arith, ap {A = FileState} (λ s. s.mode) e))
  as_file-NoCandidate m (fails e) = tt

  as_info-NoCandidate :
      (p : Location) (w : D.World) (a : Answer Info) → NoCandidate (as_info D p w a)
  unfolding as_info
  as_info-NoCandidate p w (fails not_found) =
      λ text e. absurd (ground (arith, ap {A = FileState} (λ s. s.kind) e))
  as_info-NoCandidate p w (fails exists) = tt
  as_info-NoCandidate p w (fails other) = tt
  as_info-NoCandidate p w (answer (link_info m)) = as_link-NoCandidate m (D.readlink p w)
  as_info-NoCandidate p w (answer (regular_info m)) = as_file-NoCandidate m (D.read p w)
  as_info-NoCandidate p w (answer (directory_info m)) =
      λ text e. absurd (ground (arith, ap {A = FileState} (λ s. s.kind) e))
  as_info-NoCandidate p w (answer special_info) = tt

  compared-IsRaised :
      (p : Location) (text : String) (before : FileState) (w : D.World) (c : Captured)
      → NoCandidate c
      → IsRaised (compared D p (symlink_state text) before c w)
  unfolding compared
  compared-IsRaised p text before w (unread e) n = tt
  compared-IsRaised p text before w (holds c) n =
      elim (Dec-cases (state_discrete c (symlink_state text))) [
        | inl (e, _) ↦ absurd (n text e)
        | inr (_, d) ↦ rw (d, IsRaised) tt
      ]

  apply_state-IsRaised :
      (p : Location) (text : String) (before : FileState) (w : D.World)
      → IsRaised (apply_state D p (symlink_state text) before w)
  unfolding apply_state apply_expected_state capture_at
  apply_state-IsRaised p text before w = elim (Option-cases (open_chain D (parent p) w)) [
    | inr (e, o) ↦ rw (o, IsRaised) tt
    | inl o ↦
        rw (o, IsRaised)
          (compared-IsRaised p text before w (as_info D p w (D.lstat p w))
            (as_info-NoCandidate p w (D.lstat p w)))
  ]

  -- Whatever the calls of the system do, the rollback of a list of mutations with a `symlink_state` for
  -- a candidate raises: a link that was made is never taken back.
  pub roll_back-symlink_state :
      (front ms : List PreparedMutation) (p : Location) (before : FileState) (text : String)
      (w : D.World)
      → IsRaised (
          roll_back D
            (front ++ (record { path = p; before = before; after = symlink_state text } ∷ ms))
            w)
  unfolding roll_back
  roll_back-symlink_state [] ms p before text w =
      elim (Applied-cases (apply_state D p (symlink_state text) before w)) [
        | inr (e, v, r) ↦ rw (r, IsRaised) tt
        | inl (v, r) ↦ absurd (rw r at (apply_state-IsRaised p text before w))
      ]
  roll_back-symlink_state (m ∷ front) ms p before text w =
      elim (Applied-cases (apply_state D m.path m.after m.before w)) [
        | inr (e, v, r) ↦ rw (r, IsRaised) tt
        | inl (v, r) ↦ rw (r, IsRaised) (roll_back-symlink_state front ms p before text v)
      ]
