-- ===== src/Mutations/Group.antt =====
-- `PreparedGroup` of reverso/client_sync_mutations.py: its validation, its application and the
-- rollback of what was touched.
use mathlib.Core.Option.{map as map_option}
use reverso_llm.Prelude.{ℕ, suc, Bool, true, false, Option, none, some, List, [], ◌∷◌}
use reverso_llm.Mutations.{
  absent, directory, FileState, state_discrete, kind_discrete, Location, location_discrete, Disk,
  Fault, TransitionGuard, Raised, os_error, runtime_error, state_changed, guard_apply_failed,
  guard_cleanup_failed, Captured, holds, unread, capture_state,
}
use reverso_llm.Mutations.Leaf.{Applied, applied, raises, apply_state, settle_transition_guard}

pub record PreparedMutation : Type 0 where
  pub path : Location
  pub before : FileState
  pub after : FileState

-- `mutation.before != mutation.after`, of all of them.
unfoldable pub changed : List PreparedMutation → List PreparedMutation
changed [] = []
changed (m ∷ ms) =
    let rest = changed ms in
    elim (state_discrete m.before m.after) [ yes _ ↦ rest | no _ ↦ m ∷ rest ]

-- `mutation_by_path.get(path)`: of two with one path the later counts.
unfoldable pub mutation_at : Location → List PreparedMutation → Option PreparedMutation
mutation_at path [] = none
mutation_at path (m ∷ ms) = elim (mutation_at path ms) [
  | some found ↦ some found
  | none ↦ elim (location_discrete m.path path) [ yes _ ↦ some m | no _ ↦ none ]
]

-- The parents of a path, without the root.
unfoldable pub parents : Location → List Location
parents [] = []
parents (name ∷ []) = []
parents (name ∷ dir ∷ rest) = (dir ∷ rest) ∷ parents (dir ∷ rest)

unfoldable pub is_seen : Location → List Location → Bool
is_seen path [] = false
is_seen path (p ∷ ps) =
    let rest = is_seen path ps in elim (location_discrete p path) [ yes _ ↦ true | no _ ↦ rest ]

-- How an application of a group ends. `escaped` is an exception that is raised as it is.
pub data Outcome (World : Type 0) : Type 0 where
  finished : World → Outcome World
  refused : Raised → World → Outcome World
  apply_failed : World → Outcome World
  rollback_failed : World → Outcome World
  escaped : Raised → World → Outcome World

-- What the loop over the changed mutations leaves: the touched ones, the last in front.
pub data Progress (World : Type 0) : Type 0 where
  completed : World → Progress World
  broken : Raised → List PreparedMutation → World → Progress World

-- Is the mutation that was touched last left out of the rollback?
unfoldable pub is_untouched : Raised → PreparedMutation → FileState → Bool
is_untouched (guard_apply_failed guard false) m current = true
is_untouched (guard_apply_failed guard true) m current = elim (state_discrete current m.after) [
  | yes _ ↦ false
  | no _ ↦ true
]
is_untouched (state_changed false) m current = true
is_untouched (state_changed true) m current = elim (state_discrete current m.before) [
  | yes _ ↦ true
  | no _ ↦ false
]
is_untouched (os_error e) m current = elim (state_discrete current m.before) [
  | yes _ ↦ true
  | no _ ↦ false
]
is_untouched runtime_error m current = elim (state_discrete current m.before) [
  | yes _ ↦ true
  | no _ ↦ false
]
is_untouched (guard_cleanup_failed guard) m current = elim (state_discrete current m.before) [
  | yes _ ↦ true
  | no _ ↦ false
]

unfoldable pub transition_guard : Raised → Option TransitionGuard
transition_guard (guard_apply_failed guard _) = some guard
transition_guard (guard_cleanup_failed guard) = some guard
transition_guard (os_error _) = none
transition_guard runtime_error = none
transition_guard (state_changed _) = none

module _ (D : Disk) where
  -- The first parent that is in the group, or that is there, must be a directory.
  unfoldable pub check_captured : Captured → Option Raised
  check_captured (unread e) = some e
  check_captured (holds c) = elim (kind_discrete c.kind directory) [
    | yes _ ↦ none
    | no _ ↦ some runtime_error
  ]

  unfoldable pub check_parents : List PreparedMutation → List Location → D.World → Option Raised
  check_parents all [] w = none
  check_parents all (dir ∷ dirs) w = elim (mutation_at dir all) [
    | some m ↦ elim (kind_discrete m.after.kind directory) [
      | yes _ ↦ none
      | no _ ↦ some runtime_error
    ]
    | none ↦ check_captured (capture_state D dir w)
  ]

  unfoldable pub check_before : FileState → Captured → Option Raised
  check_before before (unread e) = some e
  check_before before (holds c) = elim (state_discrete c before) [
    | yes _ ↦ none
    | no _ ↦ some (state_changed false)
  ]

  unfoldable pub check_created : List PreparedMutation → PreparedMutation → D.World → Option Raised
  check_created all m w = elim (kind_discrete m.after.kind absent) [
    | yes _ ↦ none
    | no _ ↦ check_parents all (parents m.path) w
  ]

  unfoldable pub check_mutation :
      List PreparedMutation → List Location → PreparedMutation → D.World → Option Raised
  check_mutation all seen m w = elim (is_seen m.path seen) [
    | true ↦ some runtime_error
    | false ↦ elim (check_before m.before (capture_state D m.path w)) [
      | some e ↦ some e
      | none ↦ check_created all m w
    ]
  ]

  unfoldable pub validate :
      List PreparedMutation → List Location → List PreparedMutation → D.World → Option Raised
  validate all seen [] w = none
  validate all seen (m ∷ ms) w = elim (check_mutation all seen m w) [
    | some e ↦ some e
    | none ↦ validate all (m.path ∷ seen) ms w
  ]

  unfoldable pub validate_prepared_group : List PreparedMutation → D.World → Option Raised
  validate_prepared_group mutations w = validate mutations [] mutations w

  -- The loop. The observer may raise; no class of this module, and for the handler they are all one.
  unfoldable pub apply_all :
      (PreparedMutation → ℕ → Option Fault)
      → ℕ
      → List PreparedMutation
      → List PreparedMutation
      → D.World
      → Progress D.World
  apply_all observer index touched [] w = completed w
  apply_all observer index touched (m ∷ ms) w = elim (observer m index) [
    | some e ↦ broken (os_error e) touched w
    | none ↦ elim (apply_state D m.path m.before m.after w) [
      | applied v ↦ apply_all observer (suc index) (m ∷ touched) ms v
      | raises e v ↦ broken e (m ∷ touched) v
    ]
  ]

  unfoldable pub roll_back : List PreparedMutation → D.World → Applied D.World
  roll_back [] w = applied w
  roll_back (m ∷ ms) w = elim (apply_state D m.path m.after m.before w) [
    | applied v ↦ roll_back ms v
    | raises e v ↦ raises e v
  ]

  unfoldable pub settled : Applied D.World → Outcome D.World
  settled (applied w) = apply_failed w
  settled (raises e w) = rollback_failed w

  unfoldable pub settle : Option TransitionGuard → Applied D.World → Outcome D.World
  settle guard (raises e w) = rollback_failed w
  settle none (applied w) = apply_failed w
  settle (some guard) (applied w) = settled (settle_transition_guard D guard w)

  unfoldable pub recover_from :
      Raised → PreparedMutation → List PreparedMutation → Captured → D.World → Outcome D.World
  recover_from e m ms (unread x) w = escaped x w
  recover_from e m ms (holds current) w = elim (is_untouched e m current) [
    | true ↦ settle (transition_guard e) (roll_back ms w)
    | false ↦ settle (transition_guard e) (roll_back (m ∷ ms) w)
  ]

  -- The handler of the loop's exceptions.
  unfoldable pub recover : Raised → List PreparedMutation → D.World → Outcome D.World
  recover e [] w = settle (transition_guard e) (applied w)
  recover e (m ∷ ms) w = recover_from e m ms (capture_state D m.path w) w

  unfoldable pub ended : Progress D.World → Outcome D.World
  ended (completed w) = finished w
  ended (broken e touched w) = recover e touched w

  unfoldable pub apply_prepared_group :
      (PreparedMutation → ℕ → Option Fault) → List PreparedMutation → D.World → Outcome D.World
  apply_prepared_group observer mutations w = elim (validate_prepared_group mutations w) [
    | some e ↦ refused e w
    | none ↦ ended (apply_all observer 0 [] (changed mutations) w)
  ]

  -- The paths whose state is not the candidate, or what a reading raised.
  unfoldable pub verify_prepared_group : List PreparedMutation → D.World → Option (List Location)
  verify_prepared_group [] w = some []
  verify_prepared_group (m ∷ ms) w =
      let rest = verify_prepared_group ms w in
      elim (capture_state D m.path w) [
        | unread e ↦ none
        | holds c ↦ elim (state_discrete c m.after) [
          | yes _ ↦ rest
          | no _ ↦ map_option (λ ps. m.path ∷ ps) rest
        ]
      ]
