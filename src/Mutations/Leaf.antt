-- ===== src/Mutations/Leaf.antt =====
-- `_create_state`, `_apply_expected_state`, `apply_state` with an expected state and
-- `_settle_transition_guard` of reverso/client_sync_mutations.py. A descriptor of a parent and a name in
-- it are the path that they stand for.
use Prim.Native.String.{◌++◌ as ◌<>◌}
use reverso_llm.Prelude.{String, Bool, true, false, Option, none, some, [], ◌∷◌}
use reverso_llm.Bytes.{Bytes}
use reverso_llm.Mutations.{
  Kind, absent, file, directory, symlink, FileState, state_discrete, kind_discrete, Location, Fault,
  exists, not_found, other, Answer, answer, fails, Ran, done, failed, Disk, TransitionGuard, Raised,
  os_error, state_changed, guard_apply_failed, guard_cleanup_failed, mode_or, bytes_of, text_of,
  Captured, holds, unread, capture_at,
}

-- The name of a sibling: `.{name}.{token}` and the suffix.
abbrev pub sibling : Location → String → String → Location
sibling [] token suffix = ("." <> "" <> "." <> token <> suffix) ∷ []
sibling (name ∷ parent) token suffix = ("." <> name <> "." <> token <> suffix) ∷ parent

abbrev pub parent : Location → Location
parent [] = []
parent (name ∷ rest) = rest

-- What a creation raised, and whether the observer of creations was called.
pub data Created (World : Type 0) : Type 0 where
  created : Option Fault → (observed : Bool) → World → Created World

-- What an application raised.
pub data Applied (World : Type 0) : Type 0 where
  applied : World → Applied World
  raises : Raised → World → Applied World

module _ (D : Disk) where
  -- The handler behind `except BaseException`: the temporary file is taken away, and the exception
  -- goes on unless the removal raises one of its own.
  unfoldable pub cleaned : Fault → Bool → Ran D.World → Created D.World
  cleaned fault observed (done w) = created (some fault) observed w
  cleaned fault observed (failed not_found w) = created (some fault) observed w
  cleaned fault observed (failed exists w) = created (some exists) observed w
  cleaned fault observed (failed other w) = created (some other) observed w

  unfoldable pub unlinked : Location → Ran D.World → Created D.World
  unlinked temporary (done w) = created none true w
  unlinked temporary (failed e w) = cleaned e true (D.unlink temporary w)

  unfoldable pub linked : Location → Ran D.World → Created D.World
  linked temporary (done w) = unlinked temporary (D.unlink temporary w)
  linked temporary (failed e w) = cleaned e false (D.unlink temporary w)

  unfoldable pub written : Location → Location → Ran D.World → Created D.World
  written temporary path (done w) = linked temporary (D.link temporary path w)
  written temporary path (failed e w) = cleaned e false (D.unlink temporary w)

  unfoldable pub given_mode : Location → Location → Bytes → Ran D.World → Created D.World
  given_mode temporary path content (done w) = written temporary path (D.write temporary content w)
  given_mode temporary path content (failed e w) = cleaned e false (D.unlink temporary w)

  unfoldable pub opened_file : Location → Location → FileState → Ran D.World → Created D.World
  opened_file temporary path state (done w) =
      given_mode temporary path (bytes_of state.contents)
        (D.fchmod temporary (mode_or 384 state.mode) w)
  opened_file temporary path state (failed e w) = created (some e) false w

  unfoldable pub create_file : Location → FileState → String × D.World → Created D.World
  create_file path state (token, w) =
      let temporary = sibling path token ".tmp" in
      opened_file temporary path state (D.create temporary (mode_or 384 state.mode) w)

  unfoldable pub observed : Ran D.World → Created D.World
  observed (done w) = created none true w
  observed (failed e w) = created (some e) false w

  unfoldable pub create_kind : Kind → Location → FileState → D.World → Created D.World
  create_kind absent path state w = created none false w
  create_kind directory path state w = observed (D.mkdir path (mode_or 448 state.mode) w)
  create_kind symlink path state w = observed (D.make_symlink (text_of D state.contents) path w)
  create_kind file path state w = create_file path state (D.token w)

  unfoldable pub create_state : Location → FileState → D.World → Created D.World
  create_state path state w = create_kind state.kind path state w

  unfoldable pub remove_named_state : Location → FileState → D.World → Ran D.World
  remove_named_state path state w = elim (kind_discrete state.kind directory) [
    | yes _ ↦ D.rmdir path w
    | no _ ↦ D.unlink path w
  ]

  -- A creation where nothing was expected.
  unfoldable pub at_absent : Created D.World → Applied D.World
  at_absent (created none _ w) = applied w
  at_absent (created (some exists) _ w) = raises (state_changed false) w
  at_absent (created (some not_found) _ w) = raises (os_error not_found) w
  at_absent (created (some other) _ w) = raises (os_error other) w

  -- The mode was put back, which is read again.
  unfoldable pub read_back : FileState → Captured → D.World → Applied D.World
  read_back expected (unread e) w = raises e w
  read_back expected (holds c) w = elim (state_discrete c expected) [
    | no _ ↦ raises (state_changed true) w
    | yes _ ↦ raises (state_changed false) w
  ]

  unfoldable pub put_back : Location → FileState → Ran D.World → Applied D.World
  put_back path expected (failed e w) = raises (state_changed true) w
  put_back path expected (done w) = read_back expected (capture_at D path w) w

  unfoldable pub check_mode :
      Location → FileState → FileState → Captured → D.World → Applied D.World
  check_mode path expected state (unread e) w = raises e w
  check_mode path expected state (holds c) w = elim (state_discrete c state) [
    | yes _ ↦ applied w
    | no _ ↦ put_back path expected (D.fchmod path (mode_or 448 expected.mode) w)
  ]

  unfoldable pub set_mode : Location → FileState → FileState → Ran D.World → Applied D.World
  set_mode path expected state (failed e w) = raises (os_error e) w
  set_mode path expected state (done w) = check_mode path expected state (capture_at D path w) w

  unfoldable pub change_mode :
      Location → FileState → FileState → Answer (Unit {0}) → D.World → Applied D.World
  change_mode path expected state (fails e) w = raises (os_error e) w
  change_mode path expected state (answer _) w =
      set_mode path expected state (D.fchmod path (mode_or 448 state.mode) w)

  unfoldable pub removed_guard : TransitionGuard → Ran D.World → Applied D.World
  removed_guard guard (done w) = applied w
  removed_guard guard (failed e w) = raises (guard_cleanup_failed guard) w

  unfoldable pub replaced : TransitionGuard → Created D.World → Applied D.World
  replaced guard (created (some e) target_transitioned w) =
      raises (guard_apply_failed guard target_transitioned) w
  replaced guard (created none target_transitioned w) =
      removed_guard guard (remove_named_state guard.path guard.state w)

  unfoldable pub guarded :
      Location → Location → FileState → FileState → Captured → D.World → Applied D.World
  guarded path guard expected state (unread e) w = raises e w
  guarded path guard expected state (holds c) w =
      let transition_guard : TransitionGuard = record {
        path = guard;
        state = c;
        target_path = path;
      } in
      elim (state_discrete c expected) [
        | no _ ↦ raises (guard_apply_failed transition_guard false) w
        | yes _ ↦ replaced transition_guard (create_state path state w)
      ]

  unfoldable pub renamed :
      Location → Location → FileState → FileState → Ran D.World → Applied D.World
  renamed path guard expected state (failed e w) = raises (os_error e) w
  renamed path guard expected state (done w) =
      guarded path guard expected state (capture_at D guard w) w

  unfoldable pub move_aside : Location → FileState → FileState → String × D.World → Applied D.World
  move_aside path expected state (token, w) =
      let guard = sibling path token ".guard" in
      renamed path guard expected state (D.rename path guard w)

  -- By the kinds expected and wanted.
  unfoldable pub transition :
      Kind → Kind → Location → FileState → FileState → D.World → Applied D.World
  transition absent _ path expected state w = at_absent (create_state path state w)
  transition directory directory path expected state w =
      change_mode path expected state (D.open_directory path w) w
  transition _ _ path expected state w = move_aside path expected state (D.token w)

  unfoldable pub compared : Location → FileState → FileState → Captured → D.World → Applied D.World
  compared path expected state (unread e) w = raises e w
  compared path expected state (holds c) w = elim (state_discrete c expected) [
    | no _ ↦ raises (state_changed false) w
    | yes _ ↦ elim (state_discrete c state) [
      | yes _ ↦ applied w
      | no _ ↦ transition expected.kind state.kind path expected state w
    ]
  ]

  unfoldable pub apply_expected_state : Location → FileState → FileState → D.World → Applied D.World
  apply_expected_state path expected state w = compared path expected state (capture_at D path w) w

  -- The parents are opened one below the other, from the root.
  unfoldable pub open_chain : Location → D.World → Option Raised
  open_chain [] w = elim (D.open_directory [] w) [ answer _ ↦ none | fails e ↦ some (os_error e) ]
  open_chain (name ∷ rest) w = elim (open_chain rest w) [
    | some e ↦ some e
    | none ↦ elim (D.open_directory (name ∷ rest) w) [
      | answer _ ↦ none
      | fails e ↦ some (state_changed false)
    ]
  ]

  unfoldable pub apply_state : Location → FileState → FileState → D.World → Applied D.World
  apply_state path expected state w = elim (open_chain (parent path) w) [
    | some e ↦ raises e w
    | none ↦ apply_expected_state path expected state w
  ]

  -- The guard is unchanged, and goes.
  unfoldable pub dropped : Ran D.World → Applied D.World
  dropped (done w) = applied w
  dropped (failed e w) = raises (os_error e) w

  unfoldable pub drop_guard : TransitionGuard → Captured → D.World → Applied D.World
  drop_guard guard (unread e) w = raises e w
  drop_guard guard (holds c) w = elim (state_discrete c guard.state) [
    | no _ ↦ raises (state_changed false) w
    | yes _ ↦ dropped (remove_named_state guard.path guard.state w)
  ]

  -- `FileExistsError` is passed over.
  unfoldable pub put_again : TransitionGuard → Created D.World → Applied D.World
  put_again guard (created none _ w) = drop_guard guard (capture_at D guard.path w) w
  put_again guard (created (some exists) _ w) = drop_guard guard (capture_at D guard.path w) w
  put_again guard (created (some not_found) _ w) = raises (os_error not_found) w
  put_again guard (created (some other) _ w) = raises (os_error other) w

  unfoldable pub settle_target : TransitionGuard → Captured → D.World → Applied D.World
  settle_target guard (unread e) w = raises e w
  settle_target guard (holds c) w = elim (kind_discrete c.kind absent) [
    | yes _ ↦ put_again guard (create_state guard.target_path guard.state w)
    | no _ ↦ drop_guard guard (capture_at D guard.path w) w
  ]

  unfoldable pub settle_guard : TransitionGuard → Captured → D.World → Applied D.World
  settle_guard guard (unread e) w = raises e w
  settle_guard guard (holds c) w = elim (state_discrete c guard.state) [
    | no _ ↦ raises (state_changed false) w
    | yes _ ↦ settle_target guard (capture_at D guard.target_path w) w
  ]

  unfoldable pub settle_transition_guard : TransitionGuard → D.World → Applied D.World
  settle_transition_guard guard w = elim (open_chain (parent guard.path) w) [
    | some e ↦ raises e w
    | none ↦ settle_guard guard (capture_at D guard.path w) w
  ]
