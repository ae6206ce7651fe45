-- ===== src/Tests/Mutations.antt =====
-- A disk whose root holds symbolic links: links can be made there, and every other call that writes
-- fails. Names that begin with a dot are scratch.
use text.Mathlib.Text.{starts_with}
use text.Mathlib.TextPositions.{starts_with-append}
use Prim.Native.String.{◌++◌ as ◌<>◌}
use reverso_llm.Prelude.{
  ℕ, String, Bool, true, false, Option, none, some, List, [], ◌∷◌, ◌≡◌, ◌≢◌, refl, sym, ap, inl,
  inr, ◌⊎◌, Bool-cases, Option-cases, arith, if◌then◌else◌, text_key, All,
}
use reverso_llm.Prelude.Dict
use reverso_llm.Prelude.Dict.{Dict, key_refl}
use reverso_llm.Mutations.{
  nothing, target, absent, directory, symlink, FileState, Location, Fault, exists, not_found, other,
  Answer, answer, fails, Ran, done, failed, Info, link_info, directory_info, Disk, absent_state,
  symlink_state,
}
use reverso_llm.Mutations.Leaf.{sibling}
use reverso_llm.Mutations.Group.{PreparedMutation, roll_back, apply_prepared_group}
use reverso_llm.Mutations.Laws.{
  Call, create, fchmod, write, link, make_symlink, mkdir, unlink, rmdir, IsBelow, Modes, recreated,
  run, CallPost, InfoPost, LinkPost, IsLawful,
}
use reverso_llm.Mutations.Laws.Rollback.{IsSound}
use reverso_llm.Mutations.Laws.Outcomes.{IsRaised}
use reverso_llm.Mutations.Laws.Links.{roll_back-symlink_state}
use reverso_llm.Mutations.Laws.Atomic.{apply_prepared_group-GroupPost, GroupPost}

abbrev Links : Type 0
Links = Dict String String

abbrev is_hidden : String → Bool
is_hidden name = starts_with name "."

-- The target of the link at a path.
unfoldable find : Location → Links → Option String
find [] w = none
find (name ∷ []) w = if is_hidden name then none else Dict.get name w
find (name ∷ dir ∷ rest) w = none

linked_info : Option String → Answer Info
linked_info none = fails not_found
linked_info (some t) = answer (link_info 511)

linked_text : Option String → Answer String
linked_text none = fails other
linked_text (some t) = answer t

info : Location → Links → Answer Info
info [] w = answer (directory_info 493)
info (name ∷ rest) w = linked_info (find (name ∷ rest) w)

abbrev opened : Location → Links → Answer (Unit {0})
opened [] w = answer tt
opened (name ∷ rest) w = fails not_found

linked : String → String → Option String → Links → Ran Links
linked t name none w = done (Dict.put name t w)
linked t name (some old) w = failed exists w

make : String → Location → Links → Ran Links
make t [] w = failed exists w
make t (name ∷ []) w = if is_hidden name then failed other w else linked t name (Dict.get name w) w
make t (name ∷ dir ∷ rest) w = failed not_found w

abbrev link_disk : Disk
link_disk = record {
  World = Links;
  lstat = info;
  readlink = λ p w. linked_text (find p w);
  read = λ p w. fails other;
  open_directory = opened;
  token = λ w. ("t", w);
  create = λ p m w. failed other w;
  fchmod = λ p m w. failed other w;
  write = λ p b w. failed other w;
  link = λ t p w. failed other w;
  make_symlink = make;
  mkdir = λ p m w. failed other w;
  unlink = λ p w. failed other w;
  rmdir = λ p w. failed other w;
  rename = λ a b w. failed other w;
  str_bytes = λ b. "b''";
}

abbrev modes : Modes
modes = record { masked = λ m. m; link_mode = 511 }

linked_state : Option String → FileState
linked_state none = absent_state
linked_state (some t) = record { kind = symlink; contents = target t; mode = some 511 }

entry : Location → Links → FileState
entry [] w = record { kind = directory; contents = nothing; mode = some 493 }
entry (name ∷ rest) w = linked_state (find (name ∷ rest) w)

scratch : Location → Bool
scratch [] = false
scratch (name ∷ rest) = is_hidden name

text_law :
    (p : Location) (w : Links) (o : Option String)
    → entry p w ≡ linked_state o
    → LinkPost link_disk modes entry 511 p w (linked_text o)
unfolding linked_state linked_text
text_law p w none h = tt
text_law p w (some t) h = h

info_law : (p : Location) (w : Links) → InfoPost link_disk modes entry p w (info p w)
unfolding info entry linked_info linked_state linked_text
info_law [] w = refl
info_law (name ∷ rest) w = elim (Option-cases (find (name ∷ rest) w)) [
  | inl e ↦ rw (e, InfoPost) (ap linked_state e)
  | inr (t, e) ↦ rw (e, InfoPost) (text_law (name ∷ rest) w (find (name ∷ rest) w) refl)
]

others_law :
    (t name : String) (w : Links) (q : Location)
    → q ≢ name ∷ []
    → entry q (Dict.put name t w) ≡ entry q w
unfolding entry find
others_law t name w [] off = refl
others_law t name w (n ∷ []) off =
    ap (λ o. linked_state (if is_hidden n then none else o))
      (rw (Dict.get-put name n t w) (
        ground (arith, text_key.same_iff name n, λ (e : name ≡ n). off (ap (λ x. x ∷ []) (sym e)))))
others_law t name w (n ∷ dir ∷ rest) off = refl

linked_law :
    (t name : String) (w : Links) (o : Option String)
    → is_hidden name ≡ false
    → Dict.get name w ≡ o
    → CallPost link_disk modes entry (make_symlink t (name ∷ [])) w (linked t name o w)
unfolding linked entry find linked_state
linked_law t name w none h e =
    (others_law t name w, rw (h, Dict.get-put name name t w, key_refl name) refl)
linked_law t name w (some old) h e =
    (λ _ _. refl, λ _. refl, λ _. rw (h, e) (λ x. absurd (ground (arith, x))))

link_law :
    (t : String) (p : Location) (w : Links)
    → CallPost link_disk modes entry (make_symlink t p) w (make t p w)
unfolding make entry
link_law t [] w = (λ _ _. refl, λ _. refl, λ _ x. absurd (ground (arith, x)))
link_law t (name ∷ []) w = elim (Bool-cases (is_hidden name)) [
  | inl h ↦ rw (h, CallPost) (λ _ _. refl, λ _. refl, λ x. absurd (ground (arith, x)))
  | inr h ↦ rw (h, CallPost) (linked_law t name w (Dict.get name w) h refl)
]
link_law t (name ∷ dir ∷ rest) w = (λ _ _. refl, λ _. refl, λ x. absurd (ground (arith, x)))

call_law : (c : Call) (w : Links) → CallPost link_disk modes entry c w (run link_disk c w)
call_law (create p m) w = (λ _ _. refl, λ _. refl, λ x. absurd (ground (arith, x)))
call_law (fchmod p m) w = (λ _ _. refl, λ _. refl, λ x. absurd (ground (arith, x)))
call_law (write p b) w = (λ _ _. refl, λ _. refl, λ x. absurd (ground (arith, x)))
call_law (link t p) w = (λ _ _. refl, λ _. refl, λ x. absurd (ground (arith, x)))
call_law (make_symlink t p) w = link_law t p w
call_law (mkdir p m) w = (λ _ _. refl, λ _. refl, λ x. absurd (ground (arith, x)))
call_law (unlink p) w = (λ _ _. refl, λ _. refl, λ x. absurd (ground (arith, x)))
call_law (rmdir p) w = (λ _ _. refl, λ _. refl, λ x. absurd (ground (arith, x)))

sibling_law :
    (p : Location) (suffix : String) (w : Links)
    → (scratch (sibling p "t" suffix) ≡ true) × ((entry (sibling p "t" suffix) w).kind ≡ absent)
unfolding scratch entry find linked_state
sibling_law [] suffix w =
    (starts_with-append "." _, rw (starts_with-append "." ("" <> "." <> "t" <> suffix)) refl)
sibling_law (name ∷ []) suffix w =
    (starts_with-append "." _, rw (starts_with-append "." (name <> "." <> "t" <> suffix)) refl)
sibling_law (name ∷ dir ∷ rest) suffix w = (starts_with-append "." _, refl)

absent_law : (q : Location) (w : Links) → (entry q w).kind ≡ absent → entry q w ≡ absent_state
unfolding entry linked_state
absent_law [] w h = absurd (ground (arith, h))
absent_law (name ∷ rest) w h = elim (Option-cases (find (name ∷ rest) w)) [
  | inl e ↦ rw e refl
  | inr (t, e) ↦ absurd (ground (arith, rw e at h))
]

tree_law :
    (dir q : Location) (w : Links)
    → (entry dir w).kind ≢ directory
    → IsBelow dir q
    → (entry q w).kind ≡ absent
unfolding entry find linked_state IsBelow
tree_law [] q w n b = absurd (n refl)
tree_law (name ∷ rest) [] w n b = absurd b
tree_law (name ∷ rest) (m ∷ []) w n b = absurd (nowhere b)
  where
    nowhere : ((name ∷ rest) ≡ []) ⊎ ⊥ → ⊥
    nowhere (inl e) = absurd (ground (arith, e))
    nowhere (inr b) = b
tree_law (name ∷ rest) (m ∷ dir ∷ q) w n b = refl

link_disk-IsLawful : IsLawful link_disk modes
unfolding scratch
link_disk-IsLawful = record {
  entry = entry;
  scratch = scratch;
  lstat_law = info_law;
  call_law = call_law;
  rename_law = λ _ _ _ _ _ q. refl;
  token_law = λ _ _. refl;
  sibling_law = sibling_law;
  absent_law = absent_law;
  tree_law = tree_law;
}

abbrev link_mutation : String → String → PreparedMutation
link_mutation name to = record {
  path = name ∷ [];
  before = absent_state;
  after = record { kind = symlink; contents = target to; mode = some 511 };
}

abbrev group : List PreparedMutation
group = link_mutation "rtk" "/opt/rtk" ∷ link_mutation "claude" "/opt/claude" ∷ []

abbrev no_observer : PreparedMutation → ℕ → Option Fault
no_observer m i = none

group-IsSound : All (IsSound link_disk modes link_disk-IsLawful) group
unfolding recreated link_disk-IsLawful scratch
group-IsSound = (
  record {
    clean = refl;
    before_kept = refl;
    after_kept = refl;
    directory_kept = λ e. absurd (ground (arith, e));
  },
  (
    record {
      clean = refl;
      before_kept = refl;
      after_kept = refl;
      directory_kept = λ e. absurd (ground (arith, e));
    },
    tt,
  ),
)

apply_prepared_group-GroupPost_example :
    GroupPost link_disk modes link_disk-IsLawful [] group
      (apply_prepared_group link_disk no_observer group [])
apply_prepared_group-GroupPost_example =
    apply_prepared_group-GroupPost link_disk modes link_disk-IsLawful no_observer group []
      group-IsSound

roll_back-symlink_state_example : IsRaised (
    roll_back link_disk
      (record { path = "rtk" ∷ []; before = absent_state; after = symlink_state "/opt/rtk" } ∷ [])
      (("rtk", "/opt/rtk") ∷ []))
roll_back-symlink_state_example =
    roll_back-symlink_state link_disk [] [] ("rtk" ∷ []) absent_state "/opt/rtk"
      (("rtk", "/opt/rtk") ∷ [])
