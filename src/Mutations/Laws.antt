-- ===== src/Mutations/Laws.antt =====
-- What the mutations rely on of the operating system: each call changes the one path that it names, and
-- a call that fails changes nothing, but for a file that was being written. Scratch paths are those
-- that the random names of temporary files and guards can hit.
pub mod Creation
pub mod Outcomes
pub mod Application
pub mod Settling
pub mod Rollback
pub mod Recovery
pub mod Groups
pub mod Atomic
pub mod Links
use reverso_llm.Prelude.{
  ℕ, suc, ◌<◌, String, Bool, true, false, some, [], ◌∷◌, ◌≡◌, ◌≢◌, ◌⊎◌, inl, inr, arith, length, ap,
  List,
}
use reverso_llm.Bytes.{Bytes}
use reverso_llm.Mutations.{
  nothing, octets, target, Kind, absent, file, directory, symlink, FileState, Location, Fault,
  exists, not_found, other, Answer, answer, fails, Ran, done, failed, Info, link_info, regular_info,
  directory_info, special_info, Disk, Raised, os_error, runtime_error, absent_state, mode_or,
  bytes_of, text_of, Captured, holds, unread, as_link, as_file, as_info, capture_at,
}
use reverso_llm.Mutations.Leaf.{sibling}

-- The calls that write at one path.
pub data Call : Type 0 where
  create : Location → ℕ → Call
  fchmod : Location → ℕ → Call
  write : Location → Bytes → Call
  link : Location → Location → Call
  make_symlink : String → Location → Call
  mkdir : Location → ℕ → Call
  unlink : Location → Call
  rmdir : Location → Call

abbrev pub place : Call → Location
place (create p m) = p
place (fchmod p m) = p
place (write p b) = p
place (link t p) = p
place (make_symlink t p) = p
place (mkdir p m) = p
place (unlink p) = p
place (rmdir p) = p

abbrev pub is_write : Call → Bool
is_write (write p b) = true
is_write (create p m) = false
is_write (fchmod p m) = false
is_write (link t p) = false
is_write (make_symlink t p) = false
is_write (mkdir p m) = false
is_write (unlink p) = false
is_write (rmdir p) = false

-- The path lies below the directory.
unfoldable pub IsBelow : Location → Location → Type 0
IsBelow dir [] = ⊥
IsBelow dir (name ∷ rest) = (dir ≡ rest) ⊎ IsBelow dir rest

pub IsBelow-lt : (dir path : Location) → IsBelow dir path → length dir < length path
unfolding IsBelow
IsBelow-lt dir [] b = absurd b
IsBelow-lt dir (name ∷ rest) (inl e) = omega (arith, ap length e)
IsBelow-lt dir (name ∷ rest) (inr b) = omega (arith, IsBelow-lt dir rest b)

-- How the platform gives modes: what the mask of the process leaves, and the mode of a link.
pub record Modes : Type 0 where
  pub masked : ℕ → ℕ
  pub link_mode : ℕ

-- What a creation of the state leaves.
abbrev recreated_kind : Disk → Modes → Kind → FileState → FileState
recreated_kind D M absent s = absent_state
recreated_kind D M file s = record {
  kind = file;
  contents = octets (bytes_of s.contents);
  mode = some (mode_or 384 s.mode);
}
recreated_kind D M directory s = record {
  kind = directory;
  contents = nothing;
  mode = some (M.masked (mode_or 448 s.mode));
}
recreated_kind D M symlink s = record {
  kind = symlink;
  contents = target (text_of D s.contents);
  mode = some M.link_mode;
}

unfoldable pub recreated : Disk → Modes → FileState → FileState
recreated D M s = recreated_kind D M s.kind s

module _ (D : Disk) where
  abbrev pub run : Call → D.World → Ran D.World
  run (create p m) = D.create p m
  run (fchmod p m) = D.fchmod p m
  run (write p b) = D.write p b
  run (link t p) = D.link t p
  run (make_symlink t p) = D.make_symlink t p
  run (mkdir p m) = D.mkdir p m
  run (unlink p) = D.unlink p
  run (rmdir p) = D.rmdir p

  module _ (M : Modes) (entry : Location → D.World → FileState) where
    abbrev pub effect : Call → D.World → FileState
    effect (create p m) w = record { kind = file; contents = octets []; mode = some (M.masked m) }
    effect (fchmod p m) w = let old = entry p w in record old { mode = some m }
    effect (write p b) w = let old = entry p w in record old { contents = octets b }
    effect (link t p) w = entry t w
    effect (make_symlink t p) w = record {
      kind = symlink;
      contents = target t;
      mode = some M.link_mode;
    }
    effect (mkdir p m) w = record { kind = directory; contents = nothing; mode = some (M.masked m) }
    effect (unlink p) w = absent_state
    effect (rmdir p) w = absent_state

    -- `FileExistsError` means that there is something at the path.
    abbrev pub IsTaken : Call → D.World → Type 0
    IsTaken (create p m) w = (entry p w).kind ≢ absent
    IsTaken (link t p) w = (entry p w).kind ≢ absent
    IsTaken (make_symlink t p) w = (entry p w).kind ≢ absent
    IsTaken (mkdir p m) w = (entry p w).kind ≢ absent
    IsTaken (fchmod p m) w = ⊥
    IsTaken (write p b) w = ⊥
    IsTaken (unlink p) w = ⊥
    IsTaken (rmdir p) w = Unit

    abbrev pub Others : Location → D.World → D.World → Type 0
    Others p w v = (q : Location) → q ≢ p → entry q v ≡ entry q w

    abbrev pub CallPost : Call → D.World → Ran D.World → Type 0
    CallPost c w (done v) = Others (place c) w v × (entry (place c) v ≡ effect c w)
    CallPost c w (failed e v) =
        Others (place c) w v
        × (is_write c ≡ false → entry (place c) v ≡ entry (place c) w)
        × (e ≡ exists → IsTaken c w)

    abbrev pub LinkPost : ℕ → Location → D.World → Answer String → Type 0
    LinkPost m p w (answer t) =
        entry p w ≡ record { kind = symlink; contents = target t; mode = some m }
    LinkPost m p w (fails e) = Unit

    abbrev FilePost : ℕ → Location → D.World → Answer Bytes → Type 0
    FilePost m p w (answer b) =
        entry p w ≡ record { kind = file; contents = octets b; mode = some m }
    FilePost m p w (fails e) = Unit

    abbrev pub InfoPost : Location → D.World → Answer Info → Type 0
    InfoPost p w (fails not_found) = entry p w ≡ absent_state
    InfoPost p w (fails exists) = Unit
    InfoPost p w (fails other) = Unit
    InfoPost p w (answer (link_info m)) = LinkPost m p w (D.readlink p w)
    InfoPost p w (answer (regular_info m)) = FilePost m p w (D.read p w)
    InfoPost p w (answer (directory_info m)) =
        entry p w ≡ record { kind = directory; contents = nothing; mode = some m }
    InfoPost p w (answer special_info) = Unit

    abbrev pub IsPlain : Raised → Type 0
    IsPlain (os_error e) = Unit
    IsPlain runtime_error = Unit
    IsPlain _ = ⊥

    abbrev pub CapturedPost : Location → D.World → Captured → Type 0
    CapturedPost p w (holds c) = entry p w ≡ c
    CapturedPost p w (unread e) = IsPlain e

    as_link-Post :
        (m : ℕ) (p : Location) (w : D.World) (a : Answer String)
        → LinkPost m p w a
        → CapturedPost p w (as_link D m a)
    unfolding as_link
    as_link-Post m p w (answer t) h = h
    as_link-Post m p w (fails e) h = tt

    as_file-Post :
        (m : ℕ) (p : Location) (w : D.World) (a : Answer Bytes)
        → FilePost m p w a
        → CapturedPost p w (as_file D m a)
    unfolding as_file
    as_file-Post m p w (answer t) h = h
    as_file-Post m p w (fails e) h = tt

    as_info-Post :
        (p : Location) (w : D.World) (a : Answer Info)
        → InfoPost p w a
        → CapturedPost p w (as_info D p w a)
    unfolding as_info
    as_info-Post p w (fails not_found) h = h
    as_info-Post p w (fails exists) h = tt
    as_info-Post p w (fails other) h = tt
    as_info-Post p w (answer (link_info m)) h = as_link-Post m p w (D.readlink p w) h
    as_info-Post p w (answer (regular_info m)) h = as_file-Post m p w (D.read p w) h
    as_info-Post p w (answer (directory_info m)) h = h
    as_info-Post p w (answer special_info) h = tt

    module _ (scratch : Location → Bool) where
      -- But for scratch paths and the one named, the disks hold the same.
      abbrev pub SameBut : Location → D.World → D.World → Type 0
      SameBut p w v = (q : Location) → scratch q ≡ false → q ≢ p → entry q v ≡ entry q w

      abbrev pub Same : D.World → D.World → Type 0
      Same w v = (q : Location) → scratch q ≡ false → entry q v ≡ entry q w

      abbrev pub IsEmptied : Location → D.World → Type 0
      IsEmptied p w = (q : Location) → scratch q ≡ false → IsBelow p q → (entry q w).kind ≡ absent

      abbrev pub RenamePost : Location → Location → D.World → Ran D.World → Type 0
      RenamePost a b w (done v) =
          (entry b v ≡ entry a w) × ((entry a v).kind ≡ absent) × (IsEmptied a w → SameBut a w v)
      RenamePost a b w (failed e v) = (q : Location) → entry q v ≡ entry q w

-- The entries of a disk, and the laws of its calls.
pub record IsLawful (D : Disk) (M : Modes) : Type 0 where
  pub entry : Location → D.World → FileState
  pub scratch : Location → Bool
  pub lstat_law : (p : Location) (w : D.World) → InfoPost D M entry p w (D.lstat p w)
  pub call_law : (c : Call) (w : D.World) → CallPost D M entry c w (run D c w)
  pub rename_law :
      (a b : Location) (w : D.World)
      → a ≢ b
      → scratch b ≡ true
      → RenamePost D M entry scratch a b w (D.rename a b w)
  pub token_law : (q : Location) (w : D.World) → entry q (D.token w).1 ≡ entry q w
  pub sibling_law :
      (p : Location) (suffix : String) (w : D.World)
      → (scratch (sibling p (D.token w).0 suffix) ≡ true)
        × ((entry (sibling p (D.token w).0 suffix) w).kind ≡ absent)
  pub absent_law :
      (q : Location) (w : D.World) → (entry q w).kind ≡ absent → entry q w ≡ absent_state
  pub tree_law :
      (dir q : Location) (w : D.World)
      → (entry dir w).kind ≢ directory
      → IsBelow dir q
      → (entry q w).kind ≡ absent

pub capture_at-Post :
    (D : Disk) (M : Modes) (L : IsLawful D M) (p : Location) (w : D.World)
    → CapturedPost D M L.entry p w (capture_at D p w)
unfolding capture_at
capture_at-Post D M L p w = as_info-Post D M L.entry p w (D.lstat p w) (L.lstat_law p w)
