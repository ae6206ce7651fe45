-- ===== src/Mutations.antt =====
-- reverso/client_sync_mutations.py: what a path holds, the calls of the operating system that the
-- mutations make, and `_capture_at`. A path is the list of its parts, the leaf first.
pub mod Leaf
pub mod Group
pub mod Laws
use reverso_llm.Prelude.{
  ℕ, String, Bool, Option, none, some, List, [], ◌∷◌, arith, nat_eq, text_key, Bool-cases, inl, inr,
  Key, suc, zero,
}
use reverso_llm.Bytes.{Bytes}

pub data Kind : Type 0 where
  absent : Kind
  file : Kind
  directory : Kind
  symlink : Kind

-- `bytes | str | None`
pub data Data : Type 0 where
  nothing : Data
  octets : Bytes → Data
  target : String → Data

pub record FileState : Type 0 where
  pub kind : Kind
  pub contents : Data
  pub mode : Option ℕ

abbrev pub Location : Type 0
Location = List String

key_discrete : {K : Type 0} → Key K → Discrete K
key_discrete key j k = elim (Bool-cases (key.same j k)) [
  | inl e ↦ yes ((key.same_iff j k).0 e)
  | inr e ↦ no (λ p. absurd (ground (arith, e, (key.same_iff j k).1 p)))
]

number_key : Key ℕ
number_key = record { same = nat_eq; same_iff = λ j k. ground arith }

number_discrete : Discrete ℕ
number_discrete = key_discrete number_key

text_discrete : Discrete String
text_discrete = key_discrete text_key

pub state_discrete : Discrete FileState
state_discrete = hlevel (number_discrete, text_discrete)

pub kind_discrete : Discrete Kind
kind_discrete = hlevel

pub location_discrete : Discrete Location
location_discrete = hlevel text_discrete

-- `OSError` by what the code tells apart: `FileExistsError`, `FileNotFoundError` and the rest.
pub data Fault : Type 0 where
  exists : Fault
  not_found : Fault
  other : Fault

pub data Answer (A : Type 0) : Type 0 where
  answer : A → Answer A
  fails : Fault → Answer A

pub data Ran (World : Type 0) : Type 0 where
  done : World → Ran World
  failed : Fault → World → Ran World

-- What `lstat` tells: the type of the object and its mode.
pub data Info : Type 0 where
  link_info : ℕ → Info
  regular_info : ℕ → Info
  directory_info : ℕ → Info
  special_info : Info

-- The operating system: a call that reads leaves the disk as it is, a call that writes answers the
-- disk behind it, also when it fails. `token` is `secrets.token_hex(8)`.
pub record Disk : Type 1 where
  pub World : Type 0
  pub lstat : Location → World → Answer Info
  pub readlink : Location → World → Answer String
  pub read : Location → World → Answer Bytes
  pub open_directory : Location → World → Answer (Unit {0})
  pub token : World → String × World
  pub create : Location → ℕ → World → Ran World
  pub fchmod : Location → ℕ → World → Ran World
  pub write : Location → Bytes → World → Ran World
  pub link : Location → Location → World → Ran World
  pub make_symlink : String → Location → World → Ran World
  pub mkdir : Location → ℕ → World → Ran World
  pub unlink : Location → World → Ran World
  pub rmdir : Location → World → Ran World
  pub rename : Location → Location → World → Ran World
  -- `str` of bytes
  pub str_bytes : Bytes → String

-- `_TransitionGuard`
pub record TransitionGuard : Type 0 where
  pub path : Location
  pub state : FileState
  pub target_path : Location

-- What the operations raise.
pub data Raised : Type 0 where
  os_error : Fault → Raised
  runtime_error : Raised
  state_changed : (transitioned : Bool) → Raised
  guard_apply_failed : TransitionGuard → (target_transitioned : Bool) → Raised
  guard_cleanup_failed : TransitionGuard → Raised

abbrev pub absent_state : FileState
absent_state = record { kind = absent; contents = nothing; mode = none }

-- `file_state` of bytes, `directory_state` and `symlink_state`
abbrev pub file_state : Bytes → ℕ → FileState
file_state content mode = record { kind = file; contents = octets content; mode = some mode }

abbrev pub directory_state : ℕ → FileState
directory_state mode = record { kind = directory; contents = nothing; mode = some mode }

abbrev pub symlink_state : String → FileState
symlink_state text = record { kind = symlink; contents = target text; mode = none }

-- `state.mode or default`
abbrev pub mode_or : ℕ → Option ℕ → ℕ
mode_or default none = default
mode_or default (some zero) = default
mode_or default (some (suc m)) = suc m

-- `state.data if isinstance(state.data, bytes) else b""`
abbrev pub bytes_of : Data → Bytes
bytes_of (octets b) = b
bytes_of nothing = []
bytes_of (target t) = []

-- `str(state.data)`
abbrev pub text_of : Disk → Data → String
text_of D (target t) = t
text_of D nothing = "None"
text_of D (octets b) = D.str_bytes b

-- What was read, or what the reading raised.
pub data Captured : Type 0 where
  holds : FileState → Captured
  unread : Raised → Captured

module _ (D : Disk) where
  unfoldable pub as_link : ℕ → Answer String → Captured
  as_link m (answer t) = holds (record { kind = symlink; contents = target t; mode = some m })
  as_link m (fails e) = unread (os_error e)

  unfoldable pub as_file : ℕ → Answer Bytes → Captured
  as_file m (answer b) = holds (record { kind = file; contents = octets b; mode = some m })
  as_file m (fails e) = unread (os_error e)

  unfoldable pub as_info : Location → D.World → Answer Info → Captured
  as_info path w (fails not_found) = holds absent_state
  as_info path w (fails exists) = unread (os_error exists)
  as_info path w (fails other) = unread (os_error other)
  as_info path w (answer (link_info m)) = as_link m (D.readlink path w)
  as_info path w (answer (regular_info m)) = as_file m (D.read path w)
  as_info path w (answer (directory_info m)) =
      holds (record { kind = directory; contents = nothing; mode = some m })
  as_info path w (answer special_info) = unread runtime_error

  unfoldable pub capture_at : Location → D.World → Captured
  capture_at path w = as_info path w (D.lstat path w)

  -- `path.lstat()`, `os.readlink(path)` and `path.read_bytes()` are the same calls, by the path.
  unfoldable pub capture_state : Location → D.World → Captured
  capture_state path w = capture_at path w
