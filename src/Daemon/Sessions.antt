-- ===== src/Daemon/Sessions.antt =====
-- reverso/daemon/session_table.py. A method runs under the table's lock, so a call is one step; the
-- process that the spawn function starts, or its exception, and the clock's answer are arguments.
pub mod Again
use reverso_llm.Prelude.{
  ℕ, String, Bool, true, false, Option, none, some, List, [], ◌∷◌, ◌≡◌, ◌↔◌, if◌then◌else◌, ◌==◌,
  Key, text_key, arith,
}
use reverso_llm.Prelude.Int.{ℤ}
use reverso_llm.Prelude.Dict
use reverso_llm.Prelude.Dict.{Dict}
use reverso_llm.Outcome.{Outcome, ok, raised}

-- (machine_id, workspace, provider)
pub record SessionKey : Type 0 where
  pub machine_id : String
  pub workspace : String
  pub provider : String

abbrev same_session : SessionKey → SessionKey → Bool
same_session a b =
    if a.machine_id == b.machine_id
    then (if a.workspace == b.workspace then a.provider == b.provider else false)
    else false

pub same_session_iff : (a b : SessionKey) → (same_session a b ≡ true) ↔ (a ≡ b)
same_session_iff a b = ground (
  arith,
  text_key.same_iff a.machine_id b.machine_id,
  text_key.same_iff a.workspace b.workspace,
  text_key.same_iff a.provider b.provider,
)

instance abbrev pub session_key : Key SessionKey
session_key = record { same = same_session; same_iff = same_session_iff }

-- `process` is the process's id.
pub record Session : Type 0 where
  pub key : SessionKey
  pub process : ℕ
  pub spawned_at : ℤ
  pub last_request_at : ℤ
  pub turn_count : ℕ
  pub cli_session_id : Option String

abbrev pub SessionTable : Type 0
SessionTable = Dict SessionKey Session

create : SessionKey → Outcome ℕ → ℤ → SessionTable → Outcome Session × SessionTable
create key (raised x) now table = (raised x, table)
create key (ok process) now table =
    let session : Session = record {
      key = key;
      process = process;
      spawned_at = now;
      last_request_at = now;
      turn_count = 0;
      cli_session_id = none;
    } in
    (ok session, Dict.put key session table)

unfoldable pub get_or_create :
    String → String → String → Outcome ℕ → ℤ → SessionTable → Outcome Session × SessionTable
unfolding create
get_or_create machine_id workspace provider spawned now table =
    let key : SessionKey = record {
      machine_id = machine_id;
      workspace = workspace;
      provider = provider;
    } in
    elim (Dict.get key table) [
      | some session ↦ (ok session, table)
      | none ↦ create key spawned now table
    ]

abbrev pub remove : SessionKey → SessionTable → SessionTable
remove key table = Dict.pop key table

unfoldable pub all_sessions : SessionTable → List Session
all_sessions [] = []
all_sessions ((key, session) ∷ table) = session ∷ all_sessions table
