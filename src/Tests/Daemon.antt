-- ===== src/Tests/Daemon.antt =====
-- A table of an idle session, an idle one with a running descendant, and an active one.
use reverso_llm.Prelude.{ℕ, String, Bool, none, some, [], ◌∷◌, ◌≡◌, if◌then◌else◌, nat_eq, any}
use reverso_llm.Prelude.Int.{ℤ, pos, ◌-ℤ◌}
use reverso_llm.Prelude.Dict
use reverso_llm.Daemon.Sessions.{SessionKey, Session, SessionTable, session_key, all_sessions}
use reverso_llm.Daemon.Recycler.{sweep}
use reverso_llm.Daemon.Recycler.Sweep.{is_abandoned, get-sweep}

abbrev in_workspace : String → SessionKey
in_workspace workspace = record { machine_id = "host"; workspace = workspace; provider = "claude" }

abbrev session : String → ℕ → ℤ → Session
session workspace process last = record {
  key = in_workspace workspace;
  process = process;
  spawned_at = pos 0;
  last_request_at = last;
  turn_count = 1;
  cli_session_id = none;
}

abbrev table : SessionTable
table =
    (in_workspace "idle", session "idle" 1 (pos 10))
    ∷ (in_workspace "busy", session "busy" 2 (pos 10))
    ∷ (in_workspace "active", session "active" 3 (pos 90))
    ∷ []

abbrev has_descendants : ℕ → Bool
has_descendants process = nat_eq process 2

get-sweep_example :
    Dict.get (in_workspace "idle") (sweep (pos 100) (pos 30) has_descendants table) ≡ (
      if any
        (is_abandoned (pos 100) (pos 30) has_descendants (in_workspace "idle"))
        (all_sessions table)
      then none
      else Dict.get (in_workspace "idle") table)
get-sweep_example = get-sweep (pos 100) (pos 30) has_descendants (in_workspace "idle") table

idle_is_removed :
    Dict.get (in_workspace "idle") (sweep (pos 100) (pos 30) has_descendants table) ≡ none
unfolding any all_sessions ◌-ℤ◌
idle_is_removed = get-sweep (pos 100) (pos 30) has_descendants (in_workspace "idle") table

busy_is_kept :
    Dict.get (in_workspace "busy") (sweep (pos 100) (pos 30) has_descendants table)
    ≡ some (session "busy" 2 (pos 10))
unfolding any all_sessions Dict.get ◌-ℤ◌
busy_is_kept = get-sweep (pos 100) (pos 30) has_descendants (in_workspace "busy") table
