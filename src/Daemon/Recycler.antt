-- ===== src/Daemon/Recycler.antt =====
-- reverso/daemon/recycler.py: the decision on a session and one sweep. What the descendant probe
-- answers for a process is an argument; ending the process by signals is not modelled, and a sweep
-- is taken to run without a request in between. Times, Python's minutes, count ticks of a clock.
pub mod Sweep
use reverso_llm.Prelude.{ℕ, Bool, true, false, List, [], ◌∷◌, if◌then◌else◌}
use reverso_llm.Prelude.Int.{ℤ, ◌-ℤ◌, ltb_ℤ}
use reverso_llm.Daemon.Sessions.{Session, SessionTable, session_key, remove, all_sessions}

pub data RecycleDecision : Type 0 where
  recycle keep_active keep_busy_descendants : RecycleDecision

unfoldable pub decide_recycle : ℤ → ℤ → Bool → RecycleDecision
decide_recycle idle_minutes idle_threshold_minutes has_descendants =
    if ltb_ℤ idle_minutes idle_threshold_minutes
    then keep_active
    else if has_descendants
    then keep_busy_descendants
    else recycle

abbrev pub decision : ℤ → ℤ → (ℕ → Bool) → Session → RecycleDecision
decision now idle_threshold probe session =
    decide_recycle (now -ℤ session.last_request_at) idle_threshold (probe session.process)

-- The loop over the snapshot.
unfoldable pub sweep_all : ℤ → ℤ → (ℕ → Bool) → List Session → SessionTable → SessionTable
sweep_all now idle_threshold probe [] table = table
sweep_all now idle_threshold probe (session ∷ sessions) table =
    sweep_all now idle_threshold probe sessions (elim (decision now idle_threshold probe session) [
      | recycle ↦ remove session.key table
      | keep_active ↦ table
      | keep_busy_descendants ↦ table
    ])

unfoldable pub sweep : ℤ → ℤ → (ℕ → Bool) → SessionTable → SessionTable
sweep now idle_threshold probe table = sweep_all now idle_threshold probe (all_sessions table) table
