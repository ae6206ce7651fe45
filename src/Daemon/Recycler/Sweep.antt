-- ===== src/Daemon/Recycler/Sweep.antt =====
-- Which sessions a sweep of recycler.py removes.
use reverso_llm.Prelude.{
  ℕ, Bool, false, not, none, List, [], ◌∷◌, ◌≡◌, ◌∙◌, refl, if◌then◌else◌, ◌==◌, any, arith,
}
use reverso_llm.Prelude.Int.{ℤ, ◌-ℤ◌, ltb_ℤ}
use reverso_llm.Prelude.Dict
use reverso_llm.Daemon.Sessions.{
  SessionKey, Session, SessionTable, session_key, remove, all_sessions,
}
use reverso_llm.Daemon.Recycler.{
  recycle, keep_active, keep_busy_descendants, decision, decide_recycle, sweep_all, sweep,
}

-- Idle for the threshold or longer, with no live descendant.
abbrev pub is_abandoned : ℤ → ℤ → (ℕ → Bool) → SessionKey → Session → Bool
is_abandoned now threshold probe key session =
    if session.key == key
    then (if ltb_ℤ (now -ℤ session.last_request_at) threshold
        then false
        else not (probe session.process))
    else false

get-recycled :
    (now threshold : ℤ) (probe : ℕ → Bool) (key : SessionKey) (s : Session) (table : SessionTable)
    → Dict.get key (elim (decision now threshold probe s) [
      | recycle ↦ remove s.key table
      | keep_active ↦ table
      | keep_busy_descendants ↦ table
    ])
      ≡ (if is_abandoned now threshold probe key s then none else Dict.get key table)
unfolding decide_recycle
get-recycled now threshold probe key s table = ground (arith, Dict.get-pop s.key key table)

get-sweep_all :
    (now threshold : ℤ) (probe : ℕ → Bool) (key : SessionKey) (sessions : List Session)
    (table : SessionTable)
    → Dict.get key (sweep_all now threshold probe sessions table)
      ≡ (if any (is_abandoned now threshold probe key) sessions then none else Dict.get key table)
unfolding sweep_all any
get-sweep_all now threshold probe key [] table = refl
get-sweep_all now threshold probe key (s ∷ ss) table =
    get-sweep_all now threshold probe key ss _
    ∙ rw (get-recycled now threshold probe key s table) (ground arith)

-- A sweep removes a key exactly if a session of the table under that key has had no request for the
-- threshold or longer and its process has no live descendant; every other key has the session that it
-- had.
pub get-sweep :
    (now threshold : ℤ) (probe : ℕ → Bool) (key : SessionKey) (table : SessionTable)
    → Dict.get key (sweep now threshold probe table) ≡ (
        if any (is_abandoned now threshold probe key) (all_sessions table)
        then none
        else Dict.get key table)
unfolding sweep
get-sweep now threshold probe key table =
    get-sweep_all now threshold probe key (all_sessions table) table
