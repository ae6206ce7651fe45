-- ===== src/Daemon.antt =====
-- The session daemon: its table of sessions (reverso/daemon/session_table.py) and the sweep that
-- recycles them (recycler.py).
pub mod Sessions
pub mod Recycler
