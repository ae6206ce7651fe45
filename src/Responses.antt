-- ===== src/Responses.antt =====
-- The Responses protocol seam: envelopes and their store (reverso/protocols/adapter.py, store.py),
-- and the replay of a turn as server-sent events (replay.py).
pub mod Store
pub mod Generator
pub mod Prompts
pub mod Replay
pub mod Incremental
