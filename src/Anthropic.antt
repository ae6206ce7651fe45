-- ===== src/Anthropic.antt =====
-- The inbound Anthropic Messages surface (reverso/protocols/anthropic_*.py).
pub mod Stream
pub mod Requests
pub mod Replies
