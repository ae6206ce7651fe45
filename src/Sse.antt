-- ===== src/Sse.antt =====
-- `SSEEvent` of reverso/protocols/adapter.py: the event's name and its decoded payload. (`raw`,
-- the wire bytes of a forwarded event, is read by no modelled code.)
use reverso_llm.Prelude.{String}
use reverso_llm.Json.{Json}

pub record SseEvent : Type 0 where
  pub event : String
  pub payload : Json
