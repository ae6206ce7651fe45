-- ===== src/Wrapped.antt =====
-- The messages that an application sends through the middleware of reverso/middleware/, and the headers
-- of a body that was replaced.
pub mod Errors
pub mod Framing
pub mod Models
use reverso_llm.Prelude.{ℕ, Bool, true, false, List, [], ◌∷◌, ◌++◌, ◌≡◌, refl, arith}
use reverso_llm.Bytes.{
  Bytes, ascii, Header, without_content_length, content_lengths,
  content_lengths-without_content_length,
}
use reverso_llm.Bytes.Decimal.{decimal}

pub data Message : Type 0 where
  start : (status : ℕ) → List Header → Message
  body : Bytes → (more_body : Bool) → Message
  other : Message

-- `_with_content_length`
unfoldable pub with_content_length : List Header → ℕ → List Header
with_content_length headers length =
    without_content_length headers ++ (ascii "content-length", decimal length) ∷ []

-- A reply in bodies, all but the last with more to come.
unfoldable pub bodies : List Bytes → Bytes → List Message
bodies [] last_chunk = body last_chunk false ∷ []
bodies (chunk ∷ chunks) last_chunk = body chunk true ∷ bodies chunks last_chunk

abbrev pub joined : List Bytes → Bytes → Bytes
joined [] last_chunk = last_chunk
joined (chunk ∷ chunks) last_chunk = chunk ++ joined chunks last_chunk

pub without_content_length_twice :
    (headers : List Header)
    → without_content_length (without_content_length headers) ≡ without_content_length headers
unfolding without_content_length
without_content_length_twice [] = refl
without_content_length_twice (header ∷ headers) =
    ground (arith, without_content_length_twice headers)
