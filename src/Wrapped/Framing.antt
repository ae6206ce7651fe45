-- ===== src/Wrapped/Framing.antt =====
-- The headers of a body that was replaced, by what a client reads from them.
use reverso_llm.Prelude.{ℕ, List, [], ◌∷◌, ◌++◌, ◌≡◌, refl, arith, if◌then◌else◌}
use reverso_llm.Bytes.{
  Bytes, ascii, Header, is_header, without_content_length, content_lengths,
  content_lengths-without_content_length,
}
use reverso_llm.Bytes.Decimal.{decimal, read_digits, read_digits-decimal}
use reverso_llm.Wrapped.{with_content_length}

-- The headers that say nothing of a length.
unfoldable pub lengthless : List Header → List Header
lengthless [] = []
lengthless (header ∷ headers) =
    let rest = lengthless headers in
    if is_header "content-length" header then rest else header ∷ rest

-- What is sent for headers with a body: one content-length, which reads as the body's length, and
-- every other header as it was.
pub record IsFramed (headers sent : List Header) (length : ℕ) : Type 0 where
  pub framed :
      (value : Bytes) × (content_lengths sent ≡ value ∷ []) × (read_digits 0 value ≡ length)
  pub others : lengthless sent ≡ lengthless headers

lengthless-without_content_length :
    (headers : List Header) (value : Bytes)
    → lengthless (without_content_length headers ++ (ascii "content-length", value) ∷ [])
      ≡ lengthless headers
unfolding lengthless without_content_length
lengthless-without_content_length [] value = refl
lengthless-without_content_length (header ∷ headers) value =
    ground (arith, lengthless-without_content_length headers value)

pub with_content_length-IsFramed :
    (headers : List Header) (length : ℕ)
    → IsFramed headers (with_content_length headers length) length
unfolding with_content_length content_lengths
with_content_length-IsFramed headers length = record {
  framed = (
    decimal length,
    content_lengths-without_content_length headers _,
    read_digits-decimal length,
  );
  others = lengthless-without_content_length headers (decimal length);
}
