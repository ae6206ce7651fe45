-- ===== src/Bytes.antt =====
-- Python's bytes, and the ASGI headers that hold them. A text that stands for bytes is ASCII.
pub mod Search
pub mod Decimal
use Prim.Native.Char.{code}
use Prim.Native.String
use reverso_llm.Prelude.{
  ℕ, zero, suc, ◌+◌, ◌-◌, String, Bool, true, false, not, ◌&&◌, List, [], ◌∷◌, ◌++◌, ◌≡◌, refl,
  arith, if◌then◌else◌, leb, nat_eq, map, length, ap,
}

abbrev pub Bytes : Type 0
Bytes = List ℕ

-- The bytes of a literal.
abbrev pub ascii : String → Bytes
ascii String.[] = []
ascii (String.◌∷◌ c s) = code c ∷ ascii s

-- s[n:]
abbrev pub drop : ℕ → Bytes → Bytes
drop zero s = s
drop (suc n) [] = []
drop (suc n) (c ∷ s) = drop n s

-- s[-n:], for a positive n, and nothing for 0
abbrev pub last : ℕ → Bytes → Bytes
last n s = drop (length s - n) s

-- What is left of some bytes up to the nth: s[:n].
abbrev pub front : ℕ → Bytes → Bytes
front zero s = []
front (suc n) [] = []
front (suc n) (c ∷ s) = c ∷ front n s

abbrev pub bytes_eq : Bytes → Bytes → Bool
bytes_eq [] [] = true
bytes_eq [] (d ∷ t) = false
bytes_eq (c ∷ s) [] = false
bytes_eq (c ∷ s) (d ∷ t) = if nat_eq c d then bytes_eq s t else false

-- bytes.lower(), on ASCII letters
abbrev pub lower_byte : ℕ → ℕ
lower_byte c = if leb b'A' c && leb c b'Z' then c + 32 else c

abbrev pub lower : Bytes → Bytes
lower s = map lower_byte s

abbrev pub Header : Type 0
Header = Bytes × Bytes

-- key.lower() == name
abbrev pub is_header : String → Header → Bool
is_header name header = bytes_eq (lower header.0) (ascii name)

-- `_without_content_length`, and the filter of `_headers_with_content_length`
unfoldable pub without_content_length : List Header → List Header
without_content_length [] = []
without_content_length (header ∷ headers) =
    let rest = without_content_length headers in
    if is_header "content-length" header then rest else header ∷ rest

-- The content-length headers among some.
unfoldable pub content_lengths : List Header → List Bytes
content_lengths [] = []
content_lengths (header ∷ headers) =
    let rest = content_lengths headers in
    if is_header "content-length" header then header.1 ∷ rest else rest

pub content_lengths-without_content_length :
    (headers more : List Header)
    → content_lengths (without_content_length headers ++ more) ≡ content_lengths more
unfolding content_lengths without_content_length
content_lengths-without_content_length [] more = refl
content_lengths-without_content_length (header ∷ headers) more =
    ground (arith, content_lengths-without_content_length headers more)

pub front-drop : (n : ℕ) (s : Bytes) → front n s ++ drop n s ≡ s
front-drop zero s = refl
front-drop (suc n) [] = refl
front-drop (suc n) (c ∷ s) = ap (λ rest. c ∷ rest) (front-drop n s)
