-- ===== src/Paths.antt =====
-- `_is_responses_path` of reverso/middleware/, on the path's code points.
use reverso_llm.Prelude.{Bool, [], ◌∷◌, String, if◌then◌else◌, nat_eq, length}
use reverso_llm.Bytes.{Bytes, ascii, bytes_eq, last}

-- path.rstrip("/")
unfoldable pub without_slashes : Bytes → Bytes
without_slashes [] = []
without_slashes (c ∷ s) = elim (without_slashes s) [
  | [] ↦ if nat_eq c b'/' then [] else c ∷ []
  | d ∷ rest ↦ c ∷ d ∷ rest
]

-- s.endswith(p)
abbrev pub ends_with : Bytes → Bytes → Bool
ends_with p s = bytes_eq (last (length p) s) p

unfoldable pub is_responses_path : String → Bool
unfolding without_slashes
is_responses_path path = ends_with (ascii "/responses") (without_slashes (ascii path))
