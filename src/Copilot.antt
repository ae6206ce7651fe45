-- ===== src/Copilot.antt =====
-- reverso/protocols/copilot_models.py: which model ids are sent to GitHub Copilot, and to which of its
-- endpoints. An id is the list of its code points.
use reverso_llm.Prelude.{
  ℕ, zero, suc, Bool, true, false, ◌&&◌, ◌||◌, Option, none, some, [], ◌∷◌, ◌++◌, map, ◌≡◌, refl,
  arith, if◌then◌else◌, leb, length,
}
use reverso_llm.Bytes.{Bytes, ascii, lower_byte, drop}
use reverso_llm.Bytes.Search.{starts_with}

-- Printable ASCII and no space.
unfoldable pub has_safe_model_id_chars : Bytes → Bool
has_safe_model_id_chars [] = true
has_safe_model_id_chars (c ∷ s) =
    let rest = has_safe_model_id_chars s in if leb 33 c && leb c 126 then rest else false

-- s.removeprefix(p)
abbrev pub without_prefix : Bytes → Bytes → Bytes
without_prefix p s = if starts_with p s then drop (length p) s else s

gpt_only : Bytes → Option Bytes
gpt_only model_id = if starts_with (ascii "gpt-") model_id then some model_id else none

respelled : Bytes → Option Bytes
unfolding gpt_only
respelled suffix =
    if starts_with (ascii ".") suffix || starts_with (ascii "-") suffix
    then gpt_only (ascii "gpt-5" ++ suffix)
    else none

checked : Bytes → Option Bytes
unfolding respelled gpt_only
checked model_id =
    if has_safe_model_id_chars model_id
    then (if starts_with (ascii "gpt5") model_id
        then respelled (drop 4 model_id)
        else gpt_only model_id)
    else none

unfoldable pub canonical_copilot_responses_model : Bytes → Option Bytes
unfolding checked
canonical_copilot_responses_model model_id = checked (without_prefix (ascii "copilot/") model_id)

unfoldable pub is_copilot_chat_model_id : Bytes → Bool
is_copilot_chat_model_id model_id =
    let lowered = map lower_byte model_id in
    has_safe_model_id_chars model_id
    && (starts_with (ascii "claude") lowered || starts_with (ascii "gemini") lowered)

pub data Route : Type 0 where
  responses : Route
  chat : Route

unfoldable pub copilot_model_route : Bytes → Option Route
copilot_model_route model_id = elim (canonical_copilot_responses_model model_id) [
  | some _ ↦ some responses
  | none ↦ if is_copilot_chat_model_id model_id then some chat else none
]

safe-drop :
    (n : ℕ) (s : Bytes)
    → has_safe_model_id_chars s ≡ true
    → has_safe_model_id_chars (drop n s) ≡ true
unfolding has_safe_model_id_chars
safe-drop zero s h = h
safe-drop (suc n) [] h = refl
safe-drop (suc n) (c ∷ s) h = safe-drop n s (tail c s h)
  where
    tail :
        (c : ℕ) (s : Bytes)
        → has_safe_model_id_chars (c ∷ s) ≡ true
        → has_safe_model_id_chars s ≡ true
    tail c s h = ground arith

canonical-gpt :
    (s : Bytes)
    → has_safe_model_id_chars s ≡ true
    → starts_with (ascii "gpt-") s ≡ true
    → canonical_copilot_responses_model s ≡ some s
unfolding canonical_copilot_responses_model checked respelled gpt_only starts_with
canonical-gpt [] safe gpt = ground arith
canonical-gpt (c ∷ []) safe gpt = ground arith
canonical-gpt (c ∷ d ∷ []) safe gpt = ground arith
canonical-gpt (c ∷ d ∷ e ∷ []) safe gpt = ground arith
canonical-gpt (c ∷ d ∷ e ∷ f ∷ s) safe gpt = ground arith

canonical-safe :
    (model_id sent : Bytes)
    → canonical_copilot_responses_model model_id ≡ some sent
    → (has_safe_model_id_chars sent ≡ true) × (starts_with (ascii "gpt-") sent ≡ true)
unfolding canonical_copilot_responses_model checked respelled gpt_only has_safe_model_id_chars
canonical-safe model_id sent h =
    ground (arith, safe-drop 4 (without_prefix (ascii "copilot/") model_id))

-- What is sent to the Responses endpoint under a canonical id is `gpt-` and more of printable ASCII
-- without spaces, and is its own canonical id; an id that goes to the chat endpoint is printable ASCII
-- without spaces too. So no id carries a line end to the upstream.
pub canonical-copilot_model_route :
    (model_id sent chat_id : Bytes)
    → canonical_copilot_responses_model model_id ≡ some sent
    → copilot_model_route chat_id ≡ some chat
    → (has_safe_model_id_chars sent ≡ true)
      × (starts_with (ascii "gpt-") sent ≡ true)
      × (canonical_copilot_responses_model sent ≡ some sent)
      × (has_safe_model_id_chars chat_id ≡ true)
unfolding copilot_model_route is_copilot_chat_model_id
canonical-copilot_model_route model_id sent chat_id h chat_routed =
    let (safe, gpt) = canonical-safe model_id sent h in
    (safe, gpt, canonical-gpt sent safe gpt, ground arith)
