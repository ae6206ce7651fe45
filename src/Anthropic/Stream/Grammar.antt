-- ===== src/Anthropic/Stream/Grammar.antt =====
-- The streaming grammar that Anthropic clients read, as an automaton over the emitted events:
-- message_start, one ping, content blocks numbered from 0, each closed before the next is opened,
-- then message_delta and message_stop, or an error.
use reverso_llm.Prelude.{
  ℕ, suc, Bool, false, Option, none, some, List, [], ◌∷◌, ◌++◌, ◌≡◌, refl, nat_eq, if◌then◌else◌,
  ◌==◌, text_key,
}
use reverso_llm.Prelude.Int.{ℤ, pos, negsuc}
use reverso_llm.Anthropic.Stream.{
  BlockKind, text, tool_use, AnthropicEvent, message_start, ping, text_start, tool_start,
  text_delta, input_json_delta, block_stop, message_delta, message_stop, error,
}

pub data Phase : Type 0 where
  fresh greeted closing over bad : Phase
  -- so many blocks were opened, and the last is still open if a kind is given
  body : ℕ → Option BlockKind → Phase

abbrev pub is_index : ℤ → ℕ → Bool
is_index (pos i) n = nat_eq i n
is_index (negsuc _) n = false

abbrev pub read_body : ℕ → Option BlockKind → AnthropicEvent → Phase
read_body n none (text_start i) = if is_index i n then body (suc n) (some text) else bad
read_body n none (tool_start i _ _) = if is_index i n then body (suc n) (some tool_use) else bad
read_body n none (message_delta _ _) = closing
read_body n none (error _) = over
read_body (suc n) (some text) (text_delta i delta) =
    if delta == "" then bad else if is_index i n then body (suc n) (some text) else bad
read_body (suc n) (some tool_use) (input_json_delta i delta) =
    if delta == "" then bad else if is_index i n then body (suc n) (some tool_use) else bad
read_body (suc n) (some _) (block_stop i) = if is_index i n then body (suc n) none else bad
read_body _ _ _ = bad

abbrev pub read : Phase → AnthropicEvent → Phase
read fresh (message_start _ _) = greeted
read greeted ping = body 0 none
read (body n k) e = read_body n k e
read closing message_stop = over
read _ _ = bad

abbrev pub read_all : Phase → List AnthropicEvent → Phase
read_all p [] = p
read_all p (e ∷ es) = read_all (read p e) es

-- A whole, well-formed stream.
abbrev pub IsWellFormed : List AnthropicEvent → Type 0
IsWellFormed es = read_all fresh es ≡ over

pub read_all-append :
    (p : Phase) (xs ys : List AnthropicEvent) → read_all p (xs ++ ys) ≡ read_all (read_all p xs) ys
read_all-append p [] ys = refl
read_all-append p (x ∷ xs) ys = read_all-append (read p x) xs ys
