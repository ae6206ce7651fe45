-- ===== src/Chat/Replies/Usage.antt =====
-- The token counts of a chat completion on their way to Responses and back, in openai_chat.py.
use reverso_llm.Prelude.{◌≡◌, refl}
use reverso_llm.Json.{obj, Fields, get, has}
use reverso_llm.Chat.Replies.{responses_usage, usage_to_chat, fields_or_end}

-- A usage that comes from a chat completion survives the way back to chat names and again to
-- Responses names, whatever fields it lacks; and a usage that has been sent back to chat names
-- survives the way to Responses names and back.
pub responses_usage-usage_to_chat :
    (usage : Fields)
    → (responses_usage (usage_to_chat (fields_or_end (responses_usage (obj usage))))
        ≡ responses_usage (obj usage))
      × (usage_to_chat (fields_or_end (responses_usage (usage_to_chat usage)))
          ≡ usage_to_chat usage)
unfolding responses_usage usage_to_chat get has
responses_usage-usage_to_chat usage = (refl, refl)
