-- ===== src/Chat.antt =====
-- reverso/protocols/openai_chat.py: the translations between Responses and chat completions.
pub mod Requests
pub mod Replies
