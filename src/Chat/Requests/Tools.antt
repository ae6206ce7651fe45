-- ===== src/Chat/Requests/Tools.antt =====
-- Tools and tool choices in chat format, in openai_chat.py.
use reverso_llm.Prelude.{◌≡◌, refl, arith}
use reverso_llm.Json.{Json, null, bool, int, real, str, arr, obj, Items, nil, cons, items, get, has}
use reverso_llm.Chat.Requests.{chat_tools, chat_tool_choice}

chat_tools_idem : (tools : Items) → chat_tools (items (chat_tools tools)) ≡ chat_tools tools
unfolding chat_tools has get
chat_tools_idem nil = refl
chat_tools_idem (cons (obj tool) tools) = ground (arith, chat_tools_idem tools)
chat_tools_idem (cons null tools) = chat_tools_idem tools
chat_tools_idem (cons (bool _) tools) = chat_tools_idem tools
chat_tools_idem (cons (int _) tools) = chat_tools_idem tools
chat_tools_idem (cons (real _ _) tools) = chat_tools_idem tools
chat_tools_idem (cons (str _) tools) = chat_tools_idem tools
chat_tools_idem (cons (arr _) tools) = chat_tools_idem tools

chat_tool_choice_idem :
    (choice : Json) → chat_tool_choice (chat_tool_choice choice) ≡ chat_tool_choice choice
unfolding chat_tool_choice has get
chat_tool_choice_idem (obj choice) = ground arith
chat_tool_choice_idem null = refl
chat_tool_choice_idem (bool _) = refl
chat_tool_choice_idem (int _) = refl
chat_tool_choice_idem (real _ _) = refl
chat_tool_choice_idem (str _) = refl
chat_tool_choice_idem (arr _) = refl

-- Tools and a tool choice that are already in chat format pass unchanged: what the translations
-- give, whatever they are given, they give again when it is translated once more.
pub chat_tools-chat_tools :
    (tools : Items) (choice : Json)
    → (chat_tools (items (chat_tools tools)) ≡ chat_tools tools)
      × (chat_tool_choice (chat_tool_choice choice) ≡ chat_tool_choice choice)
chat_tools-chat_tools tools choice = (chat_tools_idem tools, chat_tool_choice_idem choice)
