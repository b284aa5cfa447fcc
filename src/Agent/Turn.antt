-- ===== src/Agent/Turn.antt =====
-- The current turn of a conversation in backend/agent/nodes.py: what the nodes look for behind the
-- newest message of the user.
use package.text.Mathlib.Text.{starts_with}
use mathlib.Core.List.{reverse}
use engineering_memory_agent.Common.{
  Bool, true, false, ◌&&◌, ◌||◌, String, Option, none, some, List, [], ◌∷◌, any, str_eq,
  if◌then◌else◌,
}
use engineering_memory_agent.Common.Text.{strip}
use engineering_memory_agent.Agent.Message.{
  ToolCall, Block, Message, system, human, ai, tool, other, str_content, is_human,
}
use engineering_memory_agent.Agent.Approval.{among}
use engineering_memory_agent.Agent.Envelope.{Json, text, object, array, scalar, lookup}

abbrev pub write_memory_tool : String
write_memory_tool = "write_memory_tool"

-- `_is_new_user_turn`, over the messages from the newest on.
abbrev pub newest_is_human : List Message → Bool
newest_is_human [] = false
newest_is_human (m ∷ ms) = is_human m

unfoldable pub is_new_user_turn : List Message → Bool
is_new_user_turn messages = newest_is_human (reverse messages)

-- The messages from the newest on, up to the newest one of the user and with it, or all.
unfoldable pub until_human : List Message → List Message
until_human [] = []
until_human (m ∷ ms) = let rest = until_human ms in if is_human m then m ∷ [] else m ∷ rest

-- `messages[start:]`
unfoldable pub this_turn : List Message → List Message
unfolding until_human
this_turn messages = reverse (until_human (reverse messages))

-- `_latest_tool_message_is_approval_notice`, over the messages from the newest on.
abbrev pub is_notice : String → Bool
is_notice s =
    starts_with s "[REJECTED]" || starts_with s "[APPROVED]" || starts_with s "[CANCELLED]"

unfoldable pub notice_in : (List Block → String) → List Message → Bool
notice_in repr [] = false
notice_in repr (m ∷ ms) =
    let rest = notice_in repr ms in
    elim m [
      | system _ ↦ rest
      | human _ ↦ false
      | ai _ ↦ rest
      | tool t ↦ is_notice (str_content repr t.content) || rest
      | other _ ↦ rest
    ]

unfoldable pub latest_tool_message_is_approval_notice : (List Block → String) → List Message → Bool
unfolding notice_in
latest_tool_message_is_approval_notice repr messages = notice_in repr (reverse messages)

-- `_last_human_content`, over the messages from the newest on.
unfoldable pub human_content : (List Block → String) → List Message → String
human_content repr [] = ""
human_content repr (m ∷ ms) =
    let rest = human_content repr ms in
    elim m [
      | system _ ↦ rest
      | human c ↦ strip (str_content repr c)
      | ai _ ↦ rest
      | tool _ ↦ rest
      | other _ ↦ rest
    ]

unfoldable pub last_human_content : (List Block → String) → List Message → String
unfolding human_content
last_human_content repr messages = human_content repr (reverse messages)

abbrev pub uses_write_tool : Message → Bool
uses_write_tool m = elim m [
  | system _ ↦ false
  | human _ ↦ false
  | ai a ↦ any (λ (c : ToolCall). str_eq c.name write_memory_tool) a.tool_calls
  | tool t ↦ str_eq t.name write_memory_tool
  | other _ ↦ false
]

unfoldable pub write_tool_used_this_turn : List Message → Bool
unfolding this_turn
write_tool_used_this_turn messages = any uses_write_tool (this_turn messages)

-- `data.get("action") in (...)`, of a text action.
abbrev pub is_settled_action : Json → Bool
is_settled_action (text s) = among ("inserted" ∷ "merged" ∷ "duplicate" ∷ []) s
is_settled_action (object _) = false
is_settled_action (array _) = false
is_settled_action (scalar _) = false

abbrev pub is_settled_json : Option Json → Bool
is_settled_json none = false
is_settled_json (some (text _)) = false
is_settled_json (some (object fs)) = elim (lookup "action" fs) [
  | none ↦ false
  | some v ↦ is_settled_action v
]
is_settled_json (some (array _)) = false
is_settled_json (some (scalar _)) = false

abbrev pub is_settled_write : (List Block → String) → (String → Option Json) → Message → Bool
is_settled_write repr loads m = elim m [
  | system _ ↦ false
  | human _ ↦ false
  | ai _ ↦ false
  | tool t ↦ str_eq t.name write_memory_tool && elim t.conflict_resolution [
    | none ↦ is_settled_json (loads (str_content repr t.content))
    | some r ↦ if str_eq r "" then is_settled_json (loads (str_content repr t.content)) else true
  ]
  | other _ ↦ false
]

unfoldable pub write_succeeded_this_turn :
    (List Block → String) → (String → Option Json) → List Message → Bool
unfolding this_turn
write_succeeded_this_turn repr loads messages =
    any (is_settled_write repr loads) (this_turn messages)
