-- ===== src/Agent/Message.antt =====
-- The messages of the agent's state (backend/agent/state.py), as langchain holds them, and the reading
-- of their content in backend/agent/nodes.py.
use mathlib.Core.List.{reverse}
use engineering_memory_agent.Common.{Bool, true, false, String, Option, none, some, List, [], ◌∷◌}
use engineering_memory_agent.Common.Dict.{Dict}

-- A tool call of an assistant message. The values of its arguments are in their `str` form.
pub record ToolCall : Type 0 where
  pub id : String
  pub name : String
  pub args : Dict String String

-- A block of a content that is a list: a dict of type text, an object with a text, or another one.
pub data Block : Type 0 where
  text_block object_block : String → Block
  other_block : Block

pub data MessageContent : Type 0 where
  text : String → MessageContent
  blocks : List Block → MessageContent

-- `llm_error` is the mark `_LLM_ERROR_MARKER` of the additional arguments.
pub record AiMessage : Type 0 where
  pub id : Option String
  pub content : MessageContent
  pub tool_calls : List ToolCall
  pub llm_error : Bool

-- `conflict_resolution` is the key of that name of the additional arguments.
pub record ToolMessage : Type 0 where
  pub id : Option String
  pub tool_call_id : String
  pub name : String
  pub content : MessageContent
  pub conflict_resolution : Option String

pub data Message : Type 0 where
  system human : MessageContent → Message
  ai : AiMessage → Message
  tool : ToolMessage → Message
  other : MessageContent → Message

abbrev pub is_system : Message → Bool
is_system m = elim m [
  | system _ ↦ true
  | human _ ↦ false
  | ai _ ↦ false
  | tool _ ↦ false
  | other _ ↦ false
]

abbrev pub is_human : Message → Bool
is_human m = elim m [
  | system _ ↦ false
  | human _ ↦ true
  | ai _ ↦ false
  | tool _ ↦ false
  | other _ ↦ false
]

-- `str(message.content)`, with Python's `str` of a list of blocks as a parameter.
abbrev pub str_content : (List Block → String) → MessageContent → String
str_content repr (text s) = s
str_content repr (blocks bs) = repr bs

-- `_is_llm_error_message`
unfoldable pub is_llm_error_message : Message → Bool
is_llm_error_message m = elim m [
  | system _ ↦ false
  | human _ ↦ false
  | ai a ↦ a.llm_error
  | tool _ ↦ false
  | other _ ↦ false
]

-- The first message with tool calls.
unfoldable pub first_calling : List Message → Option AiMessage
first_calling [] = none
first_calling (m ∷ ms) =
    let rest = first_calling ms in
    elim m [
      | system _ ↦ rest
      | human _ ↦ rest
      | ai a ↦ elim a.tool_calls [ [] ↦ rest | _ ∷ _ ↦ some a ]
      | tool _ ↦ rest
      | other _ ↦ rest
    ]

-- `last_ai` of `check_approval_node` and of `_build_partial_approval_command`.
unfoldable pub last_calling : List Message → Option AiMessage
unfolding first_calling
last_calling messages = first_calling (reverse messages)
