-- ===== src/Agent/Llm.antt =====
-- `call_llm_node` of backend/agent/nodes.py. The stream of the provider is a function of the entries
-- it is sent; the tokens that the node forwards to the client are left out.
use Prim.Native.String.{◌++◌ as ◌<>◌}
use engineering_memory_agent.Common.{
  ℕ, ◌+◌, Bool, true, false, not, ◌&&◌, String, Option, none, some, List, [], ◌∷◌, ◌++◌, map, any,
  length, str_eq, if◌then◌else◌,
}
use engineering_memory_agent.Common.Dict.{Dict}
use engineering_memory_agent.Agent.Message.{ToolCall, AiMessage, Message, text, system, is_system}
use engineering_memory_agent.Agent.Approval.{among}
use engineering_memory_agent.Agent.Serial.{Entry, messages_to_dicts}
use engineering_memory_agent.Agent.Turn.{
  is_new_user_turn, write_tool_used_this_turn, last_human_content, write_memory_tool,
}
use engineering_memory_agent.Window.Compact.{Surroundings, bounded_messages, merge_system_messages}

-- `AgentState`, without `final_prompt` and `pending_approval`, which no node reads.
pub record AgentState : Type 0 where
  pub messages : List Message
  pub step_count : Option ℕ
  pub final_response : Option String
  pub error : Option String
  pub force_write : Bool

-- A tool call as the provider sends it; `args` is none where they are not a dict.
pub record RawCall : Type 0 where
  pub id : String
  pub name : String
  pub args : Option (Dict String String)

pub data StreamEvent : Type 0 where
  content_event : String → StreamEvent
  tool_calls_event : List RawCall → StreamEvent
  other_event : StreamEvent

-- The events of a stream, and the exception it ends with if it fails.
pub record Stream : Type 0 where
  pub events : List StreamEvent
  pub failure : Option String

-- What `call_llm_node` reads: its surroundings, the persona (`agent.system` without a context),
-- `json.dumps`, the names of the tools, and the decimal form of a number.
pub record LlmNode : Type 0 where
  pub env : Surroundings
  pub persona : String
  pub dumps : Dict String String → String
  pub tools : List String
  pub decimal : ℕ → String

-- `"".join(content_parts)`
unfoldable pub content_of_events : List StreamEvent → String
content_of_events [] = ""
content_of_events (e ∷ es) =
    let rest = content_of_events es in
    elim e [ content_event s ↦ s <> rest | tool_calls_event _ ↦ rest | other_event ↦ rest ]

-- `tool_calls` after the loop: the last event of the kind, or `calls`.
unfoldable pub calls_of_events : List RawCall → List StreamEvent → List RawCall
calls_of_events calls [] = calls
calls_of_events calls (e ∷ es) = elim e [
  | content_event _ ↦ calls_of_events calls es
  | tool_calls_event cs ↦ calls_of_events cs es
  | other_event ↦ calls_of_events calls es
]

unfoldable pub lc_tool_call : RawCall → ToolCall
lc_tool_call c = record {
  id = c.id;
  name = c.name;
  args = elim c.args [ none ↦ [] | some args ↦ args ];
}

unfoldable pub step_base : AgentState → ℕ
unfolding is_new_user_turn
step_base s = if is_new_user_turn s.messages then 0 else elim s.step_count [ none ↦ 0 | some n ↦ n ]

-- The messages that are serialised: bounded, behind the persona where the conversation has no system
-- message, and with one system message.
unfoldable pub prompt_messages : LlmNode → List Message → List Message
unfolding bounded_messages merge_system_messages
prompt_messages node messages =
    let bounded = bounded_messages node.env messages in
    merge_system_messages node.env.repr
      (if any is_system messages then bounded else system (text node.persona) ∷ bounded)

unfoldable pub prompt_dicts : LlmNode → List Message → List Entry
unfolding prompt_messages messages_to_dicts
prompt_dicts node messages =
    messages_to_dicts node.dumps (node.env.truncate 800) (prompt_messages node messages)

-- The write that is put into the calls where the user asked to remember the message.
unfoldable pub forced_call : LlmNode → List ToolCall → String → ToolCall
forced_call node calls content = record {
  id = "force_write_" <> node.decimal (length calls + 1);
  name = write_memory_tool;
  args =
      ("content", content)
      ∷ ("source_type", "conversation")
      ∷ ("metadata", "{'forced': True}")
      ∷ [];
}

unfoldable pub with_forced_write : LlmNode → AgentState → List ToolCall → List ToolCall
unfolding write_tool_used_this_turn last_human_content forced_call
with_forced_write node s calls =
    let content = last_human_content node.env.repr s.messages in
    if s.force_write
      && not (write_tool_used_this_turn s.messages)
      && among node.tools write_memory_tool
      && not (str_eq content "")
    then calls ++ (forced_call node calls content ∷ [])
    else calls

abbrev pub assistant : String → List ToolCall → Bool → AiMessage
assistant content calls llm_error = record {
  id = none;
  content = text content;
  tool_calls = calls;
  llm_error = llm_error;
}

-- The message that the node returns, and the state without it.
unfoldable pub failed : AgentState → String → AiMessage × AgentState
failed s message =
    (assistant "抱歉，当前回答生成失败，请稍后重试。" [] true, record s { error = some message; force_write = false })

unfoldable pub replied : LlmNode → AgentState → List StreamEvent → AiMessage × AgentState
unfolding with_forced_write lc_tool_call calls_of_events content_of_events step_base
replied node s events = (
  assistant (content_of_events events)
      (with_forced_write node s (map lc_tool_call (calls_of_events [] events))) false,
  record s { step_count = some (step_base s + 1); force_write = false },
)

-- `call_llm_node`, before its message is merged into the state.
unfoldable pub call_llm : LlmNode → (List Entry → Stream) → AgentState → AiMessage × AgentState
unfolding prompt_dicts failed replied
call_llm node chat s =
    let stream = chat (prompt_dicts node s.messages) in
    elim stream.failure [ some message ↦ failed s message | none ↦ replied node s stream.events ]
