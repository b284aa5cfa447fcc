-- ===== src/Agent/Final.antt =====
-- `generate_final_node` of backend/agent/nodes.py. The stream of the provider is a function of the
-- prompt; the tokens that the node forwards to the client, the output ceiling and the capture of
-- memories that the node starts in the background are left out.
use Prim.Native.String.{◌++◌ as ◌<>◌}
use text.Mathlib.Text.{starts_with}
use mathlib.Core.List.{reverse}
use engineering_memory_agent.Common.{
  Bool, true, not, ◌&&◌, ◌||◌, String, Option, none, some, List, [], ◌∷◌, ◌++◌, length, str_eq,
  ◌==◌, if◌then◌else◌,
}
use engineering_memory_agent.Common.Text.{strip}
use engineering_memory_agent.Agent.Message.{
  Block, AiMessage, Message, system, human, ai, tool, other, str_content, is_llm_error_message,
}
use engineering_memory_agent.Agent.Approval.{among}
use engineering_memory_agent.Agent.Turn.{latest_tool_message_is_approval_notice}
use engineering_memory_agent.Agent.Llm.{assistant}
use engineering_memory_agent.Window.Compact.{Surroundings, bounded_messages, joined}

-- A message of the synthesis prompt.
pub record PromptMessage : Type 0 where
  pub role : String
  pub content : String

-- What the node reads: its surroundings, `agent.system` formatted with a context, and the thread's id.
pub record FinalNode : Type 0 where
  pub env : Surroundings
  pub system_text : String → String
  pub thread : String

-- The tokens of a stream, and whether it ends with an exception.
pub record Tokens : Type 0 where
  pub tokens : List String
  pub failed : Bool

-- The newest message, where it is an answer that can be given as it is.
abbrev pub newest_answer : (List Block → String) → List Message → Option String
newest_answer repr [] = none
newest_answer repr (m ∷ ms) = elim m [
  | system _ ↦ none
  | human _ ↦ none
  | ai a ↦
      if length a.tool_calls == 0 && not (str_eq (str_content repr a.content) "")
      then some (str_content repr a.content)
      else none
  | tool _ ↦ none
  | other _ ↦ none
]

unfoldable pub reusable : (List Block → String) → List Message → Option String
unfolding latest_tool_message_is_approval_notice
reusable repr messages =
    if latest_tool_message_is_approval_notice repr messages
    then none
    else newest_answer repr (reverse messages)

abbrev pub context_doc_tools : List String
context_doc_tools =
    "retrieve_chunks_tool" ∷ "query_rewrite_and_search_tool" ∷ "ingest_document_tool" ∷ []

unfoldable pub context_tag : String → String
context_tag tool_name = if among context_doc_tools tool_name then "doc" else "memory"

unfoldable pub wrap_context_item : String → String → String
unfolding context_tag
wrap_context_item tool_name content =
    let tag = context_tag tool_name in
    "<" <> tag <> " source=\"" <> tool_name <> "\">\n" <> content <> "\n</" <> tag <> ">"

-- The context items of system messages, and those of tool results.
unfoldable pub summary_items : (List Block → String) → List Message → List String
summary_items repr [] = []
summary_items repr (m ∷ ms) =
    let rest = summary_items repr ms in
    elim m [
      | system c ↦
          let s = strip (str_content repr c) in
          if str_eq s "" then rest else ("<summary>\n" <> s <> "\n</summary>") ∷ rest
      | human _ ↦ rest
      | ai _ ↦ rest
      | tool _ ↦ rest
      | other _ ↦ rest
    ]

unfoldable pub tool_items : Surroundings → List Message → List String
unfolding wrap_context_item
tool_items env [] = []
tool_items env (m ∷ ms) =
    let rest = tool_items env ms in
    elim m [
      | system _ ↦ rest
      | human _ ↦ rest
      | ai _ ↦ rest
      | tool t ↦
          let raw = str_content env.repr t.content in
          let content = env.truncate 800 raw in
          if str_eq (strip raw) "" || str_eq (strip content) ""
          then rest
          else wrap_context_item t.name content ∷ rest
      | other _ ↦ rest
    ]

unfoldable pub context_of : Surroundings → List Message → String
unfolding summary_items tool_items
context_of env windowed = joined "\n\n" (summary_items env.repr windowed ++ tool_items env windowed)

-- The thread prefixes of `_scenario_thread_prefixes`.
abbrev pub is_scenario_thread : String → Bool
is_scenario_thread thread =
    starts_with thread "patrol-"
    || starts_with thread "scenario-"
    || starts_with thread "scenario-run-"
    || starts_with thread "event-postmortem-"

abbrev pub report_mode : String
report_mode =
    "\n\nReport mode: you are composing a final deliverable, not chatting. Write the report the scenario prompt asked for, in your own words — NEVER reproduce tool results verbatim (search envelopes, JSON payloads, memory listings are raw input, not output). Synthesize the context above into the requested structure and nothing else."

unfoldable pub system_content : FinalNode → List Message → String
unfolding context_of
system_content node windowed =
    let context = context_of node.env windowed in
    let block = if str_eq context "" then "" else "\n\nContext:\n" <> context in
    let prompt = node.system_text block in
    if is_scenario_thread node.thread then prompt <> report_mode else prompt

-- The history in the synthesis prompt. A message of an unknown kind stands as the user's.
unfoldable pub history : (List Block → String) → List Message → List PromptMessage
unfolding is_llm_error_message
history repr [] = []
history repr (m ∷ ms) =
    let rest = history repr ms in
    elim m [
      | system _ ↦ rest
      | human c ↦ record { role = "user"; content = str_content repr c } ∷ rest
      | ai a ↦
          if is_llm_error_message (ai a) || str_eq (str_content repr a.content) ""
          then rest
          else record { role = "assistant"; content = str_content repr a.content } ∷ rest
      | tool _ ↦ rest
      | other c ↦ record { role = "user"; content = str_content repr c } ∷ rest
    ]

unfoldable pub final_messages : FinalNode → List Message → List PromptMessage
unfolding bounded_messages system_content history
final_messages node messages =
    let windowed = bounded_messages node.env messages in
    record { role = "system"; content = system_content node windowed }
    ∷ history node.env.repr windowed

-- The message of a synthesised answer. It carries the mark of a failed call whether or not the
-- stream failed.
unfoldable pub final_answer : Tokens → AiMessage
final_answer stream =
    assistant (if stream.failed then "抱歉，生成回复时出现错误，请稍后重试。" else joined "" stream.tokens) [] true

-- `generate_final_node`: the final response, and the messages of the update.
unfoldable pub generate_final :
    FinalNode → (List PromptMessage → Tokens) → List Message → String × List Message
unfolding reusable final_messages final_answer
generate_final node chat messages = elim (reusable node.env.repr messages) [
  | some answer ↦ (answer, [])
  | none ↦
      let answer = final_answer (chat (final_messages node messages)) in
      (str_content node.env.repr answer.content, ai answer ∷ [])
]
