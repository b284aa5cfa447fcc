-- ===== src/Agent/Approval.antt =====
-- The approval gate of backend/agent/nodes.py: `check_approval_node` with
-- `_build_partial_approval_command`. What the human answers to the interrupt is an argument. Tool
-- calls have langchain's shape, with their id and name at the top.
use Prim.Native.String.{◌++◌ as ◌<>◌}
use engineering_memory_agent.Common.{
  Bool, true, false, not, ◌||◌, String, Option, none, some, List, [], ◌∷◌, ◌++◌, map, length,
  filter, any, every, str_eq, ◌==◌, if◌then◌else◌,
}
use engineering_memory_agent.Agent.Message.{
  ToolCall, Block, AiMessage, Message, text, ai, tool, str_content, last_calling,
}

abbrev pub approval_required_tools : List String
approval_required_tools = "write_memory_tool" ∷ "ingest_git_repo_tool" ∷ "ingest_document_tool" ∷ []

abbrev pub chat_approval_tools : List String
chat_approval_tools = "ingest_git_repo_tool" ∷ "ingest_document_tool" ∷ "notify_feishu_tool" ∷ []

-- What the human says of one call of a batch.
pub record Ruling : Type 0 where
  pub id : String
  pub approved : Bool

-- The value that the interrupt returns. `calls` is none where it has no list of that name.
pub record HumanDecision : Type 0 where
  pub approved : Bool
  pub calls : Option (List Ruling)
  pub reason : Option String

pub data Goto : Type 0 where
  to_tools to_call_llm : Goto

-- A Command: the next node, and the messages of its update.
pub record Command : Type 0 where
  pub goto : Goto
  pub messages : List Message

unfoldable pub tool_call_id : ToolCall → String
tool_call_id call = call.id

-- Membership in a set of texts.
abbrev pub among : List String → String → Bool
among names s = any (λ n. str_eq n s) names

unfoldable pub is_sensitive : List String → ToolCall → Bool
is_sensitive required call = among required call.name

unfoldable pub sensitive_of : List String → List ToolCall → List ToolCall
unfolding is_sensitive
sensitive_of required calls = filter (is_sensitive required) calls

unfoldable pub safe_of : List String → List ToolCall → List ToolCall
unfolding is_sensitive
safe_of required calls = filter (λ c. not (is_sensitive required c)) calls

-- A new tool result, without an id.
unfoldable pub answer : String → ToolCall → Message
unfolding tool_call_id
answer content call = tool (record {
  id = none;
  tool_call_id = tool_call_id call;
  name = call.name;
  content = text content;
  conflict_resolution = none;
})

unfoldable pub describe : ToolCall → String
unfolding tool_call_id
describe call =
    (if str_eq call.name "" then "tool" else call.name) <> " (id: " <> tool_call_id call <> ")"

-- `"; ".join`
unfoldable pub describe_all : List ToolCall → String
unfolding describe
describe_all [] = ""
describe_all (c ∷ cs) =
    let rest = describe_all cs in elim cs [ [] ↦ describe c | _ ∷ _ ↦ describe c <> "; " <> rest ]

unfoldable pub rejection_note : List ToolCall → String → String
unfolding describe_all
rejection_note rejected reason =
    if length rejected == 0
    then ""
    else "\n\n[REJECTED] These tool call(s) were rejected by the user and NOT executed: "
      <> describe_all rejected
      <> ". Reason: "
      <> reason

-- The calls of `exec_msg`.
unfoldable pub exec_tool_calls : List ToolCall → List String → List ToolCall → List ToolCall
unfolding tool_call_id
exec_tool_calls safe approved_ids calls =
    filter
      (λ c. among approved_ids (tool_call_id c) || among (map tool_call_id safe) (tool_call_id c))
      calls

unfoldable pub rejected_calls : List ToolCall → List String → List ToolCall
unfolding tool_call_id
rejected_calls sensitive approved_ids =
    filter (λ c. not (among approved_ids (tool_call_id c))) sensitive

-- `_build_partial_approval_command`, after the search for the message with the calls.
unfoldable pub build_partial_approval_command :
    (List Block → String)
    → AiMessage
    → List ToolCall
    → List ToolCall
    → List String
    → String
    → Command
unfolding exec_tool_calls rejected_calls rejection_note answer
build_partial_approval_command repr last_ai safe sensitive approved_ids reason =
    let rejected = rejected_calls sensitive approved_ids in
    let exec_msg = record last_ai {
      content = text (str_content repr last_ai.content <> rejection_note rejected reason);
      tool_calls = exec_tool_calls safe approved_ids last_ai.tool_calls;
      llm_error = false;
    } in
    record {
      goto = to_tools;
      messages = map (answer ("[REJECTED] " <> reason)) rejected ++ (ai exec_msg ∷ []);
    }

abbrev pub rulings : HumanDecision → List Ruling
rulings d = elim d.calls [ none ↦ [] | some rs ↦ rs ]

-- `bool(batch_decisions) and all(...)`
abbrev pub all_rulings : List Ruling → Bool
all_rulings [] = false
all_rulings (r ∷ rs) = every (λ (r : Ruling). r.approved) (r ∷ rs)

-- `approved` of `check_approval_node`
unfoldable pub all_approved : List ToolCall → HumanDecision → Bool
all_approved sensitive d = if length sensitive == 1 then d.approved else all_rulings (rulings d)

-- `approved_ids`, which only a batch has.
unfoldable pub approved_ids : List ToolCall → HumanDecision → List String
approved_ids sensitive d =
    if length sensitive == 1
    then []
    else map (λ (r : Ruling). r.id) (filter (λ (r : Ruling). r.approved) (rulings d))

-- `call_rejected`: what the first ruling with the id says.
unfoldable pub ruled_out : String → List Ruling → Bool
ruled_out cid [] = true
ruled_out cid (r ∷ rs) =
    let rest = ruled_out cid rs in if str_eq r.id cid then not r.approved else rest

unfoldable pub call_rejected : List ToolCall → HumanDecision → String → Bool
unfolding ruled_out
call_rejected sensitive d cid = if length sensitive == 1 then true else ruled_out cid (rulings d)

-- The answer to a sensitive call where nothing is run.
unfoldable pub verdict : List ToolCall → HumanDecision → String → ToolCall → Message
unfolding call_rejected answer tool_call_id
verdict sensitive d reason call =
    answer
      (if call_rejected sensitive d (tool_call_id call)
        then "[REJECTED] " <> reason
        else "[APPROVED]")
      call

-- The last part of `check_approval_node`. The calls are told apart by their names, so none of `safe`
-- equals one of `sensitive`.
unfoldable pub reject_all : List ToolCall → List ToolCall → HumanDecision → String → Command
unfolding verdict answer
reject_all safe sensitive d reason = record {
  goto = to_call_llm;
  messages =
      map (verdict sensitive d reason) sensitive
      ++ map (answer "[CANCELLED] A related write operation was rejected by the user.") safe;
}

abbrev pub reason_of : HumanDecision → String
reason_of d = elim d.reason [ none ↦ "Tool call was rejected by the user." | some r ↦ r ]

abbrev pub run_tools : Command
run_tools = record { goto = to_tools; messages = [] }

-- What follows the human's decision.
unfoldable pub resume :
    (List Block → String) → AiMessage → List ToolCall → List ToolCall → HumanDecision → Command
unfolding all_approved approved_ids build_partial_approval_command reject_all
resume repr last_ai safe sensitive d =
    if all_approved sensitive d then run_tools else elim (approved_ids sensitive d) [
      | [] ↦ reject_all safe sensitive d (reason_of d)
      | i ∷ is ↦ build_partial_approval_command repr last_ai safe sensitive (i ∷ is) (reason_of d)
    ]

-- The message that is put in where no message has calls.
abbrev pub no_calls : Message
no_calls = ai (record {
  id = none;
  content = text "(internal: no tool calls to process)";
  tool_calls = [];
  llm_error = false;
})

unfoldable pub gate : (List Block → String) → List String → AiMessage → HumanDecision → Command
unfolding resume sensitive_of safe_of
gate repr required last_ai d =
    let sensitive = sensitive_of required last_ai.tool_calls in
    let safe = safe_of required last_ai.tool_calls in
    if length sensitive == 0 then run_tools else resume repr last_ai safe sensitive d

-- `check_approval_node`. The decision is not read where nothing is asked.
unfoldable pub check_approval :
    (List Block → String) → List String → List Message → HumanDecision → Command
unfolding gate last_calling
check_approval repr required messages d = elim (last_calling messages) [
  | none ↦ record { goto = to_call_llm; messages = no_calls ∷ [] }
  | some last_ai ↦ gate repr required last_ai d
]
