-- ===== src/Agent/Tests.antt =====
-- Runs of backend/agent on short conversations.
use mathlib.Core.List.{reverse, reverse-append}
use engineering_memory_agent.Common.{
  suc, ℕ, ◌+◌, ◌≤◌, ◌≡◌, refl, ap, ◌∙◌, inr, arith, Bool, true, false, String, Option, none, some,
  List, [], ◌∷◌, ◌++◌, map, All,
}
use engineering_memory_agent.Common.Text.{chars, take_chars, strip, lstrip, rstrip, is_space}
use engineering_memory_agent.Agent.Message.{
  ToolMessage, ToolCall, Block, AiMessage, Message, text, system, human, ai, tool, other,
  last_calling, first_calling,
}
use engineering_memory_agent.Agent.Approval.{
  HumanDecision, to_tools, to_call_llm, approval_required_tools, check_approval, sensitive_of,
  safe_of, tool_call_id, is_sensitive, approved_ids, all_approved, answer,
}
use engineering_memory_agent.Agent.Safety.{IsApproved, names, calls_run, check_approval-IsApproved}
use engineering_memory_agent.Agent.Verdicts.{
  rejected_answers_all, partial_list_runs_all, partial_accounts, tool_messages,
}
use engineering_memory_agent.Agent.Envelope.{
  Json, Fields, object, field, no_fields, lookup, no_items, envelope, build_tool_envelope,
  envelope_display, truncate_tool_content, envelope_roundtrip,
}
use engineering_memory_agent.Agent.Serial.{
  messages_to_dicts, responded_ids, IsAccepted, messages_to_dicts-IsAccepted,
}
use engineering_memory_agent.Agent.Turn.{
  is_new_user_turn, newest_is_human, latest_tool_message_is_approval_notice, notice_in,
  human_content, last_human_content, this_turn, until_human, write_succeeded_this_turn,
}
use engineering_memory_agent.Agent.Llm.{AgentState, content_event}
use engineering_memory_agent.Agent.Final.{
  FinalNode, PromptMessage, Tokens, generate_final, reusable,
}
use engineering_memory_agent.Agent.Forgotten.{final_answer_forgotten}
use engineering_memory_agent.Common.Dict.{get}
use engineering_memory_agent.Agent.Conflict.{
  ConflictNode, newest_write, resolution_note, action_label, check_conflict,
}
use engineering_memory_agent.Agent.AutoMemory.{
  Capture, maybe_auto_memory, is_candidate, capture_write, auto_memory_throttled, llm_gate_worthy,
  has_substance,
}
use engineering_memory_agent.Agent.StandsDown.{resolved_stands_down}
use engineering_memory_agent.Agent.Graph.{Graph, World, TurnEnd, turn}
use engineering_memory_agent.Agent.Reducer.{add_by_id, add_by_id_keeps, add_new_ai}
use engineering_memory_agent.Agent.Ends.{IsLanggraph, HasAnswer, turn_ends}
use engineering_memory_agent.Window.Compact.{Surroundings}

abbrev tool_call : String → String → ToolCall
tool_call id name = record { id = id; name = name; args = [] }

abbrev writes : AiMessage
writes = record {
  id = some "m";
  content = text "";
  tool_calls =
      tool_call "a" "write_memory_tool"
      ∷ tool_call "b" "write_memory_tool"
      ∷ tool_call "c" "retrieve_memories_tool"
      ∷ [];
  llm_error = false;
}

abbrev asked : List Message
asked = human (text "x") ∷ ai writes ∷ []

abbrev empty : List Block → String
empty bs = ""

abbrev first_only : HumanDecision
first_only = record {
  approved = false;
  calls = some (record { id = "a"; approved = true } ∷ record { id = "b"; approved = false } ∷ []);
  reason = none;
}

abbrev short_list : HumanDecision
short_list = record first_only { calls = some (record { id = "a"; approved = true } ∷ []) }

abbrev nothing : HumanDecision
nothing = record first_only { calls = some [] }

check_approval-IsApproved_example :
    All (IsApproved (sensitive_of approval_required_tools writes.tool_calls) first_only) (
      sensitive_of approval_required_tools
        (calls_run writes (check_approval empty approval_required_tools asked first_only)))
unfolding last_calling first_calling sensitive_of is_sensitive safe_of names tool_call_id
check_approval-IsApproved_example =
    check_approval-IsApproved empty approval_required_tools asked first_only writes refl
      (inr (refl, (refl, tt))) (refl, (refl, tt))

rejected_answers_all_example : check_approval empty approval_required_tools asked nothing ≡ record {
  goto = to_call_llm;
  messages =
      map
        (answer "[REJECTED] Tool call was rejected by the user.")
        (sensitive_of approval_required_tools writes.tool_calls)
      ++ map
          (answer "[CANCELLED] A related write operation was rejected by the user.")
          (safe_of approval_required_tools writes.tool_calls);
}
unfolding last_calling first_calling sensitive_of is_sensitive all_approved approved_ids
rejected_answers_all_example =
    rejected_answers_all empty approval_required_tools asked nothing writes refl refl refl refl

-- The second write is not named by the decision, and runs.
partial_list_runs_all_example :
    calls_run writes (check_approval empty approval_required_tools asked short_list)
    ≡ tool_call "a" "write_memory_tool"
      ∷ tool_call "b" "write_memory_tool"
      ∷ tool_call "c" "retrieve_memories_tool"
      ∷ []
unfolding last_calling first_calling sensitive_of is_sensitive
partial_list_runs_all_example =
    partial_list_runs_all empty approval_required_tools asked short_list writes refl (omega arith)
      refl

partial_accounts_example :
    let c = check_approval empty approval_required_tools asked first_only in
    (c.goto ≡ to_tools)
    × (sensitive_of approval_required_tools (calls_run writes c)
        ≡ tool_call "a" "write_memory_tool" ∷ [])
    × (tool_messages c.messages
        ≡ answer "[REJECTED] Tool call was rejected by the user."
            (tool_call "b" "write_memory_tool")
          ∷ [])
unfolding last_calling first_calling sensitive_of is_sensitive safe_of all_approved approved_ids
    tool_call_id
partial_accounts_example =
    partial_accounts empty approval_required_tools asked first_only writes "a" [] refl refl refl
      refl (refl, (refl, tt))

abbrev around : Surroundings
around = record {
  tokens = λ m. 1;
  repr = empty;
  truncate = λ n s. s;
  summarize = λ s. none;
  compaction_enabled = false;
  budget = 100;
}

abbrev final_node : FinalNode
final_node = record { env = around; system_text = λ s. s; thread = "chat" }

abbrev tells : List PromptMessage → Tokens
tells ms = record { tokens = "done" ∷ []; failed = false }

final_answer_forgotten_example :
    let (response, update) = generate_final final_node tells asked in
    messages_to_dicts (λ d. "{}") (λ s. s) (asked ++ (update ++ (human (text "y") ∷ [])))
    ≡ messages_to_dicts (λ d. "{}") (λ s. s) (asked ++ (human (text "y") ∷ []))
unfolding reusable latest_tool_message_is_approval_notice notice_in
final_answer_forgotten_example =
    final_answer_forgotten final_node tells asked (human (text "y") ∷ []) (λ d. "{}") (λ s. s) refl

abbrev loads_hit : String → Option Json
loads_hit s = some (envelope "hit" no_items)

abbrev no_text : Json → String
no_text v = ""

envelope_roundtrip_example :
    let raw = build_tool_envelope no_text "hit" no_items in
    (envelope_display loads_hit no_text raw ≡ "hit")
    × (take_chars 2 (truncate_tool_content loads_hit no_text 2 raw) ≡ take_chars 2 "hit")
    × (chars (truncate_tool_content loads_hit no_text 2 raw) ≤ 2 + 13)
envelope_roundtrip_example = envelope_roundtrip loads_hit no_text no_text 2 "hit" no_items refl

abbrev result : String → Message
result id = tool (record {
  id = none;
  tool_call_id = id;
  name = "t";
  content = text "r";
  conflict_resolution = none;
})

-- A result whose call is gone, and a call with its result.
abbrev windowed : List Message
windowed = result "z" ∷ ai writes ∷ result "a" ∷ []

messages_to_dicts-IsAccepted_example :
    IsAccepted (responded_ids windowed) [] (messages_to_dicts (λ d. "{}") (λ s. s) windowed)
messages_to_dicts-IsAccepted_example = messages_to_dicts-IsAccepted (λ d. "{}") (λ s. s) windowed

-- Langgraph's part where all messages are new.
abbrev newest_calls : List Message → Bool
newest_calls [] = false
newest_calls (m ∷ ms) = elim m [
  | system _ ↦ false
  | human _ ↦ false
  | ai a ↦ elim a.tool_calls [ [] ↦ false | _ ∷ _ ↦ true ]
  | tool _ ↦ false
  | other _ ↦ false
]

abbrev graph : Graph
graph = record {
  llm = record { env = around; persona = "p"; dumps = λ d. "{}"; tools = []; decimal = λ n. "1" };
  final = final_node;
  conflict = record { loads = λ s. none; str = λ j. ""; repr = empty; resolve = λ r i fs. none };
  approval_required = approval_required_tools;
  max_steps = 5;
  add_messages = add_by_id;
  tools_condition = λ ms. newest_calls (reverse ms);
}

no_new_calls :
    (ms : List Message) (a : AiMessage)
    → a.id ≡ none
    → a.tool_calls ≡ []
    → newest_calls (reverse (add_by_id ms (ai a ∷ []))) ≡ false
no_new_calls ms a e h =
    ap (λ (l : List Message). newest_calls (reverse l)) (add_new_ai ms a e)
    ∙ ap newest_calls (reverse-append ms (ai a ∷ []))
    ∙ ap (λ (cs : List ToolCall). elim cs [ [] ↦ false | _ ∷ _ ↦ true ]) h

newest_new :
    (ms : List Message) (a : AiMessage)
    → a.id ≡ none
    → is_new_user_turn (add_by_id ms (ai a ∷ [])) ≡ false
unfolding is_new_user_turn
newest_new ms a e =
    ap (λ (l : List Message). newest_is_human (reverse l)) (add_new_ai ms a e)
    ∙ ap newest_is_human (reverse-append ms (ai a ∷ []))

langgraph : IsLanggraph graph
langgraph = record {
  appends_ai = newest_new;
  keeps_turn = add_by_id_keeps;
  no_calls_end = no_new_calls;
}

abbrev start : AgentState
start = record {
  messages = human (text "x") ∷ [];
  step_count = some 5;
  final_response = none;
  error = none;
  force_write = false;
}

abbrev answers_at_once : ℕ → World
answers_at_once n = record {
  chat = λ es. record { events = content_event "hi" ∷ []; failure = none };
  answer = tells;
  decision = nothing;
  resolution = none;
  run = λ ms. [];
}

turn_ends_example : (e : TurnEnd) × (turn graph answers_at_once 5 start ≡ some e) × HasAnswer e
turn_ends_example = turn_ends graph langgraph answers_at_once 5 start (omega arith) (omega arith)

-- A conflict, the human's resolution of it, and what is captured of the turn.
abbrev conflict_fields : Fields
conflict_fields =
    field "action" (Json.text "conflict") (field "existing_id" (Json.text "m1") no_fields)

abbrev conflict_node : ConflictNode
conflict_node = record {
  loads = λ s. some (object conflict_fields);
  str = no_text;
  repr = empty;
  resolve = λ r i fs. some (some i);
}

abbrev conflict_result : ToolMessage
conflict_result = record {
  id = some "t1";
  tool_call_id = "a";
  name = "write_memory_tool";
  content = text "{}";
  conflict_resolution = none;
}

abbrev eager : Capture ℕ
eager = record {
  auto_memory_enabled = true;
  memory_enabled = true;
  interval = 0;
  repr = empty;
  loads = λ s. none;
  gate_verdict = λ s. some true;
  extract_memory = λ s. some (record { summary = s; has_entities = true });
  write_memory = λ s n. (true, suc n);
}

abbrev note : ToolMessage
note = record conflict_result {
  content = text "Conflict resolved — merged both memories together. Memory id: m1.";
  conflict_resolution = some "merge";
}

abbrev resolved : List Message
resolved = human (text "remember that deploys freeze on Fridays") ∷ ai writes ∷ tool note ∷ []

resolved_stands_down_example :
    maybe_auto_memory eager 5 "chat" resolved (record { last_write = []; store = 0 })
    ≡ record { last_write = []; store = 0 }
unfolding check_conflict newest_write resolution_note action_label lookup
resolved_stands_down_example =
    resolved_stands_down conflict_node (tool conflict_result ∷ []) "merge" note eager 5 "chat"
      (human (text "remember that deploys freeze on Fridays") ∷ ai writes ∷ []) []
      (record { last_write = []; store = 0 }) refl refl tt

-- Without the note the same turn is captured.
captured :
    (maybe_auto_memory eager 5 "chat"
      (human (text "remember that deploys freeze on Fridays") ∷ [])
      (record { last_write = []; store = 0 })).store
    ≡ 1
unfolding maybe_auto_memory is_candidate capture_write last_human_content human_content strip lstrip
    rstrip is_space write_succeeded_this_turn this_turn until_human auto_memory_throttled
    llm_gate_worthy has_substance chars take_chars get
captured = refl
