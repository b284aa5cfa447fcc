-- ===== src/Window/Tests.antt =====
-- Windows of backend/agent/nodes.py on a short conversation, with one token to each message.
use engineering_memory_agent.Common.{
  ℕ, ◌≤◌, ◌≡◌, ◌⊎◌, true, false, none, some, List, [], ◌∷◌, arith, length,
}
use engineering_memory_agent.Agent.Message.{Message, system, human, ai, text}
use engineering_memory_agent.Window.Tail.{systems, others, total}
use engineering_memory_agent.Window.Compact.{Surroundings, bounded_messages, merge_system_messages}
use engineering_memory_agent.Window.Merged.{
  IsCompacted, bounded_messages-IsCompacted, merge_system_messages_once,
}

abbrev reply : Message
reply = ai (record { id = none; content = text "x"; tool_calls = []; llm_error = false })

abbrev conversation : List Message
conversation = system (text "x") ∷ human (text "x") ∷ reply ∷ human (text "x") ∷ []

abbrev one : Message → ℕ
one m = 1

-- Compaction with two tokens for four messages and a model that summarises.
abbrev around : Surroundings
around = record {
  tokens = one;
  repr = λ bs. "";
  truncate = λ n s. s;
  summarize = λ s. some "earlier";
  compaction_enabled = true;
  budget = 2;
}

bounded_messages-IsCompacted_example :
    let sent = bounded_messages around conversation in
    IsCompacted around conversation sent
    × ((total one (others sent) ≤ 2) ⊎ (length (others sent) ≡ 1))
unfolding others
bounded_messages-IsCompacted_example =
    bounded_messages-IsCompacted around conversation (omega arith)

abbrev summarised : List Message
summarised = system (text "a") ∷ human (text "x") ∷ system (text "b") ∷ reply ∷ []

merge_system_messages_once_example :
    (length (systems (merge_system_messages (λ bs. "") summarised)) ≤ 1)
    × (others (merge_system_messages (λ bs. "") summarised) ≡ others summarised)
merge_system_messages_once_example = merge_system_messages_once (λ bs. "") summarised
