-- ===== src/Window/Compact.antt =====
-- Compaction in backend/agent/nodes.py: `_overflow_transcript`, `_summarize_overflow`,
-- `_maybe_compact`, `_merge_system_messages` and `_bounded_messages`. The model's summary of a
-- transcript is a parameter, none where the call fails; so are the estimate of a message's tokens and
-- Python's `str` of a list of blocks. 60% of the budget is taken in exact arithmetic.
use Prim.Native.String.{◌++◌ as ◌<>◌}
use engineering_memory_agent.Common.{
  ℕ, ◌*◌, ◌/◌, max, Bool, not, String, Option, none, some, List, [], ◌∷◌, ◌++◌, length, str_eq, leb,
  ◌==◌, if◌then◌else◌,
}
use engineering_memory_agent.Common.Text.{strip, chars, take_chars}
use engineering_memory_agent.Agent.Message.{
  Block, MessageContent, text, Message, system, human, ai, tool, other, str_content,
  is_llm_error_message,
}
use engineering_memory_agent.Window.Tail.{systems, others, window_messages, split_overflow, total}

-- What the nodes read of their surroundings. `truncate` is `truncate_tool_content`, `summarize` the
-- call of the model with the compaction prompt, `budget` is `_context_budget()`.
pub record Surroundings : Type 0 where
  pub tokens : Message → ℕ
  pub repr : List Block → String
  pub truncate : ℕ → String → String
  pub summarize : String → Option String
  pub compaction_enabled : Bool
  pub budget : ℕ

-- `"\n".join` and `"\n\n".join`
abbrev pub joined : String → List String → String
joined sep [] = ""
joined sep (s ∷ ss) = elim ss [ [] ↦ s | _ ∷ _ ↦ s <> sep <> joined sep ss ]

-- The lines of a message in the transcript: one or none.
unfoldable pub transcript_line : Surroundings → Message → List String
unfolding is_llm_error_message
transcript_line env m = if is_llm_error_message m then [] else elim m [
  | system _ ↦ []
  | human c ↦ ("user: " <> str_content env.repr c) ∷ []
  | ai a ↦ ("assistant: " <> str_content env.repr a.content) ∷ []
  | tool t ↦
      ("tool ("
        <> (if str_eq t.name "" then "tool" else t.name)
        <> "): "
        <> env.truncate 200 (str_content env.repr t.content))
      ∷ []
  | other _ ↦ []
]

unfoldable pub transcript_lines : Surroundings → List Message → List String
unfolding transcript_line
transcript_lines env [] = []
transcript_lines env (m ∷ ms) = transcript_line env m ++ transcript_lines env ms

unfoldable pub overflow_transcript : Surroundings → List Message → String
unfolding transcript_lines
overflow_transcript env messages =
    let transcript = joined "\n" (transcript_lines env messages) in
    if leb (chars transcript) 12000
    then transcript
    else take_chars 12000 transcript <> "\n…[truncated]"

unfoldable pub summarize_overflow : Surroundings → List Message → String
unfolding overflow_transcript
summarize_overflow env messages = elim (env.summarize (overflow_transcript env messages)) [
  | none ↦ ""
  | some s ↦ strip s
]

unfoldable pub tail_budget : ℕ → ℕ
tail_budget max_tokens = max (max_tokens * 3 / 5) 1

-- The end of `_maybe_compact`, from the split on.
unfoldable pub compact : Surroundings → List Message → List Message
unfolding split_overflow tail_budget summarize_overflow systems others
compact env messages =
    let (overflow, tail) = split_overflow env.tokens (tail_budget env.budget) (others messages) in
    let summary = summarize_overflow env overflow in
    if length overflow == 0
    then messages
    else if str_eq summary ""
    then messages
    else systems messages ++ (system (text summary) ∷ tail)

unfoldable pub maybe_compact : Surroundings → List Message → List Message
unfolding compact others
maybe_compact env messages =
    if not env.compaction_enabled
    then messages
    else if leb (total env.tokens (others messages)) env.budget
    then messages
    else compact env messages

-- `_bounded_messages`
unfoldable pub bounded_messages : Surroundings → List Message → List Message
unfolding maybe_compact window_messages
bounded_messages env messages = window_messages env.tokens env.budget (maybe_compact env messages)

abbrev pub content_of : Message → MessageContent
content_of m = elim m [
  | system c ↦ c
  | human c ↦ c
  | ai a ↦ a.content
  | tool t ↦ t.content
  | other c ↦ c
]

-- The later system messages, fenced, without the empty ones.
unfoldable pub fenced : (List Block → String) → List Message → List String
fenced repr [] = []
fenced repr (m ∷ ms) =
    let rest = fenced repr ms in
    let content = strip (str_content repr (content_of m)) in
    if str_eq content "" then rest else ("<summary>\n" <> content <> "\n</summary>") ∷ rest

unfoldable pub merge_system_messages : (List Block → String) → List Message → List Message
unfolding fenced systems others
merge_system_messages repr messages = elim (systems messages) [
  | [] ↦ messages
  | first ∷ later ↦
      if length later == 0
      then messages
      else system
          (text (joined "\n\n" (strip (str_content repr (content_of first)) ∷ fenced repr later)))
        ∷ others messages
]
