-- ===== src/Agent/Graph.antt =====
-- One turn of the graph of backend/agent/graph.py: call_llm → check_approval → tools → check_conflict →
-- call_llm, until generate_final. Langgraph's `add_messages` and `tools_condition`, the tools and the
-- outside of each round are parameters.
use engineering_memory_agent.Common.{
  ℕ, zero, suc, Bool, true, false, String, Option, none, some, List, [], ◌∷◌, map, leb,
  if◌then◌else◌,
}
use engineering_memory_agent.Agent.Message.{ToolMessage, Message, ai, tool}
use engineering_memory_agent.Agent.Approval.{
  HumanDecision, Goto, to_tools, to_call_llm, check_approval,
}
use engineering_memory_agent.Agent.Serial.{Entry}
use engineering_memory_agent.Agent.Llm.{AgentState, LlmNode, Stream, call_llm}
use engineering_memory_agent.Agent.Final.{FinalNode, PromptMessage, Tokens, generate_final}
use engineering_memory_agent.Agent.Conflict.{
  ConflictNode, ConflictCheck, goes_on, noted, raised, check_conflict,
}

-- What `build_agent_graph` puts together, and langgraph's part.
pub record Graph : Type 0 where
  pub llm : LlmNode
  pub final : FinalNode
  pub conflict : ConflictNode
  pub approval_required : List String
  pub max_steps : ℕ
  pub add_messages : List Message → List Message → List Message
  pub tools_condition : List Message → Bool

-- The outside in one round: the provider, the human's two answers, and the tools on the messages.
pub record World : Type 0 where
  pub chat : List Entry → Stream
  pub answer : List PromptMessage → Tokens
  pub decision : HumanDecision
  pub resolution : Option String
  pub run : List Message → List ToolMessage

-- How a turn ends: with a state that has an answer, or with an exception of a node.
pub data TurnEnd : Type 0 where
  answered interrupted : AgentState → TurnEnd

abbrev pub merged : Graph → AgentState → List Message → AgentState
merged g s new = record s { messages = g.add_messages s.messages new }

-- An update that may have no messages.
abbrev pub updated : Graph → AgentState → List Message → AgentState
updated g s [] = s
updated g s (m ∷ ms) = merged g s (m ∷ ms)

-- The state after `call_llm`.
unfoldable pub after_llm : Graph → World → AgentState → AgentState
unfolding call_llm
after_llm g w s = let (m, t) = call_llm g.llm w.chat s in merged g t (ai m ∷ [])

-- `_route_after_call_llm`: whether the turn goes to `generate_final`.
unfoldable pub is_final : Graph → AgentState → Bool
is_final g s =
    if leb g.max_steps (elim s.step_count [ none ↦ 0 | some n ↦ n ])
    then true
    else elim (g.tools_condition s.messages) [ true ↦ false | false ↦ true ]

unfoldable pub finish : Graph → World → AgentState → AgentState
unfolding generate_final
finish g w s =
    let (response, new) = generate_final g.final w.answer s.messages in
    updated g (record s { final_response = some response }) new

unfoldable pub after_tools : Graph → World → AgentState → AgentState
after_tools g w s = merged g s (map tool (w.run s.messages))

-- `tools` and `check_conflict`: the state that `call_llm` gets, or none where the node raises.
abbrev pub settled : Graph → AgentState → ConflictCheck → Option AgentState
settled g t goes_on = some t
settled g t (noted m) = some (merged g t (tool m ∷ []))
settled g t raised = none

unfoldable pub after_conflict : Graph → World → AgentState → Option AgentState
unfolding after_tools check_conflict
after_conflict g w s =
    let t = after_tools g w s in settled g t (check_conflict g.conflict t.messages w.resolution)

-- Where the command of `check_approval` leads.
abbrev pub routed : Graph → World → Goto → AgentState → Option AgentState
routed g w to_tools t = after_conflict g w t
routed g w to_call_llm t = some t

-- `check_approval` and what follows, up to the next `call_llm`.
unfoldable pub round : Graph → World → AgentState → Option AgentState
unfolding check_approval after_conflict
round g w s =
    let c = check_approval g.llm.env.repr g.approval_required s.messages w.decision in
    routed g w c.goto (updated g s c.messages)

-- A turn, with the outside of each round. It is none where the fuel is too small.
unfoldable pub turn : Graph → (ℕ → World) → ℕ → AgentState → Option TurnEnd
unfolding after_llm is_final finish round
turn g worlds zero s = none
turn g worlds (suc fuel) s =
    let w = worlds fuel in
    let t = after_llm g w s in
    elim (is_final g t) [
      | true ↦ some (answered (finish g w t))
      | false ↦ elim (round g w t) [ none ↦ some (interrupted t) | some u ↦ turn g worlds fuel u ]
    ]
