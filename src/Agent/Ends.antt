-- ===== src/Agent/Ends.antt =====
-- The length of a turn of the graph in backend/agent/graph.py.
use engineering_memory_agent.Common.{
  ℕ, zero, suc, ◌+◌, ◌≤◌, ◌<◌, ◌≡◌, ◌⊎◌, refl, ◌∙◌, subst, inl, inr, arith, Bool, true, false,
  String, none, some, List, [], ◌∷◌, ◌++◌, map, append-nil, length, All, leb, ◌==◌, if◌then◌else◌,
  Bool-cases, Option-cases, some_inj, List-cases,
}
use engineering_memory_agent.Agent.Message.{
  AiMessage, Block, ToolCall, Message, ToolMessage, ai, tool, is_human, last_calling,
}
use Prim.Native.String.{◌++◌ as ◌<>◌}
use engineering_memory_agent.Agent.Approval.{
  HumanDecision, Goto, to_tools, to_call_llm, answer, check_approval, gate, resume, reject_all,
  build_partial_approval_command, verdict, rejected_calls, all_approved, approved_ids, reason_of,
  sensitive_of, safe_of,
}
use engineering_memory_agent.Agent.Turn.{is_new_user_turn}
use engineering_memory_agent.Agent.Llm.{
  AgentState, call_llm, failed, replied, step_base, prompt_dicts, assistant,
}
use engineering_memory_agent.Agent.Conflict.{ConflictCheck, goes_on, noted, raised, check_conflict}
use engineering_memory_agent.Agent.Final.{generate_final}
use engineering_memory_agent.Agent.Graph.{
  Graph, World, TurnEnd, answered, interrupted, after_llm, is_final, finish, after_tools,
  after_conflict, round, turn, updated, settled, routed,
}

if_same : (b : Bool) → (if b then true else true) ≡ true
if_same true = refl
if_same false = refl

abbrev pub IsNotHuman : Message → Type 0
IsNotHuman m = is_human m ≡ false

-- What the graph relies on of langgraph. A message with the id of one that is there may take its place,
-- so only an assistant message without an id is known to become the newest; messages of others do not
-- make the user's the newest, in place or appended; and `tools_condition` is false where the newest
-- message is an assistant's without calls.
pub record IsLanggraph (g : Graph) : Type 0 where
  pub appends_ai :
      (ms : List Message) (a : AiMessage)
      → a.id ≡ none
      → is_new_user_turn (g.add_messages ms (ai a ∷ [])) ≡ false
  pub keeps_turn :
      (ms new : List Message)
      → is_new_user_turn ms ≡ false
      → All IsNotHuman new
      → is_new_user_turn (g.add_messages ms new) ≡ false
  pub no_calls_end :
      (ms : List Message) (a : AiMessage)
      → a.id ≡ none
      → a.tool_calls ≡ []
      → g.tools_condition (g.add_messages ms (ai a ∷ [])) ≡ false

map_answer-IsNotHuman :
    (content : String) (cs : List ToolCall) (ms : List Message)
    → All IsNotHuman ms
    → All IsNotHuman (map (answer content) cs ++ ms)
unfolding answer
map_answer-IsNotHuman content [] ms h = h
map_answer-IsNotHuman content (c ∷ cs) ms h = (refl, map_answer-IsNotHuman content cs ms h)

module _ (repr : List Block → String) (d : HumanDecision) where
  partial-IsNotHuman :
      (a : AiMessage) (F S : List ToolCall) (is : List String) (reason : String)
      → All IsNotHuman (build_partial_approval_command repr a F S is reason).messages
  unfolding build_partial_approval_command
  partial-IsNotHuman a F S is reason =
      map_answer-IsNotHuman ("[REJECTED] " <> reason) (rejected_calls S is) _ (refl, tt)

  map-verdict-IsNotHuman :
      (S : List ToolCall) (reason : String) (cs : List ToolCall) (ms : List Message)
      → All IsNotHuman ms
      → All IsNotHuman (map (verdict S d reason) cs ++ ms)
  unfolding verdict answer
  map-verdict-IsNotHuman S reason [] ms h = h
  map-verdict-IsNotHuman S reason (c ∷ cs) ms h = (refl, map-verdict-IsNotHuman S reason cs ms h)

  reject-IsNotHuman :
      (F S : List ToolCall) (reason : String) → All IsNotHuman (reject_all F S d reason).messages
  unfolding reject_all
  reject-IsNotHuman F S reason = map-verdict-IsNotHuman S reason S _ (
      subst (All IsNotHuman) (append-nil _) (
        map_answer-IsNotHuman "[CANCELLED] A related write operation was rejected by the user." F []
          tt))

  resume-IsNotHuman :
      (a : AiMessage) (F S : List ToolCall) → All IsNotHuman (resume repr a F S d).messages
  unfolding resume
  resume-IsNotHuman a F S = elim (Bool-cases (all_approved S d)) [
    | inl e ↦ rw e tt
    | inr e ↦ elim (List-cases (approved_ids S d)) [
      | inl k ↦ rw (e, k) (reject-IsNotHuman F S (reason_of d))
      | inr (i, is, k) ↦ rw (e, k) (partial-IsNotHuman a F S (i ∷ is) (reason_of d))
    ]
  ]

  gate-IsNotHuman :
      (required : List String) (a : AiMessage) → All IsNotHuman (gate repr required a d).messages
  unfolding gate
  gate-IsNotHuman required a =
      elim (Bool-cases (length (sensitive_of required a.tool_calls) == 0)) [
        | inl e ↦ rw e tt
        | inr e ↦ rw e (
            resume-IsNotHuman a (safe_of required a.tool_calls)
              (sensitive_of required a.tool_calls))
      ]

  check_approval-IsNotHuman :
      (required : List String) (messages : List Message)
      → All IsNotHuman (check_approval repr required messages d).messages
  unfolding check_approval
  check_approval-IsNotHuman required messages = elim (Option-cases (last_calling messages)) [
    | inl e ↦ rw (e, check_approval) (refl, tt)
    | inr (a, e) ↦ rw (e, check_approval) (gate-IsNotHuman required a)
  ]

module _ (g : Graph) (law : IsLanggraph g) where
  updated-turn :
      (s : AgentState) (new : List Message)
      → is_new_user_turn s.messages ≡ false
      → All IsNotHuman new
      → (is_new_user_turn (updated g s new).messages ≡ false)
        × ((updated g s new).step_count ≡ s.step_count)
  updated-turn s [] h k = (h, refl)
  updated-turn s (m ∷ ms) h k = (law.keeps_turn s.messages (m ∷ ms) h k, refl)

  tools-IsNotHuman : (ts : List ToolMessage) → All IsNotHuman (map tool ts)
  tools-IsNotHuman [] = tt
  tools-IsNotHuman (t ∷ ts) = (refl, tools-IsNotHuman ts)

  abbrev SameTurn : AgentState → AgentState → Type 0
  SameTurn s u = (is_new_user_turn u.messages ≡ false) × (u.step_count ≡ s.step_count)

  settled-SameTurn :
      (x : ConflictCheck) (t u : AgentState)
      → is_new_user_turn t.messages ≡ false
      → settled g t x ≡ some u
      → SameTurn t u
  settled-SameTurn goes_on t u h e = subst (SameTurn t) (some_inj e) (h, refl)
  settled-SameTurn (noted m) t u h e =
      subst (SameTurn t) (some_inj e) (law.keeps_turn t.messages (tool m ∷ []) h (refl, tt), refl)
  settled-SameTurn raised t u h e = absurd (cc e)

  after_conflict-SameTurn :
      (w : World) (s u : AgentState)
      → is_new_user_turn s.messages ≡ false
      → after_conflict g w s ≡ some u
      → SameTurn s u
  unfolding after_conflict after_tools
  after_conflict-SameTurn w s u h e =
      let t = after_tools g w s in
      settled-SameTurn (check_conflict g.conflict t.messages w.resolution) t u
        (law.keeps_turn s.messages (map tool (w.run s.messages)) h
          (tools-IsNotHuman (w.run s.messages)))
        e

  routed-SameTurn :
      (w : World) (x : Goto) (t u : AgentState)
      → is_new_user_turn t.messages ≡ false
      → routed g w x t ≡ some u
      → SameTurn t u
  routed-SameTurn w to_tools t u h e = after_conflict-SameTurn w t u h e
  routed-SameTurn w to_call_llm t u h e = subst (SameTurn t) (some_inj e) (h, refl)

  round-SameTurn :
      (w : World) (s u : AgentState)
      → is_new_user_turn s.messages ≡ false
      → round g w s ≡ some u
      → SameTurn s u
  unfolding round
  round-SameTurn w s u h e =
      let c = check_approval g.llm.env.repr g.approval_required s.messages w.decision in
      let (same, count) =
        updated-turn s c.messages h
          (check_approval-IsNotHuman g.llm.env.repr w.decision g.approval_required s.messages) in
      let (fresh, kept) = routed-SameTurn w c.goto (updated g s c.messages) u same e in
      (fresh, kept ∙ count)

  -- After `call_llm` the turn is over or its step is counted.
  after_llm-counts :
      (w : World) (s : AgentState)
      → (is_new_user_turn (after_llm g w s).messages ≡ false)
        × ((is_final g (after_llm g w s) ≡ true)
            ⊎ ((after_llm g w s).step_count ≡ some (step_base s + 1)))
  unfolding after_llm call_llm failed replied is_final
  after_llm-counts w s = elim (Option-cases (w.chat (prompt_dicts g.llm s.messages)).failure) [
    | inl e ↦ rw (e, after_llm, call_llm) (law.appends_ai s.messages _ refl, inr refl)
    | inr (m, e) ↦
        rw (e, after_llm, call_llm)
          (
            law.appends_ai s.messages _ refl,
            inl (
                rw (law.no_calls_end s.messages (assistant "抱歉，当前回答生成失败，请稍后重试。" [] true) refl refl)
                  (if_same (leb g.max_steps (elim s.step_count [ none ↦ 0 | some n ↦ n ])))),
          )
  ]

  step_base_counted :
      (s : AgentState) (n : ℕ)
      → is_new_user_turn s.messages ≡ false
      → s.step_count ≡ some n
      → step_base s ≡ n
  unfolding step_base
  step_base_counted s n h e = rw (h, e) refl

  not_final_below :
      (s : AgentState) (n : ℕ) → is_final g s ≡ false → s.step_count ≡ some n → n < g.max_steps
  unfolding is_final
  not_final_below s n h e = elim (Bool-cases (leb g.max_steps n)) [
    | inl f ↦ (let done : is_final g s ≡ true = rw (is_final, e, f) refl in absurd (cc (h, done)))
    | inr f ↦ ground (arith, f)
  ]

-- A turn that ends in an answer has one.
abbrev pub HasAnswer : TurnEnd → Type 0
HasAnswer (answered s) = (r : String) × (s.final_response ≡ some r)
HasAnswer (interrupted s) = Unit

updated_final :
    (g : Graph) (s : AgentState) (new : List Message)
    → (updated g s new).final_response ≡ s.final_response
updated_final g s [] = refl
updated_final g s (m ∷ ms) = refl

finish-HasAnswer : (g : Graph) (w : World) (s : AgentState) → HasAnswer (answered (finish g w s))
unfolding finish
finish-HasAnswer g w s =
    let (response, new) = generate_final g.final w.answer s.messages in
    (response, updated_final g (record s { final_response = some response }) new)

-- Where langgraph merges messages and reads its condition as assumed above, a turn ends: with fuel for
-- `max_steps` rounds, and for one where that is 0, it comes to an answer or to an exception of the
-- conflict gate, whatever the model, the tools and the human do, and an answer is then in the state.
pub turn_ends :
    (g : Graph)
    → IsLanggraph g
    → (worlds : ℕ → World) (fuel : ℕ) (s : AgentState) → 0 < fuel
    → g.max_steps ≤ fuel + step_base s
    → (e : TurnEnd) × (turn g worlds fuel s ≡ some e) × HasAnswer e
unfolding turn
turn_ends g law worlds zero s h k = absurd (omega arith)
turn_ends g law worlds (suc fuel) s h k =
    let w = worlds fuel in
    let t = after_llm g w s in
    let (fresh, counts) = after_llm-counts g law w s in
    elim (Bool-cases (is_final g t)) [
      | inl e ↦ (answered (finish g w t), rw (e, turn) refl, finish-HasAnswer g w t)
      | inr e ↦ elim (Option-cases (round g w t)) [
        | inl f ↦ (interrupted t, rw (e, turn, f) refl, tt)
        | inr (u, f) ↦ elim counts [
          | inl final ↦ absurd (cc (e, final))
          | inr n ↦
              let (same, kept) = round-SameTurn g law w t u fresh f in
              let base : step_base u ≡ step_base s + 1 =
                step_base_counted g law u (step_base s + 1) same (kept ∙ n) in
              let below = not_final_below g law t (step_base s + 1) e n in
              let (end, ends, answer) =
                turn_ends g law worlds fuel u (omega arith) (omega (arith, base)) in
              (end, rw (e, turn, f) ends, answer)
        ]
      ]
    ]
