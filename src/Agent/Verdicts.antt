-- ===== src/Agent/Verdicts.antt =====
-- What the approval gate of backend/agent/nodes.py answers: rejections, and batches that a decision
-- covers in part.
use Prim.Native.String.{◌++◌ as ◌<>◌}
use engineering_memory_agent.Common.{
  ◌<◌, ◌≡◌, refl, ap, ◌∙◌, inl, inr, true, false, String, some, List, [], ◌∷◌, ◌++◌, map, length,
  filter, not, str_eq, ◌==◌, arith, All, Bool-cases,
}
use engineering_memory_agent.Agent.Message.{
  ToolCall, Block, AiMessage, Message, system, human, ai, tool, other, last_calling,
}
use engineering_memory_agent.Agent.Approval.{
  Ruling, HumanDecision, to_tools, to_call_llm, tool_call_id, among, sensitive_of, safe_of, rulings,
  all_rulings, approved_ids, all_approved, exec_tool_calls, rejected_calls, answer, ruled_out,
  call_rejected, verdict, build_partial_approval_command, reject_all, check_approval, reason_of,
}
use engineering_memory_agent.Agent.Safety.{
  IsApart, calls_run, check_is_gate, gate_asks, resume_rejects, resume_pass, resume_partial,
  partial_runs, sensitive_exec,
}

ruled_out_none :
    (cid : String) (rs : List Ruling)
    → map (λ (r : Ruling). r.id) (filter (λ (r : Ruling). r.approved) rs) ≡ []
    → ruled_out cid rs ≡ true
unfolding ruled_out
ruled_out_none cid [] h = refl
ruled_out_none cid (r ∷ rs) h = elim (Bool-cases r.approved) [
  | inl e ↦ absurd (ground (arith, rw e at h))
  | inr e ↦ elim (Bool-cases (str_eq r.id cid)) [
    | inl f ↦ rw (f, e) refl
    | inr f ↦ rw f (ruled_out_none cid rs (cc (rw e at h)))
  ]
]

verdict_rejected :
    (S : List ToolCall) (d : HumanDecision) (reason : String) (c : ToolCall)
    → approved_ids S d ≡ []
    → verdict S d reason c ≡ answer ("[REJECTED] " <> reason) c
unfolding verdict call_rejected approved_ids
verdict_rejected S d reason c h = elim (Bool-cases (length S == 1)) [
  | inl e ↦ rw e refl
  | inr e ↦ rw e (rw (ruled_out_none (tool_call_id c) (rulings d) (cc (rw e at h))) refl)
]

map-verdict :
    (S : List ToolCall) (d : HumanDecision) (reason : String) (cs : List ToolCall)
    → approved_ids S d ≡ []
    → map (verdict S d reason) cs ≡ map (answer ("[REJECTED] " <> reason)) cs
map-verdict S d reason [] h = refl
map-verdict S d reason (c ∷ cs) h =
    rw (verdict_rejected S d reason c h, map-verdict S d reason cs h) refl

-- A decision that approves nothing sends the turn back to the model with one answer to each call:
-- every sensitive call is rejected with the reason, every other one is cancelled, and none runs.
pub rejected_answers_all :
    (repr : List Block → String) (required : List String) (messages : List Message)
    (d : HumanDecision) (last_ai : AiMessage)
    → last_calling messages ≡ some last_ai
    → let S = sensitive_of required last_ai.tool_calls in
      (length S == 0) ≡ false
      → all_approved S d ≡ false
      → approved_ids S d ≡ []
      → check_approval repr required messages d ≡ record {
        goto = to_call_llm;
        messages =
            map (answer ("[REJECTED] " <> reason_of d)) S
            ++ map
                (answer "[CANCELLED] A related write operation was rejected by the user.")
                (safe_of required last_ai.tool_calls);
      }
unfolding reject_all
rejected_answers_all repr required messages d last_ai found some_S refused none_left =
    let S = sensitive_of required last_ai.tool_calls in
    let F = safe_of required last_ai.tool_calls in
    check_is_gate repr required messages d last_ai found
    ∙ gate_asks repr required d last_ai some_S
    ∙ resume_rejects repr last_ai F S d refused none_left
    ∙ rw (map-verdict S d (reason_of d) S none_left) refl

-- A decision on several calls that names only some of them and approves each call it names lets all
-- calls of the message run, also the sensitive ones that it does not name.
pub partial_list_runs_all :
    (repr : List Block → String) (required : List String) (messages : List Message)
    (d : HumanDecision) (last_ai : AiMessage)
    → last_calling messages ≡ some last_ai
    → 1 < length (sensitive_of required last_ai.tool_calls)
    → all_rulings (rulings d) ≡ true
    → calls_run last_ai (check_approval repr required messages d) ≡ last_ai.tool_calls
unfolding all_approved calls_run
partial_list_runs_all repr required messages d last_ai found several all_yes =
    let S = sensitive_of required last_ai.tool_calls in
    let F = safe_of required last_ai.tool_calls in
    let batch : (length S == 1) ≡ false = ground arith in
    ap (calls_run last_ai) (
      check_is_gate repr required messages d last_ai found
      ∙ gate_asks repr required d last_ai (ground arith)
      ∙ resume_pass repr last_ai F S d (rw batch all_yes))

-- The tool messages of an update.
abbrev pub tool_messages : List Message → List Message
tool_messages [] = []
tool_messages (m ∷ ms) = elim m [
  | system _ ↦ tool_messages ms
  | human _ ↦ tool_messages ms
  | ai _ ↦ tool_messages ms
  | tool t ↦ tool t ∷ tool_messages ms
  | other _ ↦ tool_messages ms
]

tool_messages-map :
    (content : String) (cs : List ToolCall) (e : AiMessage)
    → tool_messages (map (answer content) cs ++ (ai e ∷ [])) ≡ map (answer content) cs
unfolding answer
tool_messages-map content [] e = refl
tool_messages-map content (c ∷ cs) e =
    ap (λ l. answer content c ∷ l) (tool_messages-map content cs e)

exec_apart :
    (F : List ToolCall) (is : List String) (S : List ToolCall)
    → All (IsApart F) S
    → exec_tool_calls F is S ≡ filter (λ c. among is (tool_call_id c)) S
unfolding exec_tool_calls
exec_apart F is [] h = refl
exec_apart F is (c ∷ S) h = elim (Bool-cases (among is (tool_call_id c))) [
  | inl e ↦ rw e (ap (λ l. c ∷ l) (exec_apart F is S h.1))
  | inr e ↦ rw (e, h.0) (exec_apart F is S h.1)
]

-- A batch of which some calls are approved and some not goes on to the tools. Of its sensitive calls
-- exactly those run whose id an approved ruling names, in order, and the tool messages of the update
-- are exactly one answer with the rejection for each of the others, in order, provided that no safe
-- call of the message has the id of a sensitive one.
pub partial_accounts :
    (repr : List Block → String) (required : List String) (messages : List Message)
    (d : HumanDecision) (last_ai : AiMessage) (i : String) (is : List String)
    → last_calling messages ≡ some last_ai
    → let S = sensitive_of required last_ai.tool_calls in
      (length S == 0) ≡ false
      → all_approved S d ≡ false
      → approved_ids S d ≡ i ∷ is
      → All (IsApart (safe_of required last_ai.tool_calls)) S
      → let c = check_approval repr required messages d in
        (c.goto ≡ to_tools)
        × (sensitive_of required (calls_run last_ai c)
            ≡ filter (λ t. among (i ∷ is) (tool_call_id t)) S)
        × (tool_messages c.messages
            ≡ map
                (answer ("[REJECTED] " <> reason_of d))
                (filter (λ t. not (among (i ∷ is) (tool_call_id t))) S))
unfolding build_partial_approval_command rejected_calls
partial_accounts repr required messages d last_ai i is found some_S refused ids apart =
    let S = sensitive_of required last_ai.tool_calls in
    let F = safe_of required last_ai.tool_calls in
    let e =
      check_is_gate repr required messages d last_ai found
      ∙ gate_asks repr required d last_ai some_S
      ∙ resume_partial repr last_ai F S d i is refused ids in
    let reason = reason_of d in
    rw e (
      refl,
      ap (sensitive_of required) (partial_runs repr last_ai F S (i ∷ is) reason)
          ∙ sensitive_exec required F (i ∷ is) last_ai.tool_calls
          ∙ exec_apart F (i ∷ is) S apart,
      tool_messages-map ("[REJECTED] " <> reason) (rejected_calls S (i ∷ is)) _,
    )
