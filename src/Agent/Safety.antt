-- ===== src/Agent/Safety.antt =====
-- Which tool calls the approval gate of backend/agent/nodes.py lets through, and what it answers.
use Prim.Native.String.{◌++◌ as ◌<>◌}
use engineering_memory_agent.Common.{
  ◌≡◌, ◌⊎◌, refl, sym, ap, ◌∙◌, subst, inl, inr, Bool, true, false, ◌&&◌, ◌||◌, String, some, List,
  [], ◌∷◌, ◌++◌, map, length, filter, any, every, str_eq, ◌==◌, arith, All, All-replicate, All-map,
  All-both, All-filter, All-filter_test, filter_comm, if◌then◌else◌, Bool-cases, List-cases,
}
use engineering_memory_agent.Agent.Message.{
  ToolCall, Block, AiMessage, Message, system, human, ai, tool, other, last_calling,
}
use engineering_memory_agent.Agent.Approval.{
  Ruling, HumanDecision, Command, to_tools, to_call_llm, tool_call_id, among, is_sensitive,
  sensitive_of, safe_of, rulings, all_rulings, approved_ids, all_approved, exec_tool_calls,
  rejected_calls, build_partial_approval_command, reject_all, resume, gate, run_tools,
  check_approval, reason_of, answer,
}

-- What `tools` runs after a command: the calls of the message that the update puts in place of the
-- newest one with calls, or those of the latter.
abbrev pub replacing : List Message → List ToolCall → List ToolCall
replacing [] calls = calls
replacing (m ∷ ms) calls = elim m [
  | system _ ↦ replacing ms calls
  | human _ ↦ replacing ms calls
  | ai a ↦ a.tool_calls
  | tool _ ↦ replacing ms calls
  | other _ ↦ replacing ms calls
]

unfoldable pub calls_run : AiMessage → Command → List ToolCall
calls_run last_ai c = elim c.goto [
  | to_tools ↦ replacing c.messages last_ai.tool_calls
  | to_call_llm ↦ []
]

-- The human has approved a call of those asked about.
unfoldable pub approves : List ToolCall → HumanDecision → ToolCall → Bool
unfolding tool_call_id
approves asked d c =
    if length asked == 1
    then d.approved
    else any (λ (r : Ruling). r.approved && str_eq r.id (tool_call_id c)) (rulings d)

-- The decision rules on a call.
unfoldable pub names : HumanDecision → ToolCall → Bool
unfolding tool_call_id
names d c = any (λ (r : Ruling). str_eq r.id (tool_call_id c)) (rulings d)

abbrev pub IsNamed : HumanDecision → ToolCall → Type 0
IsNamed d c = names d c ≡ true

abbrev pub IsApproved : List ToolCall → HumanDecision → ToolCall → Type 0
IsApproved asked d c = approves asked d c ≡ true

-- No safe call of the message has the id of the call.
abbrev pub IsApart : List ToolCall → ToolCall → Type 0
unfolding tool_call_id
IsApart safe c = among (map tool_call_id safe) (tool_call_id c) ≡ false

named_approved :
    (id : String) (rs : List Ruling)
    → every (λ (r : Ruling). r.approved) rs ≡ true
    → any (λ (r : Ruling). str_eq r.id id) rs ≡ true
    → any (λ (r : Ruling). r.approved && str_eq r.id id) rs ≡ true
named_approved id [] h k = k
named_approved id (r ∷ rs) h k = elim (Bool-cases r.approved) [
  | inl e ↦ elim (Bool-cases (str_eq r.id id)) [
    | inl f ↦ rw (e, f) refl
    | inr f ↦ rw (e, f) (named_approved id rs (cc (rw e at h)) (cc (rw f at k)))
  ]
  | inr e ↦ absurd (ground (arith, rw e at h))
]

among_approved :
    (id : String) (rs : List Ruling)
    → among (map (λ (r : Ruling). r.id) (filter (λ (r : Ruling). r.approved) rs)) id
      ≡ any (λ (r : Ruling). r.approved && str_eq r.id id) rs
among_approved id [] = refl
among_approved id (r ∷ rs) = elim (Bool-cases r.approved) [
  | inl e ↦ rw e (ap (λ b. str_eq r.id id || b) (among_approved id rs))
  | inr e ↦ rw e (among_approved id rs)
]

all_rulings-every :
    (rs : List Ruling) → all_rulings rs ≡ true → every (λ (r : Ruling). r.approved) rs ≡ true
all_rulings-every [] h = refl
all_rulings-every (r ∷ rs) h = h

left_of : (a b : Bool) → b ≡ false → (a || b) ≡ true → a ≡ true
left_of true b h k = refl
left_of false b h k = cc (h, k)

module _ (S : List ToolCall) (d : HumanDecision) (c : ToolCall) where
  approves_one : (length S == 1) ≡ true → approves S d c ≡ d.approved
  unfolding approves
  approves_one e = rw e refl

  approves_batch :
      (length S == 1) ≡ false
      → approves S d c
        ≡ any (λ (r : Ruling). r.approved && str_eq r.id (tool_call_id c)) (rulings d)
  unfolding approves
  approves_batch e = rw e refl

module _ (d : HumanDecision) where
  -- All that is asked about is approved.
  pass-IsApproved :
      (S : List ToolCall)
      → all_approved S d ≡ true
      → (length S ≡ 1) ⊎ All (IsNamed d) S
      → All (IsApproved S d) S
  unfolding all_approved approves names
  pass-IsApproved S h k = elim (Bool-cases (length S == 1)) [
    | inl e ↦ All-replicate (IsApproved S d) (λ c. approves_one S d c e ∙ cc (rw e at h)) S
    | inr e ↦ elim k [
      | inl one ↦ absurd (ground (arith, e, one))
      | inr named ↦
          All-map (IsNamed d) (IsApproved S d)
            (λ c h'.
              approves_batch S d c e
              ∙ named_approved (tool_call_id c) (rulings d)
                  (all_rulings-every (rulings d) (cc (rw e at h))) h')
            S named
    ]
  ]

  -- The sensitive calls that a partial approval keeps.
  partial-IsApproved :
      (S F : List ToolCall) (is : List String) (i : String)
      → approved_ids S d ≡ i ∷ is
      → All (IsApart F) S
      → All (IsApproved S d) (exec_tool_calls F (i ∷ is) S)
  unfolding exec_tool_calls approves approved_ids
  partial-IsApproved S F is i e h = elim (Bool-cases (length S == 1)) [
    | inl one ↦ absurd (ground (arith, rw one at e))
    | inr more ↦
        let ids : map (λ (r : Ruling). r.id) (filter (λ (r : Ruling). r.approved) (rulings d))
            ≡ i ∷ is =
          cc (rw more at e) in
        let kept = λ (c : ToolCall).
          among (i ∷ is) (tool_call_id c) || among (map tool_call_id F) (tool_call_id c) in
        All-both (IsApart F) (λ c. kept c ≡ true) (IsApproved S d)
          (λ c apart k.
            approves_batch S d c more
            ∙ sym (among_approved (tool_call_id c) (rulings d))
            ∙ ap (λ l. among l (tool_call_id c)) ids
            ∙ left_of (among (i ∷ is) (tool_call_id c))
                (among (map tool_call_id F) (tool_call_id c)) apart k)
          (filter kept S) (All-filter (IsApart F) kept S h) (All-filter_test kept S)
  ]

replacing_tools :
    (content : String) (rejected : List ToolCall) (e : AiMessage) (calls : List ToolCall)
    → replacing (map (answer content) rejected ++ (ai e ∷ [])) calls ≡ e.tool_calls
unfolding answer
replacing_tools content [] e calls = refl
replacing_tools content (c ∷ cs) e calls = replacing_tools content cs e calls

pub sensitive_exec :
    (required : List String) (F : List ToolCall) (is : List String) (calls : List ToolCall)
    → sensitive_of required (exec_tool_calls F is calls)
      ≡ exec_tool_calls F is (sensitive_of required calls)
unfolding sensitive_of exec_tool_calls
sensitive_exec required F is calls =
    filter_comm (is_sensitive required)
      (λ c. among is (tool_call_id c) || among (map tool_call_id F) (tool_call_id c)) calls

none_of_length : (S : List ToolCall) → (length S == 0) ≡ true → S ≡ []
none_of_length [] h = refl
none_of_length (c ∷ S) h = absurd (ground (arith, h))

pub resume_rejects :
    (repr : List Block → String) (last_ai : AiMessage) (F S : List ToolCall) (d : HumanDecision)
    → all_approved S d ≡ false
    → approved_ids S d ≡ []
    → resume repr last_ai F S d ≡ reject_all F S d (reason_of d)
unfolding resume
resume_rejects repr last_ai F S d h k = rw (h, k) refl

pub resume_partial :
    (repr : List Block → String) (last_ai : AiMessage) (F S : List ToolCall) (d : HumanDecision)
    (i : String) (is : List String)
    → all_approved S d ≡ false
    → approved_ids S d ≡ i ∷ is
    → resume repr last_ai F S d
      ≡ build_partial_approval_command repr last_ai F S (i ∷ is) (reason_of d)
unfolding resume
resume_partial repr last_ai F S d i is h k = rw (h, k) refl

pub resume_pass :
    (repr : List Block → String) (last_ai : AiMessage) (F S : List ToolCall) (d : HumanDecision)
    → all_approved S d ≡ true
    → resume repr last_ai F S d ≡ run_tools
unfolding resume
resume_pass repr last_ai F S d h = rw h refl

pub partial_runs :
    (repr : List Block → String) (last_ai : AiMessage) (F S : List ToolCall) (is : List String)
    (reason : String)
    → calls_run last_ai (build_partial_approval_command repr last_ai F S is reason)
      ≡ exec_tool_calls F is last_ai.tool_calls
unfolding build_partial_approval_command calls_run
partial_runs repr last_ai F S is reason =
    replacing_tools ("[REJECTED] " <> reason) (rejected_calls S is) _ last_ai.tool_calls

module _ (repr : List Block → String) (required : List String) (d : HumanDecision)
    (last_ai : AiMessage) where
  gate_all_safe :
      (length (sensitive_of required last_ai.tool_calls) == 0) ≡ true
      → gate repr required last_ai d ≡ run_tools
  unfolding gate
  gate_all_safe e = rw e refl

  pub gate_asks :
      let S = sensitive_of required last_ai.tool_calls in
      (length S == 0) ≡ false
      → gate repr required last_ai d ≡ resume repr last_ai (safe_of required last_ai.tool_calls) S d
  unfolding gate
  gate_asks e = rw e refl

module _ (repr : List Block → String) (required : List String) (d : HumanDecision)
    (last_ai : AiMessage) where
  abbrev IsSafe : Command → Type 0
  IsSafe c =
      All (λ c. approves (sensitive_of required last_ai.tool_calls) d c ≡ true)
        (sensitive_of required (calls_run last_ai c))

  pass-IsSafe :
      let S = sensitive_of required last_ai.tool_calls in All (IsApproved S d) S → IsSafe run_tools
  unfolding calls_run
  pass-IsSafe h = h

  reject-IsSafe : (F S : List ToolCall) (reason : String) → IsSafe (reject_all F S d reason)
  unfolding calls_run reject_all sensitive_of
  reject-IsSafe F S reason = tt

  resume-IsSafe :
      let S = sensitive_of required last_ai.tool_calls in
      let F = safe_of required last_ai.tool_calls in
      (length S ≡ 1) ⊎ All (IsNamed d) S → All (IsApart F) S → IsSafe (resume repr last_ai F S d)
  resume-IsSafe named apart =
      let S = sensitive_of required last_ai.tool_calls in
      let F = safe_of required last_ai.tool_calls in
      elim (Bool-cases (all_approved S d)) [
        | inl e ↦
            subst IsSafe (sym (resume_pass repr last_ai F S d e))
              (pass-IsSafe (pass-IsApproved d S e named))
        | inr e ↦ elim (List-cases (approved_ids S d)) [
          | inl k ↦
              subst IsSafe (sym (resume_rejects repr last_ai F S d e k))
                (reject-IsSafe F S (reason_of d))
          | inr (i, is, k) ↦ subst IsSafe (sym (resume_partial repr last_ai F S d i is e k)) (
              subst (λ l. All (IsApproved S d) (sensitive_of required l))
                (sym (partial_runs repr last_ai F S (i ∷ is) (reason_of d)))
                (subst (All (IsApproved S d))
                  (sym (sensitive_exec required F (i ∷ is) last_ai.tool_calls))
                  (partial-IsApproved d S F is i k apart)))
        ]
      ]

  gate-IsSafe :
      let S = sensitive_of required last_ai.tool_calls in
      (length S ≡ 1) ⊎ All (IsNamed d) S
      → All (IsApart (safe_of required last_ai.tool_calls)) S
      → IsSafe (gate repr required last_ai d)
  unfolding gate
  gate-IsSafe named apart =
      let S = sensitive_of required last_ai.tool_calls in
      let F = safe_of required last_ai.tool_calls in
      elim (Bool-cases (length S == 0)) [
        | inl e ↦
            subst IsSafe (sym (gate_all_safe repr required d last_ai e))
              (pass-IsSafe (rw (none_of_length S e) tt))
        | inr e ↦
            subst IsSafe (sym (gate_asks repr required d last_ai e)) (resume-IsSafe named apart)
      ]

pub check_is_gate :
    (repr : List Block → String) (required : List String) (messages : List Message)
    (d : HumanDecision) (last_ai : AiMessage)
    → last_calling messages ≡ some last_ai
    → check_approval repr required messages d ≡ gate repr required last_ai d
unfolding check_approval
check_is_gate repr required messages d last_ai found = rw (found, check_approval) refl

-- A sensitive tool call that the gate lets through to the tools was approved by the human, provided
-- that a decision on several calls rules on each of them and that no safe call of the message has the
-- id of a sensitive one.
pub check_approval-IsApproved :
    (repr : List Block → String) (required : List String) (messages : List Message)
    (d : HumanDecision) (last_ai : AiMessage)
    → last_calling messages ≡ some last_ai
    → let S = sensitive_of required last_ai.tool_calls in
      (length S ≡ 1) ⊎ All (IsNamed d) S
      → All (IsApart (safe_of required last_ai.tool_calls)) S
      → All
          (IsApproved S d)
          (sensitive_of required (calls_run last_ai (check_approval repr required messages d)))
check_approval-IsApproved repr required messages d last_ai found named apart =
    rw (check_is_gate repr required messages d last_ai found)
      (gate-IsSafe repr required d last_ai named apart)
