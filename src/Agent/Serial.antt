-- ===== src/Agent/Serial.antt =====
-- `_messages_to_dicts` of backend/agent/nodes.py: the messages as the model's interface takes them.
-- The cut of a tool's result is `truncate_tool_content`, and `json.dumps` of a call's arguments and
-- the parser of envelopes are parameters.
use Prim.Native.String.{◌++◌ as ◌<>◌}
use engineering_memory_agent.Common.{
  true, not, ◌&&◌, ◌≡◌, sym, subst, inl, inr, String, Option, none, some, List, [], ◌∷◌, ◌++◌,
  append-nil, map, length, filter, str_eq, ◌==◌, All, All-filter_test, if◌then◌else◌, Bool-cases,
}
use engineering_memory_agent.Common.Dict.{Dict}
use engineering_memory_agent.Common.Text.{strip}
use engineering_memory_agent.Agent.Message.{
  ToolCall, Block, text_block, object_block, other_block, MessageContent, text, blocks, AiMessage,
  ToolMessage, Message, system, human, ai, tool, other, is_llm_error_message,
}
use engineering_memory_agent.Agent.Approval.{among}

-- A tool call of an assistant entry, its arguments as JSON text.
pub record CallEntry : Type 0 where
  pub id : String
  pub name : String
  pub arguments : String

-- An entry without tool calls has no such key.
pub record Entry : Type 0 where
  pub role : String
  pub content : String
  pub tool_calls : List CallEntry
  pub tool_call_id : Option String

-- `parts`
abbrev pub parts : List Block → List String
parts [] = []
parts (text_block s ∷ bs) = s ∷ parts bs
parts (object_block s ∷ bs) = s ∷ parts bs
parts (other_block ∷ bs) = parts bs

-- `" ".join`
abbrev pub spaced : List String → String
spaced [] = ""
spaced (s ∷ ss) = elim ss [ [] ↦ s | _ ∷ _ ↦ s <> " " <> spaced ss ]

unfoldable pub text_of : MessageContent → String
text_of (text s) = s
text_of (blocks bs) = spaced (parts bs)

-- `responded_ids`
unfoldable pub responded_ids : List Message → List String
responded_ids [] = []
responded_ids (m ∷ ms) =
    let rest = responded_ids ms in
    elim m [
      | system _ ↦ rest
      | human _ ↦ rest
      | ai _ ↦ rest
      | tool t ↦ if str_eq t.tool_call_id "" then rest else t.tool_call_id ∷ rest
      | other _ ↦ rest
    ]

unfoldable pub answered : List String → AiMessage → List ToolCall
answered responded a = filter (λ (c : ToolCall). among responded c.id) a.tool_calls

abbrev pub plain : String → MessageContent → Entry
plain role content = record {
  role = role;
  content = text_of content;
  tool_calls = [];
  tool_call_id = none;
}

module _ (dumps : Dict String String → String) where
  unfoldable pub call_entry : ToolCall → CallEntry
  call_entry c = record { id = c.id; name = c.name; arguments = dumps c.args }

  -- The content of an assistant entry: a placeholder where all of its calls are unanswered.
  unfoldable pub assistant_entry : List String → AiMessage → Entry
  unfolding answered call_entry text_of
  assistant_entry responded a =
      let calls = answered responded a in
      let content = text_of a.content in
      record {
        role = "assistant";
        content =
            if not (length a.tool_calls == 0) && length calls == 0 && str_eq (strip content) ""
            then "(tool call was interrupted)"
            else content;
        tool_calls = map call_entry calls;
        tool_call_id = none;
      }

abbrev tool_entry : (String → String) → ToolMessage → Option String → Entry
tool_entry truncate t id = record {
  role = "tool";
  content = truncate (text_of t.content);
  tool_calls = [];
  tool_call_id = id;
}

module _ (dumps : Dict String String → String) (truncate : String → String) where
  -- The loop over the messages; `emitted` are the ids of the calls emitted so far.
  unfoldable pub convert : List String → List String → List Message → List Entry
  unfolding assistant_entry answered is_llm_error_message
  convert responded emitted [] = []
  convert responded emitted (m ∷ ms) =
      let rest = convert responded emitted ms in
      elim m [
        | system c ↦ plain "system" c ∷ rest
        | human c ↦ plain "user" c ∷ rest
        | ai a ↦
            if is_llm_error_message (ai a)
            then rest
            else assistant_entry dumps responded a
              ∷ convert responded
                  (emitted
                    ++ map (λ (c : CallEntry). c.id)
                        (map (call_entry dumps) (answered responded a)))
                  ms
        | tool t ↦
            if str_eq t.tool_call_id ""
            then tool_entry truncate t none ∷ rest
            else if among emitted t.tool_call_id
            then tool_entry truncate t (some t.tool_call_id) ∷ rest
            else rest
        | other _ ↦ rest
      ]

  -- `_messages_to_dicts`
  unfoldable pub messages_to_dicts : List Message → List Entry
  unfolding convert responded_ids
  messages_to_dicts messages = convert (responded_ids messages) [] messages

-- What the interface accepts: each tool entry answers a call of an earlier entry, and each call of an
-- entry is one of `responded`.
pub data Answers (seen : List String) : Option String → Type 0 where
  no_id : Answers seen none
  earlier : (i : String) → among seen i ≡ true → Answers seen (some i)

abbrev pub IsAccepted : List String → List String → List Entry → Type 0
IsAccepted responded seen [] = Unit
IsAccepted responded seen (e ∷ es) =
    Answers seen e.tool_call_id
    × All (λ (c : CallEntry). among responded c.id ≡ true) e.tool_calls
    × IsAccepted responded (seen ++ map (λ (c : CallEntry). c.id) e.tool_calls) es

entries_responded :
    (dumps : Dict String String → String) (responded : List String) (cs : List ToolCall)
    → All (λ (c : ToolCall). among responded c.id ≡ true) cs
    → All (λ (c : CallEntry). among responded c.id ≡ true) (map (call_entry dumps) cs)
unfolding call_entry
entries_responded dumps responded [] h = tt
entries_responded dumps responded (c ∷ cs) h = (h.0, entries_responded dumps responded cs h.1)

module _ (dumps : Dict String String → String) (truncate : String → String)
    (responded : List String) where
  abbrev IsRest : List String → List Message → Type 0
  IsRest seen ms = IsAccepted responded seen (convert dumps truncate responded seen ms)

  -- An entry without calls adds no ids.
  same_seen :
      (seen : List String) (es : List Entry)
      → IsAccepted responded seen es
      → IsAccepted responded (seen ++ []) es
  same_seen seen es h = subst (λ l. IsAccepted responded l es) (sym (append-nil seen)) h

  assistant-IsAccepted :
      (seen : List String) (a : AiMessage) (ms : List Message)
      → ((l : List String) → IsRest l ms)
      → IsRest seen (ai a ∷ ms)
  unfolding convert assistant_entry answered
  assistant-IsAccepted seen a ms rest = elim (Bool-cases (is_llm_error_message (ai a))) [
    | inl e ↦ rw e (rest seen)
    | inr e ↦ rw e (
      no_id,
      entries_responded dumps responded (answered responded a)
          (All-filter_test (λ (c : ToolCall). among responded c.id) a.tool_calls),
      rest _,
    )
  ]

  tool-IsAccepted :
      (seen : List String) (t : ToolMessage) (ms : List Message)
      → IsRest seen ms
      → IsRest seen (tool t ∷ ms)
  unfolding convert
  tool-IsAccepted seen t ms rest = elim (Bool-cases (str_eq t.tool_call_id "")) [
    | inl e ↦ rw e (no_id, tt, same_seen seen (convert dumps truncate responded seen ms) rest)
    | inr e ↦ elim (Bool-cases (among seen t.tool_call_id)) [
      | inl f ↦
          rw (e, f)
            (
              earlier t.tool_call_id f,
              tt,
              same_seen seen (convert dumps truncate responded seen ms) rest,
            )
      | inr f ↦ rw (e, f) rest
    ]
  ]

  convert-IsAccepted : (seen : List String) (ms : List Message) → IsRest seen ms
  unfolding convert
  convert-IsAccepted seen [] = tt
  convert-IsAccepted seen (system c ∷ ms) = (
    no_id,
    tt,
    same_seen seen (convert dumps truncate responded seen ms) (convert-IsAccepted seen ms),
  )
  convert-IsAccepted seen (human c ∷ ms) = (
    no_id,
    tt,
    same_seen seen (convert dumps truncate responded seen ms) (convert-IsAccepted seen ms),
  )
  convert-IsAccepted seen (ai a ∷ ms) =
      assistant-IsAccepted seen a ms (λ l. convert-IsAccepted l ms)
  convert-IsAccepted seen (tool t ∷ ms) = tool-IsAccepted seen t ms (convert-IsAccepted seen ms)
  convert-IsAccepted seen (other c ∷ ms) = convert-IsAccepted seen ms

-- Whatever the conversation, each tool entry with an id that is sent to the model answers a tool call
-- of an earlier entry that is sent, and each tool call that is sent has a tool message with its id in
-- the conversation.
pub messages_to_dicts-IsAccepted :
    (dumps : Dict String String → String) (truncate : String → String) (messages : List Message)
    → IsAccepted (responded_ids messages) [] (messages_to_dicts dumps truncate messages)
unfolding messages_to_dicts
messages_to_dicts-IsAccepted dumps truncate messages =
    convert-IsAccepted dumps truncate (responded_ids messages) [] messages
