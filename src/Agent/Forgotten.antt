-- ===== src/Agent/Forgotten.antt =====
-- Messages with the mark of a failed call in backend/agent/nodes.py, and the answers of
-- `generate_final_node`.
use engineering_memory_agent.Common.{true, ◌≡◌, refl, String, none, List, [], ◌∷◌, ◌++◌, map}
use engineering_memory_agent.Common.Dict.{Dict}
use engineering_memory_agent.Agent.Message.{
  AiMessage, Message, system, human, ai, tool, other, is_llm_error_message,
}
use engineering_memory_agent.Agent.Serial.{
  CallEntry, responded_ids, convert, messages_to_dicts, answered, call_entry,
}
use engineering_memory_agent.Agent.Final.{
  FinalNode, Tokens, PromptMessage, generate_final, final_answer, reusable, final_messages,
}

responded_ids-append_ai :
    (ms later : List Message) (a : AiMessage)
    → responded_ids (ms ++ (ai a ∷ later)) ≡ responded_ids (ms ++ later)
unfolding responded_ids
responded_ids-append_ai [] later a = refl
responded_ids-append_ai (system c ∷ ms) later a = responded_ids-append_ai ms later a
responded_ids-append_ai (human c ∷ ms) later a = responded_ids-append_ai ms later a
responded_ids-append_ai (ai b ∷ ms) later a = responded_ids-append_ai ms later a
responded_ids-append_ai (tool t ∷ ms) later a = rw (responded_ids-append_ai ms later a) refl
responded_ids-append_ai (other c ∷ ms) later a = responded_ids-append_ai ms later a

module _ (dumps : Dict String String → String) (truncate : String → String)
    (responded : List String) (a : AiMessage) (marked : a.llm_error ≡ true) where
  convert-append_marked :
      (seen : List String) (ms later : List Message)
      → convert dumps truncate responded seen (ms ++ (ai a ∷ later))
        ≡ convert dumps truncate responded seen (ms ++ later)
  unfolding convert is_llm_error_message
  convert-append_marked seen [] later = rw marked refl
  convert-append_marked seen (system c ∷ ms) later = rw (convert-append_marked seen ms later) refl
  convert-append_marked seen (human c ∷ ms) later = rw (convert-append_marked seen ms later) refl
  convert-append_marked seen (ai b ∷ ms) later =
      rw
        (
          convert-append_marked seen ms later,
          convert-append_marked
              (seen
                ++ map (λ (c : CallEntry). c.id) (map (call_entry dumps) (answered responded b)))
              ms later,
        )
        refl
  convert-append_marked seen (tool t ∷ ms) later = rw (convert-append_marked seen ms later) refl
  convert-append_marked seen (other c ∷ ms) later = convert-append_marked seen ms later

-- A marked message is in none of the entries that a conversation converts to.
marked_unsent :
    (dumps : Dict String String → String) (truncate : String → String) (ms later : List Message)
    (a : AiMessage)
    → a.llm_error ≡ true
    → messages_to_dicts dumps truncate (ms ++ (ai a ∷ later))
      ≡ messages_to_dicts dumps truncate (ms ++ later)
unfolding messages_to_dicts
marked_unsent dumps truncate ms later a marked =
    rw (responded_ids-append_ai ms later a)
      (convert-append_marked dumps truncate (responded_ids (ms ++ later)) a marked [] ms later)

final_answer_marked : (stream : Tokens) → (final_answer stream).llm_error ≡ true
unfolding final_answer
final_answer_marked stream = refl

-- An answer that `generate_final` synthesises, because the conversation holds none that can be used
-- again, is in none of the entries that a conversation converts to, also where its stream did not
-- fail: whatever messages follow it, the conversation converts to the same entries as without it.
pub final_answer_forgotten :
    (node : FinalNode) (chat : List PromptMessage → Tokens) (messages later : List Message)
    (dumps : Dict String String → String) (truncate : String → String)
    → reusable node.env.repr messages ≡ none
    → let (response, update) = generate_final node chat messages in
      messages_to_dicts dumps truncate (messages ++ (update ++ later))
      ≡ messages_to_dicts dumps truncate (messages ++ later)
unfolding generate_final
final_answer_forgotten node chat messages later dumps truncate fresh =
    let stream = chat (final_messages node messages) in
    rw (fresh, generate_final)
      (marked_unsent dumps truncate messages later (final_answer stream)
        (final_answer_marked stream))
