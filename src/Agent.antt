-- ===== src/Agent.antt =====
-- backend/agent: the messages of a conversation, the approval gate before the tools, the turn of the
-- graph, and what is sent to the model.
pub mod Message
pub mod Approval
pub mod Envelope
pub mod Serial
pub mod Turn
pub mod Llm
pub mod Final
pub mod Forgotten
pub mod Conflict
pub mod AutoMemory
pub mod StandsDown
pub mod Graph
pub mod Reducer
pub mod Ends
pub mod Safety
pub mod Verdicts
mod Tests
