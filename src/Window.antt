-- ===== src/Window.antt =====
-- backend/agent/nodes.py: what of a conversation is sent to the model and what is compacted
-- (`_window_messages`, `_split_overflow`). The estimate of a message's tokens is a parameter.
pub mod Tail
pub mod Budget
pub mod Systems
pub mod Compact
pub mod Merged
mod Tests
