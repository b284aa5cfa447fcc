-- ===== src/Events.antt =====
-- backend/runner/event_analysis.py: the gate that analyses an event of one entity once in a window.
pub mod Cooldown
pub mod Unpruned
mod Tests
