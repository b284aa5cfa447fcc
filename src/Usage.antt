-- ===== src/Usage.antt =====
-- backend/service/usage.py: the buffer of usage observations and its flush into the table `llm_usage`.
pub mod Buffer
pub mod Conserved
mod Tests
