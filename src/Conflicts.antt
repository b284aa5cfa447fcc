-- ===== src/Conflicts.antt =====
-- backend/service/conflicts.py: the queue of memory conflicts that wait for a human's decision.
pub mod Queue
pub mod Patrol
pub mod Service
pub mod Distinct
pub mod Update
pub mod Redelivery
pub mod Exit
pub mod Reopen
pub mod Undo
pub mod Refusal
pub mod SelfPair
mod Tests
