-- ===== src/Memory.antt =====
-- backend/service/memory.py: the write path of the memory store and the resolution of conflicts.
-- `Row` is the table, `Values` the merging of entities, relations and metadata, `Table` the SQL
-- statements, `Write` and `Resolve` the two services; the other children hold the proofs.
pub mod Row
pub mod Values
pub mod Table
pub mod Act
pub mod Write
pub mod Resolve
pub mod Unique
pub mod Live
pub mod Search
pub mod Posts
pub mod Gate
pub mod Superseded
pub mod Patrol
mod Tests
pub mod Merging
pub mod Stale
