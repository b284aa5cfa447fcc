-- ===== src/Chunk.antt =====
-- backend/service/ingestion/chunk.py: the splitters for prose and the line-based fallback for code. A
-- text is a list of characters of any type.
pub mod Hard
pub mod Prose
pub mod Bounds
pub mod Lossless
pub mod Code
pub mod Lines
mod Tests
