-- ===== src/Retrieval.antt =====
-- backend/service/retrieval/retrieval.py: the cache of query embeddings, and the fusion of the
-- dense and the sparse results. The embedding model and the two searches are parameters.
pub mod Cache
pub mod Embed
pub mod Fusion
pub mod Ranking
mod Tests
