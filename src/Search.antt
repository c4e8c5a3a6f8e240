-- ===== src/Search.antt =====
-- ewsmcp/embeddings.py, semantic.py and boilerplate.py: the index of chunks and the hybrid search.
pub mod Slices
pub mod Chunking
pub mod Gemini
pub mod Index
pub mod Fusion
pub mod Boilerplate
