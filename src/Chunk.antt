-- ===== src/Chunk.antt =====
-- Chunking of documents (crates/contextos-search/src/chunk.rs).
pub mod Headings
pub mod Split
pub mod Sections
pub mod Document
pub mod Indexed
