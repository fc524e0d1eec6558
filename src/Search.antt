-- ===== src/Search.antt =====
-- The search crate (crates/contextos-search/src): its errors, and the embedding worker, which keeps
-- the rows of the vector store up to date with the notes.
pub mod Error
pub mod Queue
pub mod Embed
pub mod Worker
