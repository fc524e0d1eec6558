-- ===== src/Index.antt =====
-- Managed index files (crates/contextos-index/src/lib.rs): a table of the entries of a directory
-- between two markers of a Markdown file.
pub mod Block
pub mod Document
pub mod Summary
pub mod Service
