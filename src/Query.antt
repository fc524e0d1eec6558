-- ===== src/Query.antt =====
-- Queries over the notes of a vault, as Obsidian's bases make them
-- (crates/contextos-obsidian/src/base_query.rs, crates/contextos-mcp/src/tools/base_query.rs).
pub mod Value
pub mod Leaf
pub mod Expression
pub mod Filter
pub mod Hint
pub mod Ends
pub mod Grammar
