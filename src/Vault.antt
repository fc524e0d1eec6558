-- ===== src/Vault.antt =====
-- crates/contextos-core/src/path.rs: vault roots, the set of roots, and the confinement of the
-- paths that tools pass in.
pub mod Error
pub mod Root
pub mod Set
pub mod Lexical
pub mod Resolve
pub mod Confine
