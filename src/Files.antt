-- ===== src/Files.antt =====
-- The vault's files: the adapter that persists mutations (crates/contextos-fs/src/mutate.rs).
pub mod Error
pub mod Disk
pub mod Mutate
pub mod Steps
pub mod Gate
pub mod Laws
pub mod Atomic
pub mod Spare
pub mod Grow
pub mod Edit
pub mod Read
pub mod Service
