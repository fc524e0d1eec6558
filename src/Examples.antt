-- ===== src/Examples.antt =====
-- Concrete inputs: a server with two roots, its tests, and the examples of the results.
mod Server
mod Documents
mod Notes
mod Paths
mod Disks
mod Lawful
mod Services
mod Mutations
mod Journals
mod Texts
mod Embedding
mod Reading
mod Indexes
mod IndexService
mod IndexEvent
mod Queries
mod Edits
