-- ===== src/Lib.antt =====
-- Verification of ContextOS, a Model Context Protocol server that lets a language model read and
-- change vaults of Markdown notes. Paths are given from the root of the repository.
--
-- How the parts interact. A tool names a file by a text. Path validation turns the text into a
-- VaultPath below one of the configured roots, or refuses it. A mutation goes through the write
-- pipeline: the adapter persists it, the pipeline makes an operation event, and the operation
-- router tells the services (index, operation log, versions, search), whose failures come back as
-- warnings. An edit reads a file and writes it under the hash of what it read. The index service
-- rewrites the index files of the directories that an event affects, and the operation log appends
-- one line a tool operation to a file of the day, both through a pipeline whose events are
-- internal. The search service queues the paths that changed; its embedding worker splits their
-- documents into chunks and stores a vector for each chunk. A query scans the notes of a vault, or
-- of the directory that its filters are bound to, and keeps the notes of which the filters are
-- true.
--
-- Which file models what:
--   Prelude, Prelude/*: shared names; Boolean tests on native numbers; lists; `Result` with its
--     bind (the `?` operator); equality as a class; `str` as a list of code points (`Text`) with
--     its UTF-8 bytes.
--   FilePath, FilePath/Laws: `std::path` on Unix: a path is its list of components.
--   Host: what is asked of the file system and of the dunce and camino crates about paths, a
--     parameter, with the documented behaviour as the laws `IsLawful`.
--   Vault/Error, Vault/Root, Vault/Set, Vault/Lexical, Vault/Resolve, Vault/Confine:
--     crates/contextos-core/src/path.rs. Root.try_from is VaultRoot::try_from, Set.try_from is
--     VaultSet::try_from, Confine.try_from is VaultPath::try_from; the other functions keep their
--     names. A `Fault` is a typed error or the panic of an index out of bounds.
--   Hash, Operation, Pipeline, Pipeline/Request: crates/contextos-core/src/pipeline.rs. The six
--     methods are functions of the world that the adapter and the clock change; `Exec` keeps what
--     was changed before a failure. restore_content, delete_path and routed_* are the methods
--     restore, delete, and those of RoutedWritePipeline.
--   Routing: crates/contextos-core/src/routing.rs, over four services that change a world.
--   LogRecord, Oplog: crates/contextos-oplog/src/lib.rs, the text of a record and the log itself.
--     try_from_config is OperationLog::try_from.
--   Files/Error: crates/contextos-fs/src/error.rs.
--   Files/Disk, Files/Laws: what is asked of std::fs and of the tempfile, trash and sha2 crates, a
--     parameter, with the documented behaviour as the laws `IsDisk`.
--   Files/Mutate: the adapter of crates/contextos-fs/src/mutate.rs (impl AppliesMutations for
--     Filesystem, revalidate, validate_expected_hash) and hash_file of discover.rs beside it.
--   Files/Edit: apply_exact_edit and the loop over the edits of edit_file, in mutate.rs.
--   Files/Service: FilesystemService in mutate.rs. service_from is its `from` with services, and
--     the differ of edit_file, from the similar crate, is a parameter.
--   Files/Read, Files/Read/Utf8: crates/contextos-fs/src/read.rs, over the abstract files
--     `ReadsDisk`: Read.try_from is Filesystem::try_from, limits_of is Filesystem::limits, and
--     select, observe and finish are the methods of ReadAccumulator. Utf8 is `String::from_utf8`.
--   Tags: crates/contextos-core/src/tags.rs. The alphanumeric property of Unicode is a parameter.
--   Chunk: crates/contextos-search/src/chunk.rs and document.rs beside it. Chunk/Indexed has
--     IndexedDocument, of which indexed_document is `from`, and Chunk::query as query.
--     Chunk/Split has split_section_words with its closures and loops, where nothing stands for a
--     panic; Chunk/Split/Plain has the same loops over an estimate that never fails, beside the code, as
--     is Chunk/Sections/Open, the headings that are open behind some lines.
--   Search/Error, Search/Queue, Search/Embed, Search/Worker: crates/contextos-search/src/error.rs
--     and embedding_worker.rs. Queue has the queue's state, Embed the processing of one path over
--     ports, and Worker the drains and the shutdown; select_chunks, embed_chunks and update_rows
--     are parts of embed_path. What is asked of the vector store is `IsStore` in Search/Embed/Store,
--     and `IsWatched` in Search/Embed/Asked reads what the embedder was given.
--   Index/Block, Index/Document, Index/Summary: the text of index files, in
--     crates/contextos-index/src/lib.rs. index_document is IndexDocument::try_from and
--     index_summary is IndexSummary::try_from.
--   Index/Service, Index/Service/Reconcile, Index/Service/Rebuild: IndexService in the same file,
--     over the ports of crates/contextos-core/src/vault.rs. The two loops of reconcile_event are
--     affected and reconcile_directories; save_index is the end of persist_directory.
--   Query/Value, Query/Leaf, Query/Expression, Query/Filter, Query/Hint: the filters of bases, in
--     crates/contextos-obsidian/src/base_query.rs. Leaf has evaluate_leaf with its parts,
--     Expression scan_leaf and the parser from parse_or to parse_primary, Filter evaluate_node and
--     evaluate_filters, and Hint scan_root_hint with the walk from hint_or to hint_primary. The
--     cursor is the text that is left. candidate_directory and narrowed (the directory that `run`
--     chooses) are in crates/contextos-mcp/src/tools/base_query.rs.
--   Query/Grammar: the grammar of filter expressions as the comments of base_query.rs describe it,
--     a description beside the code.
--   Examples: a concrete server and concrete services, with tests and examples.
--   The other files below a part hold its theorems.
--
-- Bounds and fuel. `usize` has 64 bits, so an identifier (32 bits) always fits it and additions
-- on lengths of texts in memory do not overflow. The loops of chunking take the number of words
-- left as fuel, which is enough since every round moves on by a word. A drain takes one round more
-- than the queue has paths, since every round takes a path off the queue. A rebuild takes the depth
-- of the subtree, one unit a level; a subtree that a symbolic link makes endless has no depth, and
-- there the code does not return. The counters of the worker and of a rebuild stop at 2^64 - 1, as
-- saturating_add does. The parser of filter expressions, and the walk for their hint, take five
-- units a character and five more: at most five calls, or rounds of a loop, follow each other
-- before the cursor moves on. All other loops are structural.
--
-- What is not modelled. The sources of input/output errors are dropped, and so are the help texts
-- of PathError and FsError. Paths are Unix paths of valid Unicode. Years are not negative. A panic
-- while the retry buffer's mutex is held is the flag `poisoned`. The time crate is read through
-- `Calendar`. The clock, the persistence adapter, the log's appender and the four services are
-- parameters. What the metadata of a file says besides its kind and length is left out. The ports
-- of the reader, the writer, the embedder and the vector store are parameters over a world; the
-- case mappings of Unicode, the frontmatter parser, the reading of floats and SHA-256 are
-- parameters too. The frontmatter error of an index entry is a case of the service's error of its
-- own, and its errors of paths that are not Unicode never arise. Attachments, discovery, versions,
-- the link graph, the text index and the search service, the embedders, note codecs, the views,
-- formulas and tables of bases, the server's protocol and the web front end are left out.
pub mod Prelude
pub mod FilePath
pub mod Host
pub mod Vault
pub mod Hash
pub mod Exec
pub mod Operation
pub mod Pipeline
pub mod Routing
pub mod LogRecord
pub mod Oplog
pub mod Chunk
pub mod Examples
pub mod Files
pub mod Tags
pub mod Search
pub mod Index
pub mod Query
