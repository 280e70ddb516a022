-- ===== src/Lib.antt =====
-- cloudSearch: a search engine in Rust. An index is a directory with a write-ahead log, immutable
-- segments and sidecar files for them, and a handle that holds the documents in memory. A write
-- goes to the log and to the pending operations of the handle; a refresh makes the pending
-- operations searchable; a flush writes a segment and trims the log; opening an index reads the
-- segments and then replays the log above them.
--
-- The parts, and the files of the repository that they model:
--   Prelude, BTreeMap, Bytes, Json: what the source uses of Rust, its standard library and the
--     value type of serde_json. A `BTreeMap` is a list of entries in the order of the keys; a
--     text is its UTF-8 bytes.
--   Common: rust/crates/cloudsearch-common/src/lib.rs, the errors (without the texts of their
--     messages), documents, mappings and settings. `Result` has a case for a panic.
--   Wal: rust/crates/cloudsearch-storage/src/lib.rs, `WalManager`. Its state is the directory:
--     CURRENT, the generation files as bytes, and whether a file with a name that is no number is
--     there. The operations are `append`, `replay_from`, `next_sequence_number`, `rollover` and
--     `trim_through`, with the loops over the bytes. Wal/Spec is the log without bytes, Scan and
--     Refines show that the bytes implement it, Trim and Retain are about trimming, Crash about a
--     record cut off in a write.
--   Positions: cloudsearch-storage/src/inverted_index.rs and positions_writer.rs of the same
--     crates directory: postings, `PositionsWriter::build`, `PositionsReader::from_bytes` and
--     `get`.
--   Suggest: cloudsearch-storage/src/suggest_index.rs: the file of the suggest index and
--     `suggest_for_field` with its binary search. A score is the bit pattern of a `f32`.
--   Index: rust/crates/cloudsearch-index/src/lib.rs: `IndexHandle` with the directory that it
--     works on. Tokens has `tokenize` and `extract_positions`, Mappings `infer_field_type` and
--     `validate_and_update_mappings`, Operations `index_document`, `delete_document`,
--     `bulk_apply`, `refresh`, `evict_expired_documents` and the reads, Recovery `open_index`
--     with the migration of the legacy file, MergePlan `plan_merge`, Merge `apply_merge_plan` and
--     `merge`, Flush `flush`, SuggestBuild `build_suggest_index`, Catalog `IndexCatalog`,
--     Registry `IndexRegistry`, Snapshots the named snapshots (with cloudsearch-
--     storage/src/lib.rs). Runs, Views, Bulk and Evict say what the operations do; Durability,
--     Reopen and Steps tie the handle to its files. Merge/Views and Merge/Numbers are about
--     merging; Flush/Sidecars and Flush/Reopened are about the files that a flush writes,
--     Flush/Merged about the merge at its end, Flush/Trimmed and Flush/Durable about what it
--     leaves; Snapshots/Restored about restoring, Registry/Opened about new indexes and their
--     settings.
--   DocValues: cloudsearch-index/src/doc_values.rs and doc_values_reader.rs, the columns of a
--     segment.
--   Query: the queries of cloudsearch-common/src/lib.rs and their scores in cloudsearch-
--     index/src/lib.rs: Bm25 `Bm25Context`, Values the ranges, Match the match, term and terms
--     queries, Phrase and MultiMatch, Patterns the prefix and wildcard queries, Fuzzy
--     `levenshtein_distance`, Score `score_query` with `score_bool_query`, Validate
--     `validate_query` and `validate_search_request`. Clauses and Unflushed say which documents
--     match, Fuzzy/Scripts has lists of edits.
--   QueryString: cloudsearch-api/src/query_string.rs. Lexer has the methods that read characters,
--     Classify `classify_and_build_query`, Combine the three ways to join queries, and
--     QueryString the grammar. Ensures, Ends and Termination are about the run of the parser,
--     Meaning about the joined queries.
--   Sort: the stable sort of Rust's slices.
--
-- How code becomes definitions: an operation on `&mut self` gives its result and the state
-- afterwards, also where it fails. The file system succeeds, except where the source decides on
-- what is there; a crash is a file that was written in part. A handle of the registry is given the
-- files of its directory before an operation and leaves its files there after it. The locks are
-- held throughout an operation. Reads of the clock are arguments. A loop over bytes runs on fuel,
-- for which the length of the bytes is enough, since each round takes a header at least; the binary
-- search runs on the length of the interval, which each round halves; the search for offsets runs
-- on the length of the text, since each round moves on; the parser of query strings runs on four
-- times the length of the text and four more, since each call and each round takes one and there
-- are at most four to a character that is read. Sequence numbers, generation numbers and versions
-- are not wrapped: they grow by one with each operation and start at 0 or 1, and the format of the
-- log asks that they are below 2 ^ 64.
--
-- The files of segments and snapshots hold the values that were written; the bytes of serde_json
-- are not modelled for them.
--
-- Parameters: the codec of the log's records (serde_json, which reads back what it writes, and
-- crc32c, which gives a `u32`), serde_json for a snapshot and for the values of a query string, the
-- standard library's hash of an id, binary search and Unicode tables, the regex crate, floating-
-- point arithmetic on bit patterns, and chrono's instants as numbers in the order of time.
--
-- Not modelled: `search` with its sorting and paging, more-like-this, highlights and suggestions
-- over the segments, the aggregations, the HTTP server and the node, which are input and output for
-- the most part, and the time stamps of metadata and manifests.
pub mod Prelude
pub mod BTreeMap
pub mod Bytes
pub mod Sort
pub mod Json
pub mod Common
pub mod Wal
pub mod Positions
pub mod Suggest
pub mod DocValues
pub mod Index
pub mod Query
pub mod QueryString
