-- ===== src/Index.antt =====
-- crates/cloudsearch-index/src/lib.rs: one open index. What the source keeps of it in memory and in
-- its directory, with the types of crates/cloudsearch-storage/src/lib.rs that these hold.
pub mod Tokens
pub mod Mappings
pub mod Operations
pub mod Recovery
pub mod MergePlan
pub mod Merge
pub mod Runs
pub mod Views
pub mod Durability
pub mod Reopen
pub mod Steps
pub mod Bulk
pub mod Evict
pub mod SuggestBuild
pub mod Flush
pub mod Snapshots
pub mod Catalog
pub mod Registry
mod Fixtures
mod Examples
mod MergeExamples
mod FlushExamples
mod RegistryExamples
use cloud_search.Prelude.{ℕ, ◌+◌, ◌-◌, ◌^◌, Option, none, some, List, [], ◌∷◌, ltb, if◌then◌else◌}
use cloud_search.BTreeMap.{BTreeMap}
use cloud_search.Bytes.{Bytes, Text}
use cloud_search.Json.{Value, Number, pos_int, neg_int, float}
use cloud_search.Common.{IndexDocument, IndexMetadata}
use cloud_search.Wal.Records.{Codec}
use cloud_search.Wal.{WalManager}
use cloud_search.Positions.{PositionsReader}
use cloud_search.Suggest.{SuggestIndex}
use cloud_search.DocValues.{DocValuesField, DocValuesReader}

pub record SegmentSnapshot : Type 0 where
  pub last_sequence_number : ℕ
  pub documents : List IndexDocument

pub record SegmentMeta : Type 0 where
  pub segment_number : ℕ
  pub last_sequence_number : ℕ
  pub document_count : ℕ
  pub checksum : ℕ

pub record IndexManifest : Type 0 where
  pub version : ℕ
  pub segments : List SegmentMeta

pub data PendingOperation : Type 0 where
  upsert_op : IndexDocument → PendingOperation
  delete_op : PendingOperation

-- `created_at` is an instant.
pub record SnapshotMetadata : Type 0 where
  pub name : Text
  pub created_at : ℕ
  pub last_sequence_number : ℕ
  pub document_count : ℕ
  pub checksum : ℕ

-- A file of the directory `snapshots`.
pub data SnapshotFile : Type 0 where
  data_file : SegmentSnapshot → SnapshotFile
  meta_file : SnapshotMetadata → SnapshotFile

-- The directory `segments`. A JSON file is the value that is read from it, and one that does not
-- parse counts as absent where the source treats it so. The sidecar
-- of a field's doc values is what is read from it, under the field's name.
pub record SegmentsDir : Type 0 where
  pub manifest_file : Option IndexManifest
  pub segment_files : BTreeMap ℕ SegmentSnapshot
  pub current_json : Option SegmentSnapshot
  pub positions_files : BTreeMap ℕ Bytes
  pub suggest_files : BTreeMap ℕ Bytes
  pub doc_values_files : BTreeMap Text DocValuesField
  pub snapshots_dir : BTreeMap Text SnapshotFile

-- `stored_metadata` is the file metadata.json.
pub record IndexHandle : Type 0 where
  pub metadata : IndexMetadata
  pub stored_metadata : IndexMetadata
  pub wal : WalManager
  pub segments_dir : SegmentsDir
  pub manifest : IndexManifest
  pub searchable_documents : BTreeMap Text IndexDocument
  pub pending_operations : BTreeMap Text PendingOperation
  pub last_sequence_number : ℕ
  pub document_timestamps : BTreeMap Text ℕ
  pub per_doc_inverted_index : BTreeMap Text (BTreeMap Text (List ℕ))
  pub positions_readers : List PositionsReader
  pub suggest_readers : List (Option SuggestIndex)
  pub doc_values_reader : Option DocValuesReader

-- What the source calls of other crates: the codec of the log, `serde_json` for a snapshot, the
-- standard library's hash of a text, which has no fixed algorithm, and `chrono`, whose instants are
-- numbers in the order of time. `f64_of` is `Number::as_f64` and `doc_freq_score` the quotient of two
-- numbers in `f64` as a `f32`, both as bit patterns. `add_seconds` takes the bit pattern of an `i64` and answers `none`
-- where the sum is out of range, which panics.
pub record Env : Type 0 where
  pub codec : Codec
  pub parse_from_rfc3339 : Text → Option ℕ
  pub from_timestamp : ℕ → Option ℕ
  pub add_seconds : ℕ → ℕ → Option ℕ
  pub snapshot_to_vec : SegmentSnapshot → Option Bytes
  pub hash_doc_id : Text → ℕ
  pub f64_of : Number → ℕ
  pub doc_freq_score : ℕ → ℕ → ℕ
