-- ===== src/Index/Fixtures.antt =====
-- A fresh index and handles after it, for examples.
use cloud_search.Prelude.{◌+◌, none, some, [], ◌∷◌, length}
use cloud_search.Prelude.Order.{text_ord}
use cloud_search.Bytes.{Text}
use cloud_search.Json.{object, end}
use cloud_search.Common.{IndexDocument, IndexMetadata, controlled_dynamic}
use cloud_search.Wal.Toy.{toy}
use cloud_search.Wal.Spec.{Log, represent}
use cloud_search.Index.{Env, IndexHandle, upsert_op}

abbrev pub env : Env
env = record {
  codec = toy;
  parse_from_rfc3339 = λ t. none;
  from_timestamp = λ n. some n;
  add_seconds = λ t s. some (t + s);
  snapshot_to_vec = λ s. some (s.last_sequence_number ∷ length s.documents ∷ []);
  hash_doc_id = λ t. length t;
  f64_of = λ n. 0;
  doc_freq_score = λ a b. a;
}

abbrev pub metadata : IndexMetadata
metadata = record {
  name = b'i' ∷ [];
  settings = record {
    mapping_mode = controlled_dynamic;
    primary_time_field = none;
    namespace = none;
    retention_secs = none;
    merge_threshold_docs = none;
  };
  mappings = [];
}

abbrev pub empty_log : Log
empty_log = record { active = 1; generations = [] }

abbrev pub fresh : IndexHandle
fresh = record {
  metadata = metadata;
  stored_metadata = metadata;
  wal = represent toy empty_log;
  segments_dir = record {
    manifest_file = none;
    segment_files = [];
    current_json = none;
    positions_files = [];
    suggest_files = [];
    doc_values_files = [];
    snapshots_dir = [];
  };
  manifest = record { version = 1; segments = [] };
  searchable_documents = [];
  pending_operations = [];
  last_sequence_number = 0;
  document_timestamps = [];
  per_doc_inverted_index = [];
  positions_readers = [];
  suggest_readers = [];
  doc_values_reader = none;
}

abbrev pub a_text : Text
a_text = b'a' ∷ []

abbrev pub document : IndexDocument
document = record { id = a_text; source = object end }

abbrev pub pending : IndexHandle
pending = record fresh { pending_operations = (a_text, upsert_op document) ∷ [] }
