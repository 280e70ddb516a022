-- ===== src/Index/Recovery.antt =====
-- `open_index`: the handle that the files of an index give: the segments of the manifest, and then the
-- entries of the log above them.
use cloud_search.Prelude.{ℕ, Option, none, some, List, [], ◌∷◌, length, max}
use cloud_search.Prelude.Order.{nat_ord, text_ord}
use cloud_search.BTreeMap.{BTreeMap, get, insert, remove}
use cloud_search.Bytes.{Text}
use cloud_search.Common.{Result, ok, err, panic, ◌>>=◌, IndexDocument, IndexMetadata}
use cloud_search.Wal.Records.{index_document, delete_document, mapping_update}
use cloud_search.Wal.{WalManager, WalEntry, ensure_current_generation, replay_from}
use cloud_search.Positions.{PositionsReader, parsed, failed}
use cloud_search.Suggest.{SuggestIndex}
use cloud_search.DocValues.{DocValuesReader}
use cloud_search.Index.{Env, IndexHandle, IndexManifest, SegmentMeta, SegmentsDir}
use cloud_search.Index.Operations.{extract_document_timestamp}

-- What a fresh index has, and where the legacy file is: it becomes the first segment.
unfoldable pub open_manifest : SegmentsDir → IndexManifest × SegmentsDir
open_manifest dir = elim dir.manifest_file [
  | some m ↦ (m, dir)
  | none ↦ elim dir.current_json [
    | none ↦ (record { version = 1; segments = [] }, dir)
    | some snap ↦ (
      record {
        version = 1;
        segments =
            record {
              segment_number = 1;
              last_sequence_number = snap.last_sequence_number;
              document_count = length snap.documents;
              checksum = 0;
            }
            ∷ [];
      },
      record dir { segment_files = insert 1 snap dir.segment_files; current_json = none },
    )
  ]
]

unfoldable pub insert_documents :
    List IndexDocument → BTreeMap Text IndexDocument → BTreeMap Text IndexDocument
insert_documents [] m = m
insert_documents (d ∷ ds) m = insert_documents ds (insert d.id d m)

-- The documents of the segments, the last write winning, and the highest sequence number.
unfoldable pub load_segments :
    SegmentsDir
    → List SegmentMeta
    → BTreeMap Text IndexDocument
    → ℕ
    → BTreeMap Text IndexDocument × ℕ
load_segments dir [] docs max_seq = (docs, max_seq)
load_segments dir (seg ∷ segs) docs max_seq = elim (get seg.segment_number dir.segment_files) [
  | none ↦ load_segments dir segs docs max_seq
  | some snap ↦
      load_segments dir segs (insert_documents snap.documents docs)
        (max max_seq seg.last_sequence_number)
]

-- What recovery changes as it reads the log.
pub record Recovered : Type 0 where
  pub documents : BTreeMap Text IndexDocument
  pub timestamps : BTreeMap Text ℕ
  pub last_sequence_number : ℕ

-- `none` for a sum out of range.
unfoldable pub recover_timestamp :
    Env → IndexMetadata → IndexDocument → BTreeMap Text ℕ → Option (BTreeMap Text ℕ)
recover_timestamp env md d timestamps = elim (extract_document_timestamp env md d) [
  | none ↦ some timestamps
  | some ts ↦ elim md.settings.retention_secs [
    | none ↦ some timestamps
    | some retention ↦ elim (env.add_seconds ts retention) [
      | none ↦ none
      | some expiry ↦ some (insert d.id expiry timestamps)
    ]
  ]
]

unfoldable pub recover_entry : Env → IndexMetadata → WalEntry → Recovered → Option Recovered
recover_entry env md e r = elim e.wal_record [
  | index_document d ↦ elim (recover_timestamp env md d r.timestamps) [
    | none ↦ none
    | some timestamps ↦ some (record {
      documents = insert d.id d r.documents;
      timestamps = timestamps;
      last_sequence_number = e.sequence_number;
    })
  ]
  | delete_document id ↦ some (record {
    documents = remove id r.documents;
    timestamps = remove id r.timestamps;
    last_sequence_number = e.sequence_number;
  })
  | mapping_update v raw ↦ some (record r { last_sequence_number = e.sequence_number })
]

unfoldable pub recover : Env → IndexMetadata → List WalEntry → Recovered → Option Recovered
recover env md [] r = some r
recover env md (e ∷ es) r = elim (recover_entry env md e r) [
  | none ↦ none
  | some r1 ↦ recover env md es r1
]

-- `PositionsReader::read` of the positions file of a segment, kept if it has terms.
unfoldable pub read_positions : SegmentsDir → ℕ → Option PositionsReader
read_positions dir n = elim (get n dir.positions_files) [
  | none ↦ none
  | some bs ↦ elim (cloud_search.Positions.from_bytes bs) [
    | failed e ↦ none
    | parsed r ↦ elim r.term_dict [ [] ↦ none | _ ↦ some r ]
  ]
]

unfoldable pub load_single_positions_reader : SegmentsDir → SegmentMeta → Option PositionsReader
load_single_positions_reader dir seg = read_positions dir seg.segment_number

unfoldable pub load_all_positions_readers : SegmentsDir → List SegmentMeta → List PositionsReader
load_all_positions_readers dir [] = []
load_all_positions_readers dir (seg ∷ segs) =
    let rest = load_all_positions_readers dir segs in
    elim (load_single_positions_reader dir seg) [ none ↦ rest | some r ↦ r ∷ rest ]

unfoldable pub load_single_suggest_reader : SegmentsDir → SegmentMeta → Result (Option SuggestIndex)
load_single_suggest_reader dir seg = elim (get seg.segment_number dir.suggest_files) [
  | none ↦ ok none
  | some bs ↦ elim (cloud_search.Suggest.from_bytes bs) [
    | panic ↦ panic
    | err e ↦ ok none
    | ok [] ↦ ok none
    | ok m ↦ ok (some m)
  ]
]

unfoldable pub load_all_suggest_readers :
    SegmentsDir → List SegmentMeta → Result (List (Option SuggestIndex))
load_all_suggest_readers dir [] = ok []
load_all_suggest_readers dir (seg ∷ segs) = do
  reader ← load_single_suggest_reader dir seg
  readers ← load_all_suggest_readers dir segs
  ok (reader ∷ readers)

-- `read_doc_values` of the sidecars, where there are any.
unfoldable pub load_doc_values : SegmentsDir → Option DocValuesReader
load_doc_values dir = elim dir.doc_values_files [ [] ↦ none | fields ↦ some fields ]

unfoldable pub open_index : Env → IndexMetadata → WalManager → SegmentsDir → Result IndexHandle
open_index env md log_dir dir = do
  let wal = ensure_current_generation log_dir
  let (manifest, dir1) = open_manifest dir
  let (docs, max_seq) = load_segments dir1 manifest.segments [] 0
  entries ← replay_from env.codec max_seq wal
  r ←
      elim (recover env md entries
        (record { documents = docs; timestamps = []; last_sequence_number = max_seq })) [
          | none ↦ panic
          | some r ↦ ok r
        ]
  suggest_readers ← load_all_suggest_readers dir1 manifest.segments
  ok (record {
    metadata = md;
    stored_metadata = md;
    wal = wal;
    segments_dir = dir1;
    manifest = manifest;
    searchable_documents = r.documents;
    pending_operations = [];
    last_sequence_number = r.last_sequence_number;
    document_timestamps = r.timestamps;
    per_doc_inverted_index = [];
    positions_readers = load_all_positions_readers dir1 manifest.segments;
    suggest_readers = suggest_readers;
    doc_values_reader = load_doc_values dir1;
  })
